-- ===== src/Tools/Air.antt =====
-- kiosk_agent/core/tools.py: the tool that sets an air conditioner.
pub mod Shown
use local_voice_agent.Prelude.{
  ℕ, ◌+◌, code, String, Bool, true, false, not, ◌&&◌, none, some, List, [], ◌∷◌, ◌++◌, map,
  if◌then◌else◌, ◌==◌, nat_eq, string_eq, option_eq, select, first,
}
use local_voice_agent.Value.{
  pos, Value, null, bool, int, str, list, dict, Dict, fields, is_true, has_key, get, Runtime,
}
use local_voice_agent.Models.{Uuid, Event, is_ac, RemoteControl, AcState, Db}
use local_voice_agent.Chat.Store.{audit}
use local_voice_agent.Ac.Validate.{Code, ac_error, attribute_error, Result, ok, err}
use local_voice_agent.Ac.Http.{Controller, Request}
use local_voice_agent.Ac.Control.{serialize_ac_state, set_ac_state}
use local_voice_agent.Tools.Listing.{visible_ac_capabilities}
use local_voice_agent.Tools.Reply.{
  replied, raised, ac_command, HandlerRun, quiet, stay_matches, list_value, refusal,
}

-- `ACControlError.code`
abbrev ac_code_text : Code → String
ac_code_text Code.invalid_state = "invalid_state"
ac_code_text Code.invalid_response = "invalid_response"
ac_code_text Code.unconfigured = "unconfigured"
ac_code_text Code.controller_error = "controller_error"
ac_code_text Code.stale_response = "stale_response"
ac_code_text Code.not_found = "not_found"
ac_code_text Code.wrong_type = "wrong_type"
ac_code_text Code.timeout = "timeout"
ac_code_text Code.network_error = "network_error"
ac_code_text Code.invalid_source = "invalid_source"
ac_code_text Code.ambiguous_device = "ambiguous_device"

abbrev is_given : String × Value → Bool
is_given (f, null) = false
is_given (f, v) = true

-- The changes: the fields of the input that are not null, in their order
abbrev pub given : Dict → Dict
given state = select is_given state

-- The names of the changes that the device does not show
unfoldable pub blocked_fields : Dict → Dict → List String
unfolding get
blocked_fields capabilities [] = []
blocked_fields capabilities ((f, v) ∷ changes) =
    let rest = blocked_fields capabilities changes in
    if is_true (get f capabilities) then rest else f ∷ rest

-- The fields of the state in the order of `sorted`
abbrev sorted_fields : List String
sorted_fields =
    "eco" ∷ "fan" ∷ "light" ∷ "mode" ∷ "power" ∷ "quiet" ∷ "sleep" ∷ "swing_horizontal"
    ∷ "swing_vertical" ∷ "temperature" ∷ "turbo" ∷ "x_fan" ∷ []

-- `sorted(changes)`
abbrev sorted_keys : Dict → List String
sorted_keys changes = select (λ f. has_key f changes) sorted_fields

-- `_audit_ac_control`
unfoldable pub audit_ac_control : Uuid → Uuid → ℕ → Event → Dict → String → Db → Db
audit_ac_control stay request device_id event changes status_text db =
    audit stay (some request) event
      (("remote_id", int (pos device_id))
        ∷ ("source", str "voice")
        ∷ ("execution", str "server")
        ∷ ("command_type", str "ac_state")
        ∷ ("changed_fields", list (list_value (map str (sorted_keys changes))))
        ∷ ("status", str status_text)
        ∷ [])
      db

module _ (stay request : Uuid) (device : RemoteControl) (changes : Dict) where
  -- What the handler makes of the result of `set_ac_state`
  unfoldable pub ac_outcome : (Result AcState × List Request) × Db → HandlerRun
  unfolding audit_ac_control serialize_ac_state
  ac_outcome ((err attribute_error, sent), after) = ((raised, map ac_command sent), after)
  ac_outcome ((err (ac_error code http), sent), after) = (
    (replied (refusal "applied" (ac_code_text code)), map ac_command sent),
    audit_ac_control stay request device.pk Event.remote_failed changes (ac_code_text code) after,
  )
  ac_outcome ((ok state, sent), after) = (
    (
      replied (
          ("applied", bool true)
          ∷ ("device", str device.name)
          ∷ ("location", str device.location)
          ∷ ("state", dict (fields (serialize_ac_state state)))
          ∷ ("state_version", int (pos state.state_version))
          ∷ []),
      map ac_command sent,
    ),
    audit_ac_control stay request device.pk Event.remote_pressed changes "success" after,
  )

abbrev pub is_voice_ac : ℕ → RemoteControl → Bool
is_voice_ac device_id r = r.pk == device_id && is_ac r.device_type && r.is_active && r.voice_enabled

module _ (runtime : Runtime) (controller : Controller) (uuid_text : Uuid → String) where
  -- An empty list of blocked fields lets the command through.
  unfoldable pub change_device :
      RemoteControl → Dict → List String → (stay request : Uuid) → Db → HandlerRun
  unfolding ac_outcome
  change_device device changes (f ∷ fs) stay request db =
      quiet
        (refusal "applied" "unsupported_or_hidden_control"
          ++ ("fields", list (list_value (map str (f ∷ fs)))) ∷ [])
        db
  change_device device changes [] stay request db =
      ac_outcome stay request device changes
        (set_ac_state runtime controller device.pk changes (uuid_text request) db)

  -- `_set_air_conditioner`
  unfoldable pub set_air_conditioner :
      (device_id : ℕ) (state : Dict) (stay request : Uuid) → Db → HandlerRun
  unfolding change_device blocked_fields visible_ac_capabilities
  set_air_conditioner device_id state stay request db =
      if not (stay_matches stay db)
      then quiet (refusal "applied" "stay_expired") db
      else elim (first (is_voice_ac device_id) db.remotes) [
        | none ↦ quiet (refusal "applied" "not_found_or_voice_disabled") db
        | some device ↦
            change_device device (given state)
              (blocked_fields (visible_ac_capabilities device) (given state)) stay request db
      ]
