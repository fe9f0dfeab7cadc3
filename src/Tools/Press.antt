-- ===== src/Tools/Press.antt =====
-- kiosk_agent/core/tools.py: the tools that send an infrared command.
pub mod Confirmed
pub mod Token
use local_voice_agent.Prelude.{
  ℕ, code, String, Bool, true, false, not, ◌&&◌, none, some, List, [], ◌∷◌, map, if◌then◌else◌,
  ◌==◌, nat_eq, string_eq, option_eq, first,
}
use local_voice_agent.Value.{pos, Value, bool, int, str, Dict, get}
use local_voice_agent.Models.{Uuid, Event, is_ac, is_lg_tv, RemoteControl, Db}
use local_voice_agent.Chat.Store.{audit}
use local_voice_agent.Ac.Http.{Outcome}
use local_voice_agent.Remote.Press.{
  RemoteCode, cooldown, forbidden, unconfigured, invalid_command, http_status, PressError,
  remote_error, uncaught, Pressed, done, refused, Ready, load_pressable_button, PressResult,
  press_remote_button,
}
use local_voice_agent.Remote.Tv.{
  TvCode, not_configured, offline, invalid_response, TvResult, ok, tv_error, TvRequest,
  send_command,
}
use local_voice_agent.Tools.Reply.{
  Outside, Handled, replied, raised, ir_command, tv_command, HandlerRun, quiet, stay_matches,
  refusal,
}

-- `RemoteCommandError.code`
abbrev remote_code_text : RemoteCode → String
remote_code_text RemoteCode.not_found = "not_found"
remote_code_text RemoteCode.forbidden = "forbidden"
remote_code_text RemoteCode.unconfigured = "unconfigured"
remote_code_text RemoteCode.invalid_command = "invalid_command"
remote_code_text RemoteCode.cooldown = "cooldown"
remote_code_text RemoteCode.timeout = "timeout"
remote_code_text RemoteCode.network_error = "network_error"
remote_code_text RemoteCode.http_status = "http_error"
remote_code_text RemoteCode.controller_error = "controller_error"

abbrev value_is_nat : ℕ → Value → Bool
value_is_nat n (int (pos m)) = m == n
value_is_nat n _ = false

abbrev value_is_text : String → Value → Bool
value_is_text s (str t) = t == s
value_is_text s _ = false

module _ (outside : Outside) where
  abbrev pub confirmation_payload : ℕ → Uuid → Uuid → Dict
  confirmation_payload button_id stay request =
      ("button_id", int (pos button_id))
      ∷ ("stay_id", str (outside.uuid_text stay))
      ∷ ("request_id", str (outside.uuid_text request))
      ∷ []

  -- `_make_confirmation_token`
  unfoldable pub make_confirmation_token : ℕ → Uuid → Uuid → String
  make_confirmation_token button_id stay request =
      outside.signing.dumps (confirmation_payload button_id stay request)

  -- `_valid_confirmation_token`
  unfoldable pub valid_confirmation_token : String → ℕ → Uuid → Uuid → Bool
  unfolding get
  valid_confirmation_token token button_id stay request = elim (outside.signing.loads token) [
    | none ↦ false
    | some payload ↦
        value_is_nat button_id (get "button_id" payload)
        && value_is_text (outside.uuid_text stay) (get "stay_id" payload)
        && not (value_is_text (outside.uuid_text request) (get "request_id" payload))
  ]

  -- Another exception than a `RemoteCommandError` leaves the handler.
  unfoldable pub press_refused : PressError → Handled
  press_refused uncaught = raised
  press_refused (remote_error code http) = replied (refusal "pressed" (remote_code_text code))

  unfoldable pub press_reply : Ready → Pressed PressResult → Handled
  unfolding press_refused
  press_reply ready (refused e) = press_refused e
  press_reply ready (done result) = replied (
      ("pressed", bool true)
      ∷ ("device", str ready.remote.name)
      ∷ ("location", str ready.remote.location)
      ∷ ("action", str result.label)
      ∷ [])

  abbrev pub confirmation_required : Ready → Uuid → Uuid → Dict
  confirmation_required ready stay request =
      ("pressed", bool false)
      ∷ ("confirmation_required", bool true)
      ∷ ("confirmation_token", str (make_confirmation_token ready.button.pk stay request))
      ∷ ("device", str ready.remote.name)
      ∷ ("location", str ready.remote.location)
      ∷ ("action", str ready.button.label)
      ∷ []

  unfoldable pub press_ready : Ready → Uuid → Uuid → Db → HandlerRun
  unfolding press_reply
  press_ready ready stay request db =
      let ((result, sent), after) =
        press_remote_button outside.world ready.button.pk "voice" (some stay) (some request) false
          true db in
      ((press_reply ready result, map ir_command sent), after)

  -- A button that was found
  unfoldable pub confirm_and_press : Ready → String → Uuid → Uuid → Db → HandlerRun
  unfolding valid_confirmation_token press_ready make_confirmation_token
  confirm_and_press ready token stay request db =
      if is_ac ready.remote.device_type
      then quiet (refusal "pressed" "wrong_device_type") db
      else if ready.button.requires_confirmation
          && not (valid_confirmation_token token ready.button.pk stay request)
      then quiet (confirmation_required ready stay request) db
      else press_ready ready stay request db

  -- `_press_remote_button_tool`
  unfoldable pub press_remote_button_tool :
      (button_id : ℕ) (token : String) (stay request : Uuid) → Db → HandlerRun
  unfolding confirm_and_press
  press_remote_button_tool button_id token stay request db =
      if not (stay_matches stay db)
      then quiet (refusal "pressed" "stay_expired") db
      else elim (load_pressable_button outside.world button_id false true db) [
        | refused e ↦ ((press_refused e, []), db)
        | done ready ↦ confirm_and_press ready token stay request db
      ]

-- `TVRemoteError.code`
abbrev tv_code_text : TvCode → String
tv_code_text TvCode.not_configured = "not_configured"
tv_code_text TvCode.timeout = "timeout"
tv_code_text TvCode.offline = "offline"
tv_code_text TvCode.controller_error = "controller_error"
tv_code_text TvCode.invalid_response = "invalid_response"
tv_code_text TvCode.invalid_command = "invalid_command"

abbrev tv_details : ℕ → String → String → Dict
tv_details remote_id command status_text =
    ("remote_id", int (pos remote_id))
    ∷ ("source", str "voice")
    ∷ ("execution", str "server")
    ∷ ("command_type", str "lg_tv")
    ∷ ("command", str command)
    ∷ ("status", str status_text)
    ∷ []

abbrev pub is_voice_tv : ℕ → RemoteControl → Bool
is_voice_tv device_id r =
    r.pk == device_id && is_lg_tv r.device_type && r.is_active && r.voice_enabled

unfoldable pub tv_outcome :
    RemoteControl
    → String
    → (stay request : Uuid) → Db
    → TvResult Dict × List TvRequest
    → HandlerRun
tv_outcome device command stay request db (tv_error code, sent) = (
  (replied (refusal "sent" (tv_code_text code)), map tv_command sent),
  audit stay (some request) Event.remote_failed (tv_details device.pk command (tv_code_text code))
      db,
)
tv_outcome device command stay request db (ok d, sent) = (
  (
    replied (
        ("sent", bool true)
        ∷ ("device", str device.name)
        ∷ ("location", str device.location)
        ∷ ("command", str command)
        ∷ []),
    map tv_command sent,
  ),
  audit stay (some request) Event.remote_pressed (tv_details device.pk command "success") db,
)

-- `_control_lg_tv`
unfoldable pub control_lg_tv :
    (TvRequest → Outcome)
    → (device_id : ℕ) (command : String) (stay request : Uuid) → Db
    → HandlerRun
unfolding tv_outcome
control_lg_tv controller device_id command stay request db =
    if not (stay_matches stay db)
    then quiet (refusal "sent" "stay_expired") db
    else elim (first (is_voice_tv device_id) db.remotes) [
      | none ↦ quiet (refusal "sent" "not_found_or_voice_disabled") db
      | some device ↦
          tv_outcome device command stay request db
            (send_command controller device.controller_url command)
    ]
