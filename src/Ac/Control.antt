-- ===== src/Ac/Control.antt =====
-- `set_ac_state`: the command goes to the ESP32 first, and what it confirms is stored.
mod Exchange
pub mod Stored
pub mod Guards
use local_voice_agent.Prelude.{
  ℕ, ◌+◌, ◌/◌, String, Bool, true, false, not, ◌&&◌, ◌||◌, Option, none, some, List, [], ◌∷◌, ◌++◌,
  ltb, if◌then◌else◌, ◌==◌, nat_eq, string_eq, option_eq, first, any, update, is_text, concat,
}
use local_voice_agent.Value.{pos, Value, bool, int, str, Dict, is_false, get, put, merge, Runtime}
use local_voice_agent.Models.{is_ac, RemoteControl, AcState, ip_text, Db}
use local_voice_agent.Ac.Protocol.{
  ac_state_fields, protocol_config, is_protocol_model_supported, protocol_capabilities,
}
use local_voice_agent.Ac.Validate.{
  Result, ok, err, fail, invalid_state, unconfigured, stale_response, not_found, wrong_type,
  validate_state_values,
}
use local_voice_agent.Ac.Http.{
  get_method, post_method, Request, Response, Controller, Net, pure, lift, raise, ◌>>=◌, send,
}
use local_voice_agent.Ac.Response.{
  parse_esp32_response, is_stale_version_response, apply_confirmed_state,
}

-- The defaults of a new `ACState`
abbrev default_attrs : String → Value
default_attrs f =
    if f == "mode"
    then str "cool"
    else if f == "temperature"
    then int (pos 24)
    else if f == "fan"
    then str "auto"
    else bool false

abbrev pub new_ac_state : ℕ → AcState
new_ac_state device = record {
  device = device;
  attrs = default_attrs;
  state_version = 0;
  esp32_updated_at = 0;
}

-- `ACState.objects.get_or_create(device=device)`
unfoldable pub get_or_create_state : ℕ → Db → AcState
get_or_create_state device db = elim (first (λ (s : AcState). s.device == device) db.ac_states) [
  | none ↦ new_ac_state device
  | some s ↦ s
]

abbrev pub is_state_of : ℕ → AcState → Bool
is_state_of device s = s.device == device

-- The row that `get_or_create` adds if there is none
unfoldable pub create_state : ℕ → Db → Db
create_state device db =
    if any (is_state_of device) db.ac_states
    then db
    else record db { ac_states = db.ac_states ++ new_ac_state device ∷ [] }

-- `state.save()`: the row of the device is written, or the new one is added.
unfoldable pub save_state : AcState → Db → Db
save_state state db =
    if any (is_state_of state.device) db.ac_states
    then record db { ac_states = update (is_state_of state.device) (λ _. state) db.ac_states }
    else record db { ac_states = db.ac_states ++ state ∷ [] }

-- `serialize_ac_state`
serialize_fields : List String → (String → Value) → Dict
serialize_fields [] attrs = []
serialize_fields (f ∷ fs) attrs = (f, attrs f) ∷ serialize_fields fs attrs

unfoldable pub serialize_ac_state : AcState → Dict
unfolding serialize_fields
serialize_ac_state state = serialize_fields ac_state_fields state.attrs

-- `all((device_name, brand, protocol, protocol_model))`
abbrev is_complete_device : RemoteControl → Bool
is_complete_device d =
    is_text d.device_name && is_text d.brand && is_text d.protocol && is_text d.protocol_model

abbrev is_some : {A : Type 0} → Option A → Bool
is_some none = false
is_some (some a) = true

-- The checks of the device
unfoldable pub checked_device : ℕ → Db → Result RemoteControl
checked_device device_id db = elim (first (λ (r : RemoteControl). r.pk == device_id) db.remotes) [
  | none ↦ fail not_found
  | some device ↦
      if not (is_ac device.device_type)
      then fail wrong_type
      else if not (is_complete_device device)
      then fail unconfigured
      else if not (is_some (protocol_config device.protocol))
          || not (is_protocol_model_supported device.protocol device.protocol_model)
      then fail unconfigured
      else ok device
]

-- Some change that the capabilities mark `False`
unfoldable pub is_unsupported : Dict → Dict → Bool
is_unsupported capabilities changes = any (λ (f, v). is_false (get f capabilities)) changes

-- `_controller_url`
unfoldable pub controller_url : RemoteControl → Result String
controller_url device =
    if is_text (ip_text device.device_ip)
    then ok (concat "http://" (concat (ip_text device.device_ip) "/api/ac/state"))
    else fail unconfigured

unfoldable pub command_payload : String → RemoteControl → ℕ → Dict → Dict
command_payload request_id device version changes =
    merge
      (("source", str "django")
        ∷ ("request_id", str request_id)
        ∷ ("brand", str device.brand)
        ∷ ("protocol", str device.protocol)
        ∷ ("model", str device.protocol_model)
        ∷ ("state_version", int (pos version))
        ∷ [])
      changes

post : String → Dict → Request
post url body = record { method = post_method; url = url; body = body }

module _ (runtime : Runtime) (controller : Controller) (device : RemoteControl) where
  -- The resolution of a version conflict: the current state is read and the command is sent again.
  resolve : String → Dict → AcState → Net (AcState × Response)
  unfolding post ◌>>=◌ send
  resolve url payload state = do
    current_response ← send controller (record { method = get_method; url = url; body = [] })
    current ← lift (parse_esp32_response runtime current_response device false)
    if ltb current.state_version state.state_version then raise stale_response else do
      response ←
          send controller
            (post url (put "state_version" (int (pos (current.state_version + 1))) payload))
      pure (apply_confirmed_state state current, response)

  pub exchange : String → Dict → AcState → Net (AcState × Response)
  unfolding resolve
  exchange url payload state = do
    response ← send controller (post url payload)
    if is_stale_version_response runtime response
        then resolve url payload state
        else pure (state, response)

  -- The state that the last answer confirms
  confirm : AcState × Response → Net AcState
  unfolding ◌>>=◌
  confirm (state, response) = do
    confirmed ← lift (parse_esp32_response runtime response device true)
    if ltb confirmed.state_version state.state_version
        then raise stale_response
        else pure (apply_confirmed_state state confirmed)

  pub transmit : String → Dict → AcState → Net AcState
  unfolding exchange confirm
  transmit request_id changes state = do
    url ← lift (controller_url device)
    answer ←
        exchange url (command_payload request_id device (state.state_version + 1) changes) state
    confirm answer

-- The transaction: an error leaves the database as it was.
unfoldable pub commit : Db → Result AcState × List Request → (Result AcState × List Request) × Db
commit db (ok state, sent) = ((ok state, sent), save_state state db)
commit db (err e, sent) = ((err e, sent), db)

command : Runtime → Controller → String → Dict → Db → RemoteControl → Net AcState
unfolding transmit
command runtime controller request_id changes db device = do
  accepted ← lift (validate_state_values false changes)
  if is_unsupported (protocol_capabilities device.protocol) accepted
      then raise invalid_state
      else transmit runtime controller device request_id accepted (get_or_create_state device.pk db)

-- `set_ac_state`: the stored state or the error, the requests that were sent, and the database
unfoldable pub set_ac_state :
    Runtime → Controller → ℕ → Dict → String → Db → (Result AcState × List Request) × Db
unfolding command commit
set_ac_state runtime controller device_id changes request_id db = commit db (
    (do
      device ← lift (checked_device device_id db)
      command runtime controller request_id changes db device)
      [])
