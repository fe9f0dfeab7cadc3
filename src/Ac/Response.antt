-- ===== src/Ac/Response.antt =====
-- The reading of an answer of the ESP32.
pub mod Laws
pub mod Uncaught
use local_voice_agent.Prelude.{
  ℕ, String, Bool, true, false, not, ◌&&◌, none, some, [], ◌∷◌, ltb, leb, if◌then◌else◌, ◌==◌,
  nat_eq, string_eq, option_eq, len, prefix,
}
use local_voice_agent.Value.{
  pos, Value, bool, int, str, Dict, as_dict, as_str, as_natural, is_true, get_or, get, Runtime,
  to_str_or_empty,
}
use local_voice_agent.Models.{RemoteControl, AcState}
use local_voice_agent.Ac.Validate.{
  Error, Result, ok, err, fail, ac_error, attribute_error, controller_error, invalid_response,
  validate_state_values, ◌>>=◌,
}
use local_voice_agent.Ac.Http.{Response}

-- What the callers read of the payload that `_parse_esp32_response` returns
pub record Confirmed : Type 0 where
  pub state : Dict
  pub state_version : ℕ
  pub updated_at : Value

abbrev pub is_success : ℕ → Bool
is_success status = leb 200 status && ltb status 300

-- The branch for a status that is no success: a body that is JSON and no object has no `get`.
rejected : Response → Error
rejected r = elim r.json [
  | none ↦ ac_error controller_error (some r.status_code)
  | some v ↦ elim (as_dict v) [
    | none ↦ attribute_error
    | some d ↦ ac_error controller_error (some r.status_code)
  ]
]

-- `str(payload.get(field) or "").casefold() == expected.casefold()`
abbrev pub matches : Runtime → Dict → String → String → Bool
matches runtime payload f expected =
    runtime.casefold (to_str_or_empty runtime (get f payload)) == runtime.casefold expected

-- The three fields that name the device
unfoldable pub names_device : Runtime → Dict → RemoteControl → Bool
unfolding get
names_device runtime payload device =
    matches runtime payload "brand" device.brand
    && matches runtime payload "protocol" device.protocol
    && matches runtime payload "model" device.protocol_model

parse_state : Dict → ℕ → Result Confirmed
unfolding get_or
parse_state payload version = elim (as_dict (get "state" payload)) [
  | none ↦ fail invalid_response
  | some state ↦ validate_state_values true state >>= λ confirmed. ok (record {
    state = confirmed;
    state_version = version;
    updated_at = get_or "updated_at" (int (pos 0)) payload;
  })
]

parse_payload : Runtime → Dict → RemoteControl → Result Confirmed
unfolding parse_state names_device get
parse_payload runtime payload device =
    if not (names_device runtime payload device)
    then fail invalid_response
    else elim (as_natural (get "state_version" payload)) [
      | none ↦ fail invalid_response
      | some version ↦ parse_state payload version
    ]

parse_json : Runtime → Value → RemoteControl → Bool → Result Confirmed
unfolding parse_payload
parse_json runtime v device require_success = elim (as_dict v) [
  | none ↦ fail controller_error
  | some payload ↦
      if require_success && not (is_true (get "success" payload))
      then fail controller_error
      else parse_payload runtime payload device
]

-- `_parse_esp32_response`
unfoldable pub parse_esp32_response : Runtime → Response → RemoteControl → Bool → Result Confirmed
unfolding rejected parse_json
parse_esp32_response runtime r device require_success =
    if not (is_success r.status_code) then err (rejected r) else elim r.json [
      | none ↦ fail invalid_response
      | some v ↦ parse_json runtime v device require_success
    ]

starts_with : String → String → Bool
starts_with prefix_text s = prefix (len prefix_text) s == prefix_text

is_stale_message : Runtime → Value → Bool
unfolding starts_with
is_stale_message runtime v = elim (as_dict v) [
  | none ↦ false
  | some d ↦ elim (as_str (get_or "message" (str "") d)) [
    | none ↦ false
    | some message ↦ starts_with "state_version is older" (runtime.casefold message)
  ]
]

-- `_is_stale_version_response`
unfoldable pub is_stale_version_response : Runtime → Response → Bool
unfolding is_stale_message
is_stale_version_response runtime r =
    if not (r.status_code == 409)
    then false
    else elim r.json [ none ↦ false | some v ↦ is_stale_message runtime v ]

-- `updated_at if isinstance(updated_at, int) and updated_at >= 0 else 0`: a `bool` is an `int`.
abbrev pub updated_at_of : Value → ℕ
updated_at_of (int (pos n)) = n
updated_at_of (bool true) = 1
updated_at_of _ = 0

-- `setattr(state, field, value)`
abbrev pub set_attr : String → Value → (String → Value) → String → Value
set_attr f v attrs g = if f == g then v else attrs g

-- `for field, value in values.items(): setattr(state, field, value)`
unfoldable pub set_attrs : Dict → (String → Value) → String → Value
set_attrs [] attrs = attrs
set_attrs ((f, v) ∷ values) attrs = set_attrs values (set_attr f v attrs)

-- `_apply_confirmed_state`
unfoldable pub apply_confirmed_state : AcState → Confirmed → AcState
unfolding set_attrs
apply_confirmed_state state confirmed = record state {
  attrs = set_attrs confirmed.state state.attrs;
  state_version = confirmed.state_version;
  esp32_updated_at = updated_at_of confirmed.updated_at;
}
