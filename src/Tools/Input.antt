-- ===== src/Tools/Input.antt =====
-- kiosk_agent/core/tools.py: the input models of the tools.
use local_voice_agent.Prelude.{
  ℕ, zero, suc, String, Bool, true, false, ◌&&◌, Option, none, some, List, [], ◌∷◌, leb,
  if◌then◌else◌, ◌==◌, nat_eq, string_eq, option_eq, contains, all, len, or_text,
}
use local_voice_agent.Value.{
  ℤ, pos, negsuc, Value, null, bool, int, str, Dict, as_dict, as_str, lookup, get,
}
use local_voice_agent.Ac.Protocol.{ac_state_fields, boolean_fields}
use local_voice_agent.Ac.Validate.{modes, fans}

-- What pydantic does for the fields: the trimming of a text, and what it takes for an integer or a
-- Boolean beside JSON's own
pub record Pydantic : Type 0 where
  pub parse_json : String → Option Value
  pub trim : String → String
  pub to_int : Value → Option ℤ
  pub to_bool : Value → Option Bool

-- The keys of `TOOL_MODELS`
pub data Tool : Type 0 where
  get_property_information request_property_staff get_emergency_contact : Tool
  list_remote_controls press_remote_button control_lg_tv set_air_conditioner : Tool

-- `TOOL_MODELS.get(name)`
unfoldable pub tool_of : String → Option Tool
tool_of name =
    if name == "get_property_information"
    then some Tool.get_property_information
    else if name == "request_property_staff"
    then some Tool.request_property_staff
    else if name == "get_emergency_contact"
    then some Tool.get_emergency_contact
    else if name == "list_remote_controls"
    then some Tool.list_remote_controls
    else if name == "press_remote_button"
    then some Tool.press_remote_button
    else if name == "control_lg_tv"
    then some Tool.control_lg_tv
    else if name == "set_air_conditioner"
    then some Tool.set_air_conditioner
    else none

-- The validated inputs, one constructor for each model. The state of an air conditioner has a value
-- for every field, null for one that is not to change.
pub data ToolInput : Type 0 where
  property_info : (topic : String) → ToolInput
  staff_request : (service details urgency : String) → ToolInput
  emergency_contact : (reason : String) → ToolInput
  list_remotes : ToolInput
  press_button : (button_id : ℕ) (confirmation_token : String) → ToolInput
  lg_tv : (device_id : ℕ) (command : String) → ToolInput
  air_conditioner : (device_id : ℕ) (state : Dict) → ToolInput

abbrev pub staff_services : List String
staff_services =
    "housekeeping" ∷ "maintenance" ∷ "concierge" ∷ "cafe" ∷ "food" ∷ "wifi" ∷ "grocery" ∷ "delivery"
    ∷ "supplies" ∷ "security" ∷ "lost_found" ∷ "extension" ∷ "other" ∷ []

abbrev pub urgencies : List String
urgencies = "normal" ∷ "high" ∷ []

abbrev pub tv_commands : List String
tv_commands =
    "POWER" ∷ "VOL_UP" ∷ "VOL_DOWN" ∷ "MUTE" ∷ "CH_UP" ∷ "CH_DOWN" ∷ "INPUT" ∷ "HOME" ∷ "SETTINGS"
    ∷ "UP" ∷ "DOWN" ∷ "LEFT" ∷ "RIGHT" ∷ "OK" ∷ "BACK" ∷ "EXIT" ∷ "0" ∷ "1" ∷ "2" ∷ "3" ∷ "4" ∷ "5"
    ∷ "6" ∷ "7" ∷ "8" ∷ "9" ∷ []

-- `extra="forbid"`
abbrev only_keys : List String → Dict → Bool
only_keys names d = all (λ (k, v). contains k names) d

-- `Literal[…]`
abbrev literal : List String → Value → Option String
literal names v = elim (as_str v) [
  | none ↦ none
  | some s ↦ if contains s names then some s else none
]

abbrev positive : ℤ → Option ℕ
positive (pos zero) = none
positive (pos (suc n)) = some (suc n)
positive (negsuc n) = none

abbrev ac_temperature : ℤ → Option Value
ac_temperature (pos n) = if leb 16 n && leb n 32 then some (int (pos n)) else none
ac_temperature (negsuc n) = none

abbrev is_null : Value → Bool
is_null null = true
is_null _ = false

-- Chains of fields: the first that fails ends the validation.
infixl 5 ◌>>=◌
abbrev ◌>>=◌ {ℓ κ} : {A : Type ℓ} {B : Type κ} → Option A → (A → Option B) → Option B
none >>= f = none
some a >>= f = f a

module _ (pydantic : Pydantic) where
  -- `str = Field(min_length=…, max_length=…)` with stripped blanks
  text_field : ℕ → ℕ → Value → Option String
  text_field low high v = do
    raw ← as_str v
    let s = pydantic.trim raw
    if leb low (len s) && leb (len s) high then some s else none

  -- `int = Field(gt=0)`
  id_field : Value → Option ℕ
  id_field v = do n ← pydantic.to_int v; positive n

  -- A field of `SetAirConditionerInput` that is not null
  ac_value : String → Value → Option Value
  ac_value f v =
      if contains f boolean_fields
      then (pydantic.to_bool v >>= λ b. some (bool b))
      else if f == "temperature"
      then (pydantic.to_int v >>= ac_temperature)
      else if f == "mode"
      then (literal modes v >>= λ s. some (str s))
      else literal fans v >>= λ s. some (str s)

  -- Every field is required, and may be null.
  ac_field : String → Dict → Option Value
  unfolding ac_value lookup
  ac_field f d = elim (lookup f d) [
    | none ↦ none
    | some v ↦ if is_null v then some null else ac_value f v
  ]

  ac_fields : List String → Dict → Option Dict
  unfolding ac_field
  ac_fields [] d = some []
  ac_fields (f ∷ fs) d =
      let rest = ac_fields fs d in ac_field f d >>= λ v. rest >>= λ vs. some ((f, v) ∷ vs)

  property_info_input : Dict → Option ToolInput
  unfolding text_field get
  property_info_input d = text_field 2 100 (get "topic" d) >>= λ topic. some (property_info topic)

  staff_request_input : Dict → Option ToolInput
  unfolding text_field get
  staff_request_input d = do
    service ← literal staff_services (get "service" d)
    details ← text_field 2 1000 (get "details" d)
    urgency ← literal urgencies (get "urgency" d)
    some (staff_request service details urgency)

  emergency_contact_input : Dict → Option ToolInput
  unfolding text_field get
  emergency_contact_input d =
      text_field 2 500 (get "reason" d) >>= λ reason. some (emergency_contact reason)

  press_button_input : Dict → Option ToolInput
  unfolding text_field id_field get
  press_button_input d = do
    button_id ← id_field (get "button_id" d)
    token ← text_field 0 1000 (get "confirmation_token" d)
    some (press_button button_id token)

  lg_tv_input : Dict → Option ToolInput
  unfolding id_field get
  lg_tv_input d = do
    device_id ← id_field (get "device_id" d)
    command ← literal tv_commands (get "command" d)
    some (lg_tv device_id command)

  -- `require_a_change` is the last check.
  air_conditioner_input : Dict → Option ToolInput
  unfolding id_field ac_fields get
  air_conditioner_input d = do
    device_id ← id_field (get "device_id" d)
    state ← ac_fields ac_state_fields d
    if all (λ (f, v). is_null v) state then none else some (air_conditioner device_id state)

  -- `model.model_validate` of an object
  unfoldable pub validate_input : Tool → Dict → Option ToolInput
  unfolding property_info_input staff_request_input emergency_contact_input press_button_input
      lg_tv_input air_conditioner_input
  validate_input Tool.get_property_information d =
      if only_keys ("topic" ∷ []) d then property_info_input d else none
  validate_input Tool.request_property_staff d =
      if only_keys ("service" ∷ "details" ∷ "urgency" ∷ []) d then staff_request_input d else none
  validate_input Tool.get_emergency_contact d =
      if only_keys ("reason" ∷ []) d then emergency_contact_input d else none
  validate_input Tool.list_remote_controls d = if only_keys [] d then some list_remotes else none
  validate_input Tool.press_remote_button d =
      if only_keys ("button_id" ∷ "confirmation_token" ∷ []) d then press_button_input d else none
  validate_input Tool.control_lg_tv d =
      if only_keys ("device_id" ∷ "command" ∷ []) d then lg_tv_input d else none
  validate_input Tool.set_air_conditioner d =
      if only_keys ("device_id" ∷ ac_state_fields) d then air_conditioner_input d else none

  -- `model_validate_json(raw_arguments or "{}")`
  unfoldable pub validate_json : Tool → String → Option ToolInput
  unfolding validate_input
  validate_json tool raw_arguments = do
    v ← pydantic.parse_json (or_text raw_arguments "{}")
    d ← as_dict v
    validate_input tool d
