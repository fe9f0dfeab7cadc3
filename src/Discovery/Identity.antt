-- ===== src/Discovery/Identity.antt =====
-- kiosk_agent/device_discovery.py: `_probe_identity`, from the answer of a host.
use local_voice_agent.Prelude.{
  ℕ, String, Bool, false, not, Option, none, some, List, [], ◌∷◌, ltb, if◌then◌else◌, ◌==◌, nat_eq,
  string_eq, option_eq, prefix, is_text, strip,
}
use local_voice_agent.Value.{
  Value, list, Dict, elements, as_dict, as_str, truthy, get, Runtime, to_str_or_empty,
}

-- What a host answers: `failed` is any of the exceptions that the probe catches, but that of the JSON.
-- The body has its length, and its JSON, `none` if it has none.
pub record IdentityAnswer : Type 0 where
  pub status : ℕ
  pub size : ℕ
  pub json : Option Value

pub data Probe : Type 0 where
  answered : IdentityAnswer → Probe
  failed : Probe

-- An address is its number.
pub record Identity : Type 0 where
  pub name : String
  pub device_type : String
  pub ip : ℕ
  pub device_id : String
  pub hostname : String
  pub firmware_version : String
  pub capabilities : List String

-- `a or b`
abbrev pub or_value : (String → Bool) → Value → Value → Value
or_value real_is_zero a b = if truthy real_is_zero a then a else b

-- `v.strip()` of a text that is not blank
unfoldable pub stripped : Value → Option String
unfolding strip
stripped v = elim (as_str v) [
  | none ↦ none
  | some s ↦ if is_text (strip s) then some (strip s) else none
]

unfoldable pub stripped_all : List Value → List String
unfolding stripped
stripped_all [] = []
stripped_all (v ∷ vs) =
    let rest = stripped_all vs in elim (stripped v) [ none ↦ rest | some s ↦ s ∷ rest ]

abbrev capabilities_of : Value → List String
capabilities_of (list vs) = stripped_all (elements vs)
capabilities_of _ = []

-- `IDENTITY_PROTOCOL`
abbrev pub identity_protocol : String
identity_protocol = "wazen-device-identity/1"

abbrev pub speaks_protocol : Dict → Bool
speaks_protocol payload = elim (as_str (get "protocol" payload)) [
  | none ↦ false
  | some s ↦ s == identity_protocol
]

-- `device_name or name`, and `device_type or type`
abbrev pub named_by : Runtime → String → String → Dict → Option String
named_by runtime key other payload =
    stripped (or_value runtime.real_is_zero (get key payload) (get other payload))

abbrev pub identity_with : Runtime → ℕ → Dict → String → String → Identity
identity_with runtime ip payload name device_type = record {
  name = name;
  device_type = device_type;
  ip = ip;
  device_id = prefix 120 (to_str_or_empty runtime (get "device_id" payload));
  hostname = prefix 253 (to_str_or_empty runtime (get "hostname" payload));
  firmware_version = prefix 40 (to_str_or_empty runtime (get "firmware_version" payload));
  capabilities = capabilities_of (get "capabilities" payload);
}

module _ (runtime : Runtime) where
  unfoldable pub identity_of : ℕ → Dict → Option Identity
  identity_of ip payload = elim (named_by runtime "device_name" "name" payload) [
    | none ↦ none
    | some name ↦ elim (named_by runtime "device_type" "type" payload) [
      | none ↦ none
      | some device_type ↦ some (identity_with runtime ip payload name device_type)
    ]
  ]

  abbrev pub payload_identity : ℕ → Value → Option Identity
  payload_identity ip v = elim (as_dict v) [
    | none ↦ none
    | some payload ↦ if speaks_protocol payload then identity_of ip payload else none
  ]

  -- `_probe_identity`
  unfoldable pub probe_identity : ℕ → Probe → Option Identity
  probe_identity ip failed = none
  probe_identity ip (answered a) =
      if not (a.status == 200)
      then none
      else if ltb 16384 a.size
      then none
      else elim a.json [ none ↦ none | some v ↦ payload_identity ip v ]
