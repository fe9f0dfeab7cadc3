-- ===== src/Ac/Protocol.antt =====
-- The supported protocols, their models and their capabilities.
pub mod Laws
use local_voice_agent.Prelude.{
  ℕ, String, Bool, true, ◌||◌, Option, none, some, List, [], ◌∷◌, if◌then◌else◌, ◌==◌, nat_eq,
  string_eq, option_eq, contains,
}
use local_voice_agent.Value.{pos, bool, int, Dict}

abbrev pub ac_state_fields : List String
ac_state_fields =
    "power" ∷ "mode" ∷ "temperature" ∷ "fan" ∷ "swing_vertical" ∷ "swing_horizontal" ∷ "turbo"
    ∷ "sleep" ∷ "eco" ∷ "quiet" ∷ "light" ∷ "x_fan" ∷ []

abbrev pub boolean_fields : List String
boolean_fields =
    "power" ∷ "swing_vertical" ∷ "swing_horizontal" ∷ "turbo" ∷ "sleep" ∷ "eco" ∷ "quiet" ∷ "light"
    ∷ "x_fan" ∷ []

pub record ProtocolConfig : Type 0 where
  pub brand : String
  pub model : String
  pub models : List String
  pub features : List String
  pub temperature_min : ℕ
  pub temperature_max : ℕ

abbrev gree : ProtocolConfig
gree = record {
  brand = "gree";
  model = "yaw1f";
  models = "yaw1f" ∷ "ybofb" ∷ "yx1fsf" ∷ [];
  features =
      "swing_vertical" ∷ "swing_horizontal" ∷ "turbo" ∷ "sleep" ∷ "eco" ∷ "light" ∷ "x_fan" ∷ [];
  temperature_min = 16;
  temperature_max = 30;
}

abbrev haier_ac : ProtocolConfig
haier_ac = record {
  brand = "haier";
  model = "default";
  models = "default" ∷ [];
  features = "swing_vertical" ∷ "sleep" ∷ [];
  temperature_min = 16;
  temperature_max = 30;
}

abbrev haier_ac_yrw02 : ProtocolConfig
haier_ac_yrw02 = record {
  brand = "haier";
  model = "v9014557_a";
  models = "v9014557_a" ∷ "v9014557_b" ∷ [];
  features = "swing_vertical" ∷ "swing_horizontal" ∷ "turbo" ∷ "sleep" ∷ "quiet" ∷ [];
  temperature_min = 16;
  temperature_max = 30;
}

abbrev haier_ac160 : ProtocolConfig
haier_ac160 = record {
  brand = "haier";
  model = "default";
  models = "default" ∷ [];
  features = "swing_vertical" ∷ "turbo" ∷ "sleep" ∷ "quiet" ∷ "light" ∷ "x_fan" ∷ [];
  temperature_min = 16;
  temperature_max = 30;
}

abbrev midea : ProtocolConfig
midea = record {
  brand = "midea";
  model = "default";
  models = "default" ∷ [];
  features = "swing_vertical" ∷ "turbo" ∷ "sleep" ∷ "eco" ∷ "quiet" ∷ "light" ∷ "x_fan" ∷ [];
  temperature_min = 16;
  temperature_max = 30;
}

abbrev kelon168 : ProtocolConfig
kelon168 = record {
  brand = "hisense";
  model = "dg11r2-01";
  models = "dg11r2-01" ∷ [];
  features = "swing_vertical" ∷ "turbo" ∷ "sleep" ∷ "light" ∷ [];
  temperature_min = 16;
  temperature_max = 32;
}

-- `AC_PROTOCOL_CONFIG`. HAIER_AC176 has the entry of HAIER_AC_YRW02.
abbrev pub ac_protocol_config : List (String × ProtocolConfig)
ac_protocol_config =
    ("gree", gree)
    ∷ ("haier_ac", haier_ac)
    ∷ ("haier_ac_yrw02", haier_ac_yrw02)
    ∷ ("haier_ac160", haier_ac160)
    ∷ ("haier_ac176", haier_ac_yrw02)
    ∷ ("midea", midea)
    ∷ ("kelon168", kelon168)
    ∷ []

unfoldable pub find_config : String → List (String × ProtocolConfig) → Option ProtocolConfig
find_config protocol [] = none
find_config protocol ((name, config) ∷ rest) =
    if name == protocol then some config else find_config protocol rest

-- `AC_PROTOCOL_CONFIG.get(protocol)`
unfoldable pub protocol_config : String → Option ProtocolConfig
unfolding find_config
protocol_config protocol = find_config protocol ac_protocol_config

unfoldable pub protocol_defaults : String → String × String
protocol_defaults protocol = elim (protocol_config protocol) [
  | none ↦ ("", "")
  | some config ↦ (config.brand, config.model)
]

unfoldable pub protocol_models : String → List String
protocol_models protocol = elim (protocol_config protocol) [
  | none ↦ []
  | some config ↦ config.models
]

-- `model in ("", "default")`
abbrev pub is_default_model : String → Bool
is_default_model model = model == "" || model == "default"

unfoldable pub normalize_protocol_model : String → String → String
normalize_protocol_model protocol model =
    if contains model (protocol_models protocol)
    then model
    else if is_default_model model
    then (protocol_defaults protocol).1
    else model

unfoldable pub is_protocol_model_supported : String → String → Bool
is_protocol_model_supported protocol model =
    contains (normalize_protocol_model protocol model) (protocol_models protocol)

-- The capabilities of the boolean fields but `power`
abbrev feature_flags : List String → List String → Dict
feature_flags features [] = []
feature_flags features (f ∷ fs) =
    if f == "power"
    then feature_flags features fs
    else (f, bool (contains f features)) ∷ feature_flags features fs

unfoldable pub protocol_capabilities : String → Dict
protocol_capabilities protocol = elim (protocol_config protocol) [
  | none ↦ []
  | some config ↦
      ("power", bool true)
      ∷ ("temperature", bool true)
      ∷ ("temperature_min", int (pos config.temperature_min))
      ∷ ("temperature_max", int (pos config.temperature_max))
      ∷ ("mode", bool true)
      ∷ ("fan", bool true)
      ∷ feature_flags config.features boolean_fields
]
