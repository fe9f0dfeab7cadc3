-- ===== src/Ac/Protocol/Laws.antt =====
-- What the normalisation of a protocol's model does.
use local_voice_agent.Prelude.{
  String, ◌≡◌, refl, ◌↔◌, ◌⊎◌, inl, inr, Bool, true, some, List, [], ◌∷◌, arith, Bool-cases,
  Option-cases, ◌==◌, nat_eq, string_eq, option_eq, contains, all,
}
use local_voice_agent.Ac.Protocol.{
  ProtocolConfig, ac_protocol_config, find_config, protocol_config, protocol_defaults,
  protocol_models, is_default_model, normalize_protocol_model, is_protocol_model_supported,
}

-- A default that is one of the models of its entry
abbrev has_default : String × ProtocolConfig → Bool
has_default (name, config) = contains config.model config.models

find_config-default :
    (protocol : String) (configs : List (String × ProtocolConfig)) (config : ProtocolConfig)
    → all has_default configs ≡ true
    → find_config protocol configs ≡ some config
    → contains config.model config.models ≡ true
unfolding find_config
find_config-default protocol [] config a h = absurd (ground arith)
find_config-default protocol ((name, c) ∷ configs) config a h =
    elim (Bool-cases (name == protocol)) [
      | inl e ↦ let same : some c ≡ some config = ground arith in ground arith
      | inr e ↦ find_config-default protocol configs config (ground arith) (ground arith)
    ]

-- The default model of a known protocol is one of its models.
protocol_defaults-supported :
    (protocol : String) (config : ProtocolConfig)
    → protocol_config protocol ≡ some config
    → contains (protocol_defaults protocol).1 (protocol_models protocol) ≡ true
unfolding protocol_config protocol_defaults protocol_models
protocol_defaults-supported protocol config h =
    let d = find_config-default protocol ac_protocol_config config refl h in
    rw (h, protocol_defaults, protocol_models) d

-- Normalising a model twice is normalising it once.
pub normalize_protocol_model_idempotent :
    (protocol model : String)
    → normalize_protocol_model protocol (normalize_protocol_model protocol model)
      ≡ normalize_protocol_model protocol model
unfolding normalize_protocol_model
normalize_protocol_model_idempotent protocol model =
    elim (Option-cases (protocol_config protocol)) [
      | inl e ↦ unfold protocol_models protocol_defaults in ground arith
      | inr (config, e) ↦ ground (arith, protocol_defaults-supported protocol config e)
    ]

-- A model is supported exactly if it is one of the models of the protocol, or the protocol is known
-- and the model is left blank or "default".
pub is_protocol_model_supported_iff :
    (protocol model : String)
    → (is_protocol_model_supported protocol model ≡ true) ↔ (
        (contains model (protocol_models protocol) ≡ true)
        ⊎ ((config : ProtocolConfig) × (protocol_config protocol ≡ some config)
            × (is_default_model model ≡ true)))
unfolding is_protocol_model_supported normalize_protocol_model
is_protocol_model_supported_iff protocol model = elim (Option-cases (protocol_config protocol)) [
  | inl e ↦ unfold protocol_models protocol_defaults in ground arith
  | inr (config, e) ↦ ground (arith, protocol_defaults-supported protocol config e)
]
