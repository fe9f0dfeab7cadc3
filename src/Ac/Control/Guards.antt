-- ===== src/Ac/Control/Guards.antt =====
-- What `set_ac_state` sends, and when.
use local_voice_agent.Prelude.{◌≡◌, true, some, nat_eq, string_eq, option_eq, contains, is_text}
use local_voice_agent.Value.{Runtime}
use local_voice_agent.Models.{DeviceType, RemoteControl}
use local_voice_agent.Ac.Protocol.{ProtocolConfig, protocol_config, normalize_protocol_model}
use local_voice_agent.Ac.Http.{Controller}

module _ (runtime : Runtime) (controller : Controller) where
  -- The device is an air conditioner with a name, a brand, and a model of a protocol that is known.
  abbrev pub IsConfigured : RemoteControl → Type 0
  IsConfigured device =
      (device.device_type ≡ DeviceType.ac)
      × (is_text device.device_name ≡ true)
      × (is_text device.brand ≡ true)
      × (is_text device.protocol ≡ true)
      × (is_text device.protocol_model ≡ true)
      × (config : ProtocolConfig) × (protocol_config device.protocol ≡ some config)
      × (contains (normalize_protocol_model device.protocol device.protocol_model) config.models
          ≡ true)
