-- ===== src/Channel.antt =====
-- What the server publishes to the group of a stay over the channel layer.
use local_voice_agent.Prelude.{ℕ, String, Option, nat_eq, string_eq, option_eq}
use local_voice_agent.Models.{Uuid, Role}

pub data ToolStatus : Type 0 where
  running complete failed : ToolStatus

-- The payloads of `agent.event`. The group is `stay_group` of the stay.
pub data Payload : Type 0 where
  thinking : Payload
  token : String → Payload
  tool_status : String → ToolStatus → Payload
  completed : ℕ → String → Payload
  cancelled : Payload
  failure : Payload
  reset : Uuid → Payload
  message_persisted : ℕ → Role → String → Payload

pub record Published : Type 0 where
  pub stay_id : Uuid
  pub request_id : Option Uuid
  pub payload : Payload
