-- ===== src/Models/Tables.antt =====
-- The tables. `config` is the row of `ChaletConfig` that `load` finds or creates.
use local_voice_agent.Prelude.{ℕ, List}
use local_voice_agent.Models.Chat.{ChaletConfig, KioskMessage, KioskAuditLog, RealtimeSession}
use local_voice_agent.Models.Device.{StaffRequest, RemoteControl, RemoteButton, AcState}

pub record Db : Type 0 where
  pub config : ChaletConfig
  pub messages : List KioskMessage
  pub next_message : ℕ
  pub audits : List KioskAuditLog
  pub sessions : List RealtimeSession
  pub staff_requests : List StaffRequest
  pub next_staff_request : ℕ
  pub remotes : List RemoteControl
  pub buttons : List RemoteButton
  pub ac_states : List AcState
