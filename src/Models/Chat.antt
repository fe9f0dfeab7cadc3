-- ===== src/Models/Chat.antt =====
-- kiosk_agent/models.py: the chalet, the stay's messages, the audit log and the Realtime sessions.
use local_voice_agent.Prelude.{ℕ, String, Bool, true, false, Option, List}
use local_voice_agent.Value.{Dict}

-- A time is a number of seconds and a uuid is a number.
abbrev pub Time : Type 0
Time = ℕ

abbrev pub Uuid : Type 0
Uuid = ℕ

pub record ChaletConfig : Type 0 where
  pub chalet_name : String
  pub chalet_number : String
  pub persona_name : String
  pub welcome_message : String
  pub property_facts : Dict
  pub enabled_services : List String
  pub emergency_contact : String
  pub llm_model : String
  pub saas_integration_url : String
  pub saas_integration_token : String
  pub saas_tenant_subdomain : String
  pub saas_enabled : Bool
  pub current_stay_id : Uuid
  pub is_active : Bool

pub data Role : Type 0 where
  system user assistant tool : Role

abbrev pub is_user : Role → Bool
is_user Role.user = true
is_user _ = false

abbrev pub is_assistant : Role → Bool
is_assistant Role.assistant = true
is_assistant _ = false

abbrev pub is_tool : Role → Bool
is_tool Role.tool = true
is_tool _ = false

pub data Status : Type 0 where
  queued streaming complete failed : Status

abbrev pub is_queued : Status → Bool
is_queued Status.queued = true
is_queued _ = false

-- `status__in=(QUEUED, STREAMING)`
abbrev pub is_open : Status → Bool
is_open Status.queued = true
is_open Status.streaming = true
is_open _ = false

abbrev pub is_complete : Status → Bool
is_complete Status.complete = true
is_complete _ = false

abbrev pub is_failed : Status → Bool
is_failed Status.failed = true
is_failed _ = false

-- `event_id` is null unless a Realtime event carried one; a blank `tool_call_id` is no call.
pub record KioskMessage : Type 0 where
  pub pk : ℕ
  pub stay_id : Uuid
  pub request_id : Uuid
  pub role : Role
  pub content : String
  pub status : Status
  pub tool_name : String
  pub tool_call_id : String
  pub event_id : Option String
  pub sequence : Option ℕ
  pub metadata : Dict
  pub created_at : Time

pub data Event : Type 0 where
  chat_queued agent_started tool_called agent_completed agent_failed stay_reset : Event
  remote_pressed remote_failed : Event

abbrev pub is_agent_completed : Event → Bool
is_agent_completed Event.agent_completed = true
is_agent_completed _ = false

pub record KioskAuditLog : Type 0 where
  pub stay_id : Uuid
  pub request_id : Option Uuid
  pub event : Event
  pub details : Dict

pub data SessionState : Type 0 where
  active closed reset expired : SessionState

abbrev pub is_active_state : SessionState → Bool
is_active_state SessionState.active = true
is_active_state _ = false

pub record RealtimeSession : Type 0 where
  pub id : Uuid
  pub stay_id : Uuid
  pub state : SessionState
  pub expires_at : Time
  pub last_activity_at : Time
  pub created_at : Time
