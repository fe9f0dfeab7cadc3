-- ===== src/Realtime/Tool.antt =====
-- `RealtimeToolView.post`: one call of a tool, run at most once for each call id.
mod Admit
pub mod Once
pub mod Kept
pub mod Limit
pub mod Sound
use local_voice_agent.Prelude.{
  ℕ, String, Bool, false, not, ◌&&◌, Option, none, some, leb, if◌then◌else◌, ◌==◌, nat_eq,
  string_eq, option_eq, contains, first, count, update,
}
use local_voice_agent.Value.{Dict}
use local_voice_agent.Models.{Time, Uuid, Role, is_tool, Status, KioskMessage, RealtimeSession, Db}
use local_voice_agent.Chat.Store.{create_message}
use local_voice_agent.Tools.Runner.{ToolReply, tool_names, ToolRunner}
use local_voice_agent.Realtime.Session.{
  Validated, valid, invalid, SessionError, validated_realtime_session,
}

-- The validated body of the request, with the arguments as the JSON text that is handed on
pub record ToolCall : Type 0 where
  pub stay_id : Uuid
  pub session_id : Uuid
  pub request_id : Uuid
  pub call_id : String
  pub name : String
  pub arguments : String

-- `answered` is the 200 with the stored JSON text.
pub data ToolResponse : Type 0 where
  unknown_tool : ToolResponse
  refused : SessionError → ToolResponse
  iteration_limit : ToolResponse
  answered : String → ToolResponse
  server_error : ToolResponse

-- The rows of `existing`
abbrev pub is_tool_row : Uuid → Uuid → KioskMessage → Bool
is_tool_row stay request m = m.stay_id == stay && m.request_id == request && is_tool m.role

abbrev pub has_call_id : String → KioskMessage → Bool
has_call_id call m = m.tool_call_id == call

abbrev pub tool_limit : ℕ
tool_limit = 5

abbrev pub in_progress : String
in_progress = "{\"ok\": false, \"error\": \"tool_in_progress\"}"

abbrev pub reservation : (Uuid → Dict) → ToolCall → RealtimeSession → KioskMessage
reservation metadata call session = record {
  pk = 0;
  stay_id = call.stay_id;
  request_id = call.request_id;
  role = Role.tool;
  content = in_progress;
  status = Status.streaming;
  tool_name = call.name;
  tool_call_id = call.call_id;
  event_id = none;
  sequence = none;
  metadata = metadata session.id;
  created_at = 0;
}

-- The reply to a call whose row already stands in the stay
pub stored_reply : Option KioskMessage → ToolResponse
stored_reply none = server_error
stored_reply (some m) = answered m.content

abbrev pub finish_row : String → KioskMessage → KioskMessage
finish_row content m = record m { content = content; status = Status.complete }

abbrev pub finish : ℕ → String → Db → Db
finish pk content db = record db {
  messages = update (λ m. m.pk == pk) (finish_row content) db.messages;
}

module _ (tools : ToolRunner) where
  -- The end of a call: the text is stored in its row. An exception leaves the row as it is reserved.
  pub store_reply : KioskMessage → Option ToolReply × Db → Db × ToolResponse
  store_reply row (none, db) = (db, server_error)
  store_reply row (some reply, db) = (finish row.pk reply.content db, answered reply.content)

  pub run_reserved : ToolCall → KioskMessage → Db → Db × ToolResponse
  unfolding store_reply
  run_reserved call row db =
      store_reply row (tools.execute call.name call.arguments call.stay_id call.request_id db)

  reserve : Time → (Uuid → Dict) → ToolCall → RealtimeSession → Db → Db × ToolResponse
  unfolding create_message run_reserved stored_reply
  reserve now metadata call session db =
      elim (create_message now (reservation metadata call session) db) [
        | none ↦ (
          db,
          stored_reply
              (first (λ m. m.stay_id == call.stay_id && has_call_id call.call_id m) db.messages),
        )
        | some (row, reserved) ↦ run_reserved call row reserved
      ]

  pub admit : Time → (Uuid → Dict) → ToolCall → RealtimeSession → Db → Db × ToolResponse
  unfolding reserve
  admit now metadata call session db =
      elim (first (λ m. is_tool_row call.stay_id call.request_id m && has_call_id call.call_id m)
        db.messages) [
          | some duplicate ↦ (db, answered duplicate.content)
          | none ↦
              if leb tool_limit (count (is_tool_row call.stay_id call.request_id) db.messages)
              then (db, iteration_limit)
              else reserve now metadata call session db
        ]

  after_check : Time → (Uuid → Dict) → ToolCall → Db × Validated → Db × ToolResponse
  unfolding admit
  after_check now metadata call (checked, invalid error) = (checked, refused error)
  after_check now metadata call (checked, valid session) = admit now metadata call session checked

  unfoldable pub realtime_tool : Time → ℕ → (Uuid → Dict) → ToolCall → Db → Db × ToolResponse
  unfolding after_check
  realtime_tool now ttl metadata call db =
      if not (contains call.name tool_names)
      then (db, unknown_tool)
      else after_check now metadata call
          (validated_realtime_session now ttl call.session_id call.stay_id db)
