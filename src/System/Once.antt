-- ===== src/System/Once.antt =====
-- A tool call is run once, and a transcript event stored once, until a reset.
use local_voice_agent.Prelude.{
  ℕ, String, ◌≡◌, ◌⊎◌, true, ◌&&◌, ◌||◌, some, ◌==◌, nat_eq, string_eq, option_eq, is_text,
}
use local_voice_agent.Models.{Time, Uuid, is_tool, Db}
use local_voice_agent.Value.{Dict}
use local_voice_agent.Channel.{Published}
use local_voice_agent.Tools.Runner.{ToolRunner}
use local_voice_agent.Chat.Kept.{Keys}
use local_voice_agent.Realtime.Session.{SessionError, validated_realtime_session}
use local_voice_agent.Realtime.Message.{TranscriptItem, refused, duplicate, saved, realtime_message}
use local_voice_agent.Realtime.Message.Once.{
  IsKnown, realtime_message-IsKnown, IsKnown-realtime_message,
}
use local_voice_agent.Realtime.Tool.{ToolCall, answered, realtime_tool}
use local_voice_agent.Realtime.Tool.Once.{
  IsRepeated, known-realtime_tool, realtime_tool-IsReserved, IsReserved-realtime_tool,
}
use local_voice_agent.System.{Reach}
use local_voice_agent.System.Kept.{resets, Reach-HasRow}

abbrev call_keys : ToolCall → Keys
call_keys call stay request role event call_id =
    (stay == call.stay_id && request == call.request_id && is_tool role && call_id == call.call_id)
    || (is_text call.call_id && call.stay_id == stay && call_id == call.call_id)

abbrev event_keys : Uuid → String → Keys
event_keys stay event s request role e call_id = stay == s && e == some event

-- A call of a tool that was answered is not run again until a reset: after any steps of the page, the
-- worker and the tools without a reset, whoever runs the tools, its repetition writes nothing beyond
-- the check of the session. It is answered with the text that a row of the stay with its call id then
-- holds, or it is over the limit of its request, or refused by the check of the session.
pub realtime_tool_once :
    (tools again : ToolRunner) (metadata : Uuid → Dict) (call : ToolCall) (now after : Time)
    (ttl : ℕ) (db later : Db) (content : String)
    → (realtime_tool tools now ttl metadata call db).1 ≡ answered content
    → (r : Reach (realtime_tool tools now ttl metadata call db).0 later) → resets r ≡ 0
    → ((realtime_tool again after ttl metadata call later).0
        ≡ (validated_realtime_session after ttl call.session_id call.stay_id later).0)
      × IsRepeated call later.messages (realtime_tool again after ttl metadata call later).1
realtime_tool_once tools again metadata call now after ttl db later content h r n =
    IsReserved-realtime_tool again metadata call after ttl later
      (known-realtime_tool tools metadata call now ttl db content h)
      (Reach-HasRow (call_keys call) r n
        (realtime_tool-IsReserved tools metadata call now ttl db content h))

-- A transcript event that was stored is not stored again until a reset: after any steps of the page,
-- the worker and the tools without a reset, an item with the same stay and event id, whatever its
-- text, role and request, is a duplicate or refused by the check of the session, and nothing is
-- written beyond that check.
pub realtime_message_once :
    (metadata : Uuid → Dict) (item other : TranscriptItem) (now after : Time) (ttl : ℕ)
    (db later : Db) (pk : ℕ) (p : Published)
    → is_text item.event_id ≡ true
    → other.stay_id ≡ item.stay_id
    → other.event_id ≡ item.event_id
    → (realtime_message now ttl metadata item db).1 ≡ saved pk p
    → (r : Reach (realtime_message now ttl metadata item db).0 later) → resets r ≡ 0
    → ((realtime_message after ttl metadata other later).0
        ≡ (validated_realtime_session after ttl other.session_id other.stay_id later).0)
      × (((realtime_message after ttl metadata other later).1 ≡ duplicate)
          ⊎ ((error : SessionError) × ((realtime_message after ttl metadata other later).1
                ≡ refused error)))
realtime_message_once metadata item other now after ttl db later pk p t s e h r n =
    let known : IsKnown item.stay_id item.event_id later.messages =
      Reach-HasRow (event_keys item.stay_id item.event_id) r n
        (realtime_message-IsKnown metadata item t now ttl db h) in
    IsKnown-realtime_message metadata other (rw e t) after ttl later (rw (s, e) known)
