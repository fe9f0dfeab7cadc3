-- ===== src/Realtime/Message.antt =====
-- `RealtimeMessageView.post`: one completed transcript item.
pub mod Once
pub mod Kept
pub mod Sound
use local_voice_agent.Prelude.{
  ℕ, String, Option, none, some, if◌then◌else◌, ◌==◌, nat_eq, string_eq, option_eq, update, is_text,
}
use local_voice_agent.Value.{Dict}
use local_voice_agent.Models.{Time, Uuid, Role, Status, KioskMessage, RealtimeSession, Db}
use local_voice_agent.Channel.{Published, Payload}
use local_voice_agent.Chat.Store.{create_message}
use local_voice_agent.Realtime.Session.{
  Validated, valid, invalid, SessionError, validated_realtime_session,
}

-- The validated body of the request. `role` is `user` or `assistant`.
pub record TranscriptItem : Type 0 where
  pub stay_id : Uuid
  pub session_id : Uuid
  pub request_id : Uuid
  pub role : Role
  pub content : String
  pub event_id : String

pub data MessageReply : Type 0 where
  refused : SessionError → MessageReply
  duplicate : MessageReply
  saved : ℕ → Published → MessageReply

-- `data.get("event_id") or None`
abbrev pub event_key : String → Option String
event_key event = if is_text event then some event else none

abbrev pub transcript_row : (Uuid → Dict) → TranscriptItem → RealtimeSession → KioskMessage
transcript_row metadata item session = record {
  pk = 0;
  stay_id = item.stay_id;
  request_id = item.request_id;
  role = item.role;
  content = item.content;
  status = Status.complete;
  tool_name = "";
  tool_call_id = "";
  event_id = event_key item.event_id;
  sequence = none;
  metadata = metadata session.id;
  created_at = 0;
}

abbrev set_sequence : ℕ → Db → Db
set_sequence pk db = record db {
  messages = update (λ m. m.pk == pk) (λ m. record m { sequence = some pk }) db.messages;
}

save_item : Time → KioskMessage → Db → Db × MessageReply
unfolding create_message
save_item now row db = elim (create_message now row db) [
  | none ↦ (db, duplicate)
  | some (message, created) ↦ (
    set_sequence message.pk created,
    saved message.pk (record {
      stay_id = message.stay_id;
      request_id = some message.request_id;
      payload = Payload.message_persisted message.pk message.role message.content;
    }),
  )
]

after_check : Time → (Uuid → Dict) → TranscriptItem → Db × Validated → Db × MessageReply
unfolding save_item
after_check now metadata item (checked, invalid error) = (checked, refused error)
after_check now metadata item (checked, valid session) =
    save_item now (transcript_row metadata item session) checked

-- `metadata` builds the stored metadata from the id of the session.
unfoldable pub realtime_message : Time → ℕ → (Uuid → Dict) → TranscriptItem → Db → Db × MessageReply
unfolding after_check
realtime_message now ttl metadata item db =
    after_check now metadata item
      (validated_realtime_session now ttl item.session_id item.stay_id db)
