-- ===== src/Chat/Store.antt =====
-- Rows of `KioskMessage` and `KioskAuditLog`: the query sets that the handlers share, and the
-- creation of a row under the unique constraints of the model.
use local_voice_agent.Prelude.{
  ◌+◌, Bool, false, Option, none, some, [], ◌∷◌, ◌++◌, ◌==◌, nat_eq, string_eq, option_eq, ◌&&◌,
  ◌||◌, any, is_text, if◌then◌else◌,
}
use local_voice_agent.Value.{Dict}
use local_voice_agent.Models.{Time, Uuid, Db, KioskMessage, Event, is_user, is_open}

-- The rows of `active_messages`: what the guest asked for in this stay and is not answered yet.
abbrev pub is_pending : Uuid → KioskMessage → Bool
is_pending stay m = m.stay_id == stay && is_user m.role && is_open m.status

-- `unique_stay_realtime_event`
abbrev pub same_event : KioskMessage → KioskMessage → Bool
same_event m n = elim m.event_id [
  | none ↦ false
  | some e ↦ m.stay_id == n.stay_id && n.event_id == some e
]

-- `unique_stay_tool_call`
abbrev pub same_tool_call : KioskMessage → KioskMessage → Bool
same_tool_call m n =
    is_text m.tool_call_id && m.stay_id == n.stay_id && n.tool_call_id == m.tool_call_id

abbrev pub clashes : KioskMessage → KioskMessage → Bool
clashes m n = same_event m n || same_tool_call m n

-- `KioskMessage.objects.create`: `none` is an `IntegrityError`. `pk` and `created_at` of the
-- argument are replaced.
unfoldable pub create_message : Time → KioskMessage → Db → Option (KioskMessage × Db)
create_message now m db =
    let row : KioskMessage = record m { pk = db.next_message; created_at = now } in
    if any (clashes m) db.messages
    then none
    else some
        (row, record db { messages = db.messages ++ row ∷ []; next_message = db.next_message + 1 })

-- `KioskAuditLog.objects.create`
abbrev pub audit : Uuid → Option Uuid → Event → Dict → Db → Db
audit stay request event details db = record db {
  audits =
      db.audits
      ++ record { stay_id = stay; request_id = request; event = event; details = details } ∷ [];
}
