-- ===== src/Chat/Enqueue.antt =====
-- kiosk_agent/services.py: `enqueue_message`.
pub mod Admission
use local_voice_agent.Prelude.{
  ℕ, ◌+◌, String, Bool, Option, none, some, List, [], ◌∷◌, map, ◌==◌, nat_eq, option_eq, ◌&&◌, any,
  update, select, contains, ltb, if◌then◌else◌,
}
use local_voice_agent.Value.{str}
use local_voice_agent.Models.{
  Time, Uuid, Db, KioskMessage, KioskAuditLog, Event, Role, Status, is_assistant, is_complete,
  is_agent_completed,
}
use local_voice_agent.Chat.Store.{is_pending, create_message, audit}

-- A `run_concierge_task` that waits in the queue of the worker
pub record ConciergeTask : Type 0 where
  pub stay_id : Uuid
  pub request_id : Uuid

pub data Enqueued : Type 0 where
  busy : Enqueued
  integrity_error : Enqueued
  accepted : ConciergeTask → Enqueued

-- `completed_request_ids`
unfoldable pub completed_request_ids : Uuid → List KioskMessage → List Uuid
completed_request_ids stay messages =
    map (λ m. m.request_id)
      (select (λ m. m.stay_id == stay && is_assistant m.role && is_complete m.status) messages)

-- `completed_audit_ids`
unfoldable pub completed_audit_ids : Uuid → List KioskAuditLog → List (Option Uuid)
completed_audit_ids stay audits =
    map (λ a. a.request_id) (select (λ a. a.stay_id == stay && is_agent_completed a.event) audits)

abbrev pub is_answered : Uuid → Db → KioskMessage → Bool
is_answered stay db m = contains m.request_id (completed_request_ids stay db.messages)

abbrev pub is_audited : Uuid → Db → KioskMessage → Bool
is_audited stay db m = contains (some m.request_id) (completed_audit_ids stay db.audits)

abbrev pub set_complete : KioskMessage → KioskMessage
set_complete m = record m { status = Status.complete }

-- `created_at__lt=stale_before`, with `stale_before = now - stale_seconds`
abbrev pub is_stale : Time → ℕ → KioskMessage → Bool
is_stale now stale_seconds m = ltb (m.created_at + stale_seconds) now

abbrev pub set_stale : KioskMessage → KioskMessage
set_stale m = record m {
  status = Status.failed;
  metadata = ("failure", str "stale_request_recovered") ∷ [];
}

-- The three updates before the test for an active request. Each query set is read anew.
unfoldable pub recover : Time → ℕ → Db → List KioskMessage
recover now stale_seconds db =
    let stay = db.config.current_stay_id in
    let answered =
      update (λ m. is_pending stay m && is_answered stay db m) set_complete db.messages in
    let audited = update (λ m. is_pending stay m && is_audited stay db m) set_complete answered in
    update (λ m. is_pending stay m && is_stale now stale_seconds m) set_stale audited

unfoldable pub queued_message : Uuid → Uuid → String → KioskMessage
queued_message stay request content = record {
  pk = 0;
  stay_id = stay;
  request_id = request;
  role = Role.user;
  content = content;
  status = Status.queued;
  tool_name = "";
  tool_call_id = "";
  event_id = none;
  sequence = none;
  metadata = [];
  created_at = 0;
}

-- `enqueue_message`, with `fresh` the request id that `uuid4` draws. The error is raised inside
-- the transaction, which takes the updates back.
unfoldable pub enqueue_message : Time → ℕ → Uuid → String → Db → Db × Enqueued
unfolding recover create_message queued_message
enqueue_message now stale_seconds fresh content db =
    let stay = db.config.current_stay_id in
    let recovered : Db = record db { messages = recover now stale_seconds db } in
    if any (is_pending stay) recovered.messages
    then (db, busy)
    else elim (create_message now (queued_message stay fresh content) recovered) [
      | none ↦ (db, integrity_error)
      | some (message, created) ↦ (
        audit stay (some fresh) Event.chat_queued [] created,
        accepted (record { stay_id = stay; request_id = fresh }),
      )
    ]
