-- ===== src/Chat/Enqueue/Admission.antt =====
-- When `enqueue_message` admits a request, and what it leaves behind.
use local_voice_agent.Prelude.{
  ℕ, ◌+◌, String, ◌≡◌, refl, Bool, true, false, not, ◌&&◌, ◌||◌, none, some, List, [], ◌∷◌, ◌++◌,
  arith, if◌then◌else◌, nat_eq, string_eq, option_eq, count, any, all, update, count-append,
  any-count,
}
use local_voice_agent.Models.{Time, Uuid, KioskMessage, Event, Db}
use local_voice_agent.Chat.Store.{is_pending, clashes, audit}
use local_voice_agent.Chat.Enqueue.{
  ConciergeTask, busy, accepted, is_answered, is_audited, set_complete, is_stale, set_stale,
  recover, queued_message, enqueue_message,
}

any-none :
    (m : KioskMessage) (rows : List KioskMessage)
    → m.event_id ≡ none
    → m.tool_call_id ≡ ""
    → any (clashes m) rows ≡ false
any-none m [] e c = refl
any-none m (x ∷ xs) e c = rw (any-none m xs e c) (rw (e, c))

-- The rows that keep the kiosk busy: pending, not answered, not audited as done and not stale.
abbrev pub is_blocking : Time → ℕ → Db → KioskMessage → Bool
is_blocking now stale_seconds db m =
    let stay = db.config.current_stay_id in
    is_pending stay m
    && not (is_answered stay db m)
    && not (is_audited stay db m)
    && not (is_stale now stale_seconds m)

abbrev recover_row : Time → ℕ → Db → KioskMessage → KioskMessage
recover_row now stale_seconds db m =
    let stay = db.config.current_stay_id in
    let a = if is_pending stay m && is_answered stay db m then set_complete m else m in
    let b = if is_pending stay a && is_audited stay db a then set_complete a else a in
    if is_pending stay b && is_stale now stale_seconds b then set_stale b else b

row-is_pending :
    (now : Time) (stale_seconds : ℕ) (db : Db) (m : KioskMessage)
    → is_pending db.config.current_stay_id (recover_row now stale_seconds db m)
      ≡ is_blocking now stale_seconds db m
row-is_pending now stale_seconds db m = ground arith

-- After the three updates a row is pending exactly if it was blocking.
pub any-recover :
    (now : Time) (stale_seconds : ℕ) (db : Db)
    → any (is_pending db.config.current_stay_id) (recover now stale_seconds db)
      ≡ any (is_blocking now stale_seconds db) db.messages
unfolding recover
any-recover now stale_seconds db = go db.messages
  where
    stay : Uuid
    stay = db.config.current_stay_id

    go :
        (rows : List KioskMessage)
        → any (is_pending stay) (
            update
              (λ m. is_pending stay m && is_stale now stale_seconds m)
              set_stale
              (update
                (λ m. is_pending stay m && is_audited stay db m)
                set_complete
                (update (λ m. is_pending stay m && is_answered stay db m) set_complete rows)))
          ≡ any (is_blocking now stale_seconds db) rows
    go [] = refl
    go (m ∷ rows) = rw (row-is_pending now stale_seconds db m, go rows)

abbrev pub admitted : Time → ℕ → Uuid → String → Db → Db
admitted now stale_seconds fresh content db =
    let stay = db.config.current_stay_id in
    audit stay (some fresh) Event.chat_queued [] (record db {
      messages =
          recover now stale_seconds db
          ++ record (queued_message stay fresh content) { pk = db.next_message; created_at = now }
            ∷ [];
      next_message = db.next_message + 1;
    })

-- The kiosk is busy exactly if some request of this stay is blocking, and then nothing changes.
-- Otherwise the request is accepted: the recovered rows stand with the new one behind them, and the
-- audit log has its entry.
pub enqueue_message_admission :
    (now : Time) (stale_seconds : ℕ) (fresh : Uuid) (content : String) (db : Db)
    → enqueue_message now stale_seconds fresh content db ≡ (
        if any (is_blocking now stale_seconds db) db.messages then (db, busy) else (
          admitted now stale_seconds fresh content db,
          accepted (record { stay_id = db.config.current_stay_id; request_id = fresh }),
        ))
unfolding enqueue_message
enqueue_message_admission now stale_seconds fresh content db = rw (
  any-recover now stale_seconds db,
  any-none (queued_message db.config.current_stay_id fresh content) (recover now stale_seconds db)
      refl refl,
)

enqueue-admitted :
    (now : Time) (stale_seconds : ℕ) (fresh : Uuid) (content : String) (db : Db)
    (task : ConciergeTask)
    → (enqueue_message now stale_seconds fresh content db).1 ≡ accepted task
    → (any (is_pending db.config.current_stay_id) (recover now stale_seconds db) ≡ false)
      × (task ≡ record { stay_id = db.config.current_stay_id; request_id = fresh })
      × ((enqueue_message now stale_seconds fresh content db).0
          ≡ admitted now stale_seconds fresh content db)
enqueue-admitted now stale_seconds fresh content db task h = ground (
  arith,
  enqueue_message_admission now stale_seconds fresh content db,
  any-recover now stale_seconds db,
)

pub count-admitted :
    (now : Time) (stale_seconds : ℕ) (fresh : Uuid) (content : String) (db : Db)
    → any (is_pending db.config.current_stay_id) (recover now stale_seconds db) ≡ false
    → count
        (is_pending db.config.current_stay_id)
        (admitted now stale_seconds fresh content db).messages
      ≡ 1
unfolding queued_message
count-admitted now stale_seconds fresh content db h = ground (
  arith,
  any-count (is_pending db.config.current_stay_id) (recover now stale_seconds db),
  count-append (is_pending db.config.current_stay_id) (recover now stale_seconds db) (
      record (queued_message db.config.current_stay_id fresh content) {
        pk = db.next_message;
        created_at = now;
      }
      ∷ []),
)

-- After an accepted request the new message is the one pending row of the stay.
pub enqueue_message_single :
    (now : Time) (stale_seconds : ℕ) (fresh : Uuid) (content : String) (db : Db)
    (task : ConciergeTask)
    → (enqueue_message now stale_seconds fresh content db).1 ≡ accepted task
    → count
        (is_pending task.stay_id)
        (enqueue_message now stale_seconds fresh content db).0.messages
      ≡ 1
enqueue_message_single now stale_seconds fresh content db task h =
    let e = enqueue-admitted now stale_seconds fresh content db task h in
    rw (e.1, e.2) (count-admitted now stale_seconds fresh content db e.0)

blocking-stale :
    (now : Time) (stale_seconds : ℕ) (db : Db) (rows : List KioskMessage)
    → all (λ m. not (is_pending db.config.current_stay_id m) || is_stale now stale_seconds m) rows
      ≡ true
    → any (is_blocking now stale_seconds db) rows ≡ false
blocking-stale now stale_seconds db [] h = refl
blocking-stale now stale_seconds db (m ∷ rows) h =
    ground (arith, blocking-stale now stale_seconds db rows)

-- A request is accepted whenever every pending row of the stay is older than the limit, so no lost
-- worker blocks the kiosk for longer than that.
pub enqueue_message_unblocked :
    (now : Time) (stale_seconds : ℕ) (fresh : Uuid) (content : String) (db : Db)
    → all
        (λ m. not (is_pending db.config.current_stay_id m) || is_stale now stale_seconds m)
        db.messages
      ≡ true
    → (enqueue_message now stale_seconds fresh content db).1
      ≡ accepted (record { stay_id = db.config.current_stay_id; request_id = fresh })
enqueue_message_unblocked now stale_seconds fresh content db h = ground (
  arith,
  enqueue_message_admission now stale_seconds fresh content db,
  blocking-stale now stale_seconds db db.messages,
)
