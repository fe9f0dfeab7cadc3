-- ===== src/Chat/Sound.antt =====
-- The rows of the chat: whose they are, and how many requests wait for an answer.
use local_voice_agent.Prelude.{
  ℕ, ◌≤◌, String, ◌≡◌, refl, ◌∙◌, inl, inr, Bool, true, false, not, List, [], ◌∷◌, ◌++◌, arith,
  Bool-cases, ◌==◌, nat_eq, string_eq, option_eq, beq_refl, ◌||◌, select, count, any, update, All,
  count-append, count-update-le, All-append, All-update,
}
use local_voice_agent.Models.{is_user, Time, Uuid, KioskMessage, Db}
use local_voice_agent.Value.{Dict}
use local_voice_agent.Chat.Store.{is_pending}
use local_voice_agent.Chat.Enqueue.{
  set_complete, set_stale, recover, queued_message, enqueue_message,
}
use local_voice_agent.Chat.Enqueue.Admission.{
  is_blocking, any-recover, count-admitted, enqueue_message_admission,
}
use local_voice_agent.Chat.Reset.{reset}

-- A message of the guest is of this stay.
abbrev pub is_proper : Uuid → KioskMessage → Bool
is_proper stay m = not (is_user m.role) || m.stay_id == stay

abbrev pub IsProper : Uuid → KioskMessage → Type 0
IsProper stay m = is_proper stay m ≡ true

-- Every message of the guest is of the current stay, and at most one request of it is pending.
pub record Sound (db : Db) : Type 0 where
  pub of_stay : All (IsProper db.config.current_stay_id) db.messages
  pub single : count (is_pending db.config.current_stay_id) db.messages ≤ 1

-- The chat stands on the messages and the current stay alone.
pub Sound-same :
    (db after : Db)
    → after.messages ≡ db.messages
    → after.config ≡ db.config
    → Sound db
    → Sound after
Sound-same db after m c s = record { of_stay = rw (m, c) s.of_stay; single = rw (m, c) s.single }

-- A row of the stay that waits for no answer may be added.
pub Sound-append :
    (row : KioskMessage) (db after : Db)
    → IsProper db.config.current_stay_id row
    → is_pending db.config.current_stay_id row ≡ false
    → after.messages ≡ db.messages ++ row ∷ []
    → after.config ≡ db.config
    → Sound db
    → Sound after
Sound-append row db after o p m c s =
    let stay = db.config.current_stay_id in
    record {
      of_stay = rw (m, c) (All-append (IsProper stay) db.messages (row ∷ []) s.of_stay (o, tt));
      single =
          rw (m, c)
            (ground (arith, count-append (is_pending stay) db.messages (row ∷ []), s.single));
    }

-- An update may close requests, but not open one or move a row to another stay.
pub Sound-update :
    (p : KioskMessage → Bool) (f : KioskMessage → KioskMessage) (db : Db)
    → ((m : KioskMessage)
        → is_proper db.config.current_stay_id (f m) ≡ is_proper db.config.current_stay_id m)
    → ((m : KioskMessage)
        → p m ≡ true
        → is_pending db.config.current_stay_id (f m) ≡ true
        → is_pending db.config.current_stay_id m ≡ true)
    → Sound db
    → Sound (record db { messages = update p f db.messages })
Sound-update p f db keeps closes s =
    let stay = db.config.current_stay_id in
    record {
      of_stay = All-update (IsProper stay) p f db.messages (λ m o. keeps m ∙ o) s.of_stay;
      single = omega (arith, count-update-le (is_pending stay) p f db.messages closes, s.single);
    }

recover-stay :
    (now : Time) (stale_seconds : ℕ) (db : Db)
    → All (IsProper db.config.current_stay_id) db.messages
    → All (IsProper db.config.current_stay_id) (recover now stale_seconds db)
unfolding recover
recover-stay now stale_seconds db a =
    let stay = db.config.current_stay_id in
    let P = IsProper stay in
    All-update P _ set_stale _ (λ m o. o)
      (All-update P _ set_complete _ (λ m o. o) (All-update P _ set_complete _ (λ m o. o) a))

pub enqueue_message-Sound :
    (now : Time) (stale_seconds : ℕ) (fresh : Uuid) (content : String) (db : Db)
    → Sound db
    → Sound (enqueue_message now stale_seconds fresh content db).0
unfolding queued_message
enqueue_message-Sound now stale_seconds fresh content db s =
    elim (Bool-cases (any (is_blocking now stale_seconds db) db.messages)) [
      | inl b ↦ rw (enqueue_message_admission now stale_seconds fresh content db, b) s
      | inr b ↦
          rw (enqueue_message_admission now stale_seconds fresh content db, b)
            (record {
              of_stay =
                  All-append (IsProper db.config.current_stay_id) (recover now stale_seconds db) _
                    (recover-stay now stale_seconds db s.of_stay)
                    (ground (arith, beq_refl db.config.current_stay_id), tt);
              single = omega (
                arith,
                count-admitted now stale_seconds fresh content db
                    (any-recover now stale_seconds db ∙ b),
              );
            })
    ]

-- An answer or a tool result of another stay
abbrev pub IsLate : Uuid → KioskMessage → Type 0
IsLate stay m = (is_user m.role ≡ false) × ((m.stay_id == stay) ≡ false)

select-IsLate :
    (stay : Uuid) (rows : List KioskMessage)
    → All (IsProper stay) rows
    → All (IsLate stay) (select (λ m. not (m.stay_id == stay)) rows)
select-IsLate stay [] a = tt
select-IsLate stay (m ∷ rows) (o, a) = elim (Bool-cases (m.stay_id == stay)) [
  | inl e ↦ rw e (select-IsLate stay rows a)
  | inr e ↦ rw e ((ground arith, e), select-IsLate stay rows a)
]

-- A reset leaves no message of the guest and none of the stay that ends.
pub reset-IsLate :
    (fresh : Uuid) (details : ℕ → Uuid → Dict) (db : Db)
    → Sound db
    → All (IsLate db.config.current_stay_id) (reset fresh details db).0.messages
unfolding reset
reset-IsLate fresh details db s = select-IsLate db.config.current_stay_id db.messages s.of_stay

IsLate-Sound : (old : Uuid) (db : Db) → All (IsLate old) db.messages → Sound db
IsLate-Sound old db a = record {
  of_stay = proper db.messages a;
  single = omega (arith, none_pending db.messages a);
}
  where
    proper :
        (rows : List KioskMessage)
        → All (IsLate old) rows
        → All (IsProper db.config.current_stay_id) rows
    proper [] a = tt
    proper (m ∷ rows) ((u, e), a) = (ground arith, proper rows a)

    none_pending :
        (rows : List KioskMessage)
        → All (IsLate old) rows
        → count (is_pending db.config.current_stay_id) rows ≡ 0
    none_pending [] a = refl
    none_pending (m ∷ rows) ((u, e), a) = ground (arith, none_pending rows a)

pub reset-Sound :
    (fresh : Uuid) (details : ℕ → Uuid → Dict) (db : Db)
    → Sound db
    → Sound (reset fresh details db).0
reset-Sound fresh details db s =
    IsLate-Sound db.config.current_stay_id (reset fresh details db).0
      (reset-IsLate fresh details db s)
