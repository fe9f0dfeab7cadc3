-- ===== src/Chat/Kept.antt =====
-- A row of the chat that no update can lose.
use local_voice_agent.Prelude.{
  ℕ, String, ◌≡◌, refl, ◌∙◌, subst, inl, inr, Bool, true, Option, some, List, [], ◌∷◌, ◌++◌, arith,
  Bool-cases, nat_eq, string_eq, option_eq, any, update,
}
use local_voice_agent.Models.{Time, Uuid, Role, KioskMessage, Db}
use local_voice_agent.Chat.Store.{clashes, create_message}
use local_voice_agent.Chat.Enqueue.{set_complete, set_stale, recover, enqueue_message}
use local_voice_agent.Chat.Enqueue.Admission.{is_blocking, enqueue_message_admission}

-- What never changes in a row
abbrev pub Keys : Type 0
Keys = Uuid → Uuid → Role → Option String → String → Bool

abbrev pub by_keys : Keys → KioskMessage → Bool
by_keys q m = q m.stay_id m.request_id m.role m.event_id m.tool_call_id

-- Some row has these keys.
abbrev pub HasRow : Keys → Db → Type 0
HasRow q db = any (by_keys q) db.messages ≡ true

module _ (q : Keys) where
  pub any-update :
      (p : KioskMessage → Bool) (f : KioskMessage → KioskMessage) (rows : List KioskMessage)
      → ((m : KioskMessage) → by_keys q (f m) ≡ by_keys q m)
      → any (by_keys q) (update p f rows) ≡ any (by_keys q) rows
  any-update p f [] k = refl
  any-update p f (m ∷ rows) k = elim (Bool-cases (p m)) [
    | inl e ↦ rw (e, k m, any-update p f rows k) refl
    | inr e ↦ rw (e, any-update p f rows k) refl
  ]

  pub any-append :
      (rows more : List KioskMessage)
      → any (by_keys q) rows ≡ true
      → any (by_keys q) (rows ++ more) ≡ true
  any-append [] more h = absurd (ground arith)
  any-append (m ∷ rows) more h = ground (arith, any-append rows more)

  recover-HasRow :
      (now : Time) (stale_seconds : ℕ) (db : Db)
      → HasRow q db
      → any (by_keys q) (recover now stale_seconds db) ≡ true
  unfolding recover
  recover-HasRow now stale_seconds db h =
      any-update _ set_stale _ (λ m. refl)
      ∙ any-update _ set_complete _ (λ m. refl)
      ∙ any-update _ set_complete _ (λ m. refl)
      ∙ h

  pub enqueue_message-HasRow :
      (now : Time) (stale_seconds : ℕ) (fresh : Uuid) (content : String) (db : Db)
      → HasRow q db
      → HasRow q (enqueue_message now stale_seconds fresh content db).0
  enqueue_message-HasRow now stale_seconds fresh content db h =
      elim (Bool-cases (any (is_blocking now stale_seconds db) db.messages)) [
        | inl b ↦ rw (enqueue_message_admission now stale_seconds fresh content db, b) h
        | inr b ↦
            rw (enqueue_message_admission now stale_seconds fresh content db, b)
              (any-append (recover now stale_seconds db) _ (recover-HasRow now stale_seconds db h))
      ]

  pub create_message-HasRow :
      (now : Time) (m row : KioskMessage) (db after : Db)
      → create_message now m db ≡ some (row, after)
      → HasRow q db
      → HasRow q after
  unfolding create_message
  create_message-HasRow now m row db after h k = elim (Bool-cases (any (clashes m) db.messages)) [
    | inl c ↦ absurd (ground arith)
    | inr c ↦
        let stored : KioskMessage = record m { pk = db.next_message; created_at = now } in
        let same : db.messages ++ stored ∷ [] ≡ after.messages = ground arith in
        subst (λ rows. any (by_keys q) rows ≡ true) same (any-append db.messages (stored ∷ []) k)
  ]
