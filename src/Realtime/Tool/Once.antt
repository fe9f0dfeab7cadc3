-- ===== src/Realtime/Tool/Once.antt =====
-- A call of a tool runs at most once: the row that it reserves answers every repetition.
use local_voice_agent.Prelude.{
  ℕ, String, ◌≡◌, refl, subst, ◌⊎◌, inl, inr, Bool, true, ◌||◌, Option, none, some, List, [], ◌∷◌,
  ◌++◌, arith, leb, Bool-cases, Option-cases, ◌==◌, nat_eq, string_eq, option_eq, beq_refl,
  contains, first, count, any, update,
}
use local_voice_agent.Value.{Dict}
use local_voice_agent.Models.{Time, Uuid, KioskMessage, RealtimeSession, Db}
use local_voice_agent.Tools.Runner.{ToolReply, tool_names, ToolRunner}
use local_voice_agent.Realtime.Session.{
  Validated, valid, invalid, SessionError, validated_realtime_session,
}
use local_voice_agent.Realtime.Session.Check.{validated-keeps}
use local_voice_agent.Realtime.Tool.{
  ToolCall, ToolResponse, iteration_limit, refused, answered, is_tool_row, tool_limit, stored_reply,
  finish_row, run_reserved, store_reply, admit, after_check, realtime_tool,
}
use local_voice_agent.Realtime.Tool.Admit.{
  is_duplicate, is_same_call, is_clashing, reserved_row, reserved_db, admit-duplicate,
  admit-clashing, admit-full, admit_cases,
}

-- A row that stands for the call: its own, or one of the stay with its call id
abbrev pub stands_for : ToolCall → KioskMessage → Bool
stands_for call m = is_duplicate call m || is_clashing call m

-- Some row stands for the call.
abbrev pub IsReserved : ToolCall → List KioskMessage → Type 0
IsReserved call messages = any (stands_for call) messages ≡ true

-- The call is answered with the text of a row that stands for it, or it is over the limit of its
-- request, or refused by the check of the session.
abbrev pub IsRepeated : ToolCall → List KioskMessage → ToolResponse → Type 0
IsRepeated call messages response =
    ((m : KioskMessage) × (first (is_duplicate call) messages ≡ some m)
      × (response ≡ answered m.content))
    ⊎ ((m : KioskMessage) × (first (is_same_call call) messages ≡ some m)
        × (response ≡ answered m.content))
    ⊎ (response ≡ iteration_limit)
    ⊎ ((error : SessionError) × (response ≡ refused error))

first-IsReserved :
    (call : ToolCall) (messages : List KioskMessage) (m : KioskMessage)
    → first (is_duplicate call) messages ≡ some m
    → IsReserved call messages
first-IsReserved call [] m h = absurd (ground arith)
first-IsReserved call (x ∷ messages) m h = elim (Bool-cases (is_duplicate call x)) [
  | inl e ↦ rw e refl
  | inr e ↦ rw e (ground (arith, first-IsReserved call messages m))
]

clashing-IsReserved :
    (call : ToolCall) (messages : List KioskMessage)
    → any (is_clashing call) messages ≡ true
    → IsReserved call messages
clashing-IsReserved call [] h = absurd (ground arith)
clashing-IsReserved call (x ∷ messages) h = ground (arith, clashing-IsReserved call messages)

reserved-clashing :
    (call : ToolCall) (messages : List KioskMessage)
    → IsReserved call messages
    → first (is_duplicate call) messages ≡ none
    → any (is_clashing call) messages ≡ true
reserved-clashing call [] h e = absurd (ground arith)
reserved-clashing call (x ∷ messages) h e = elim (Bool-cases (is_duplicate call x)) [
  | inl d ↦ absurd (ground arith)
  | inr d ↦ elim (Bool-cases (is_clashing call x)) [
    | inl c ↦ rw c refl
    | inr c ↦
        let later : IsReserved call messages = rw (d, c) at h in
        rw c (reserved-clashing call messages later (ground arith))
  ]
]

clashing-same :
    (call : ToolCall) (messages : List KioskMessage)
    → any (is_clashing call) messages ≡ true
    → (m : KioskMessage) × (first (is_same_call call) messages ≡ some m)
clashing-same call [] h = absurd (ground arith)
clashing-same call (x ∷ messages) h = elim (Bool-cases (is_same_call call x)) [
  | inl e ↦ (x, rw e refl)
  | inr e ↦ let (m, found) = clashing-same call messages (ground arith) in (m, rw e found)
]

first-finished :
    (call : ToolCall) (pk : ℕ) (content : String) (messages : List KioskMessage)
    (row : KioskMessage)
    → first (is_duplicate call) messages ≡ none
    → is_duplicate call row ≡ true
    → row.pk ≡ pk
    → first
        (is_duplicate call)
        (update (λ m. m.pk == pk) (finish_row content) (messages ++ row ∷ []))
      ≡ some (finish_row content row)
first-finished call pk content [] row e d p = ground (arith, beq_refl pk)
first-finished call pk content (m ∷ messages) row e d p =
    ground (arith, first-finished call pk content messages row)

module _ (tools : ToolRunner) (metadata : Uuid → Dict) (call : ToolCall) where
  store-IsReserved :
      (row : KioskMessage) (messages : List KioskMessage) (r : Option ToolReply × Db)
      (content : String)
      → r.1.messages ≡ messages ++ row ∷ []
      → first (is_duplicate call) messages ≡ none
      → is_duplicate call row ≡ true
      → (store_reply tools row r).1 ≡ answered content
      → IsReserved call (store_reply tools row r).0.messages
  unfolding store_reply
  store-IsReserved row messages (none, db) content k e d h = absurd (cc)
  store-IsReserved row messages (some reply, db) content k e d h =
      first-IsReserved call _ (finish_row reply.content row)
        (rw k (first-finished call row.pk reply.content messages row e d refl))

  run-IsReserved :
      (now : Time) (session : RealtimeSession) (db : Db) (content : String)
      → first (is_duplicate call) db.messages ≡ none
      → (run_reserved tools call
          (reserved_row tools metadata call now session db)
          (reserved_db tools metadata call now session db)).1
        ≡ answered content
      → IsReserved call
          (run_reserved tools call
            (reserved_row tools metadata call now session db)
            (reserved_db tools metadata call now session db)).0.messages
  unfolding run_reserved
  run-IsReserved now session db content e h =
      let row = reserved_row tools metadata call now session db in
      let reserved = reserved_db tools metadata call now session db in
      store-IsReserved row db.messages
        (tools.execute call.name call.arguments call.stay_id call.request_id reserved) content
        (tools.messages-execute call.name call.arguments call.stay_id call.request_id reserved) e
        (rw (beq_refl call.stay_id, beq_refl call.request_id, beq_refl call.call_id)) h

  admit-IsReserved :
      (now : Time) (session : RealtimeSession) (db : Db) (content : String)
      → (admit tools now metadata call session db).1 ≡ answered content
      → IsReserved call (admit tools now metadata call session db).0.messages
  admit-IsReserved now session db content =
      admit_cases tools metadata call now session db
        (λ r. r.1 ≡ answered content → IsReserved call r.0.messages)
        (λ m e h. first-IsReserved call db.messages m e) (λ e h. absurd (cc))
        (λ e l a h. clashing-IsReserved call db.messages a)
        (λ e l h. run-IsReserved now session db content e h)

  IsReserved-admit :
      (now : Time) (session : RealtimeSession) (db : Db)
      → IsReserved call db.messages
      → ((admit tools now metadata call session db).0 ≡ db)
        × IsRepeated call db.messages (admit tools now metadata call session db).1
  unfolding stored_reply
  IsReserved-admit now session db k = elim (Option-cases (first (is_duplicate call) db.messages)) [
    | inr (m, e) ↦
        rw (admit-duplicate tools metadata call now session db m e) (refl, inl (m, e, refl))
    | inl e ↦
        elim (Bool-cases
          (leb tool_limit (count (is_tool_row call.stay_id call.request_id) db.messages))) [
            | inl l ↦
                rw (admit-full tools metadata call now session db e l) (refl, inr (inr (inl refl)))
            | inr l ↦
                let a = reserved-clashing call db.messages k e in
                let (m, same) = clashing-same call db.messages a in
                rw (admit-clashing tools metadata call now session db e l a)
                  (refl, inr (inl (m, same, rw same refl)))
          ]
  ]

  abbrev pub checked_session : Time → ℕ → Db → Db × Validated
  checked_session now ttl db = validated_realtime_session now ttl call.session_id call.stay_id db

  after_check-IsReserved :
      (now : Time) (c : Db × Validated) (content : String)
      → (after_check tools now metadata call c).1 ≡ answered content
      → IsReserved call (after_check tools now metadata call c).0.messages
  unfolding after_check
  after_check-IsReserved now (db, invalid error) content h = absurd (cc)
  after_check-IsReserved now (db, valid session) content h =
      admit-IsReserved now session db content h

  IsReserved-after_check :
      (now : Time) (c : Db × Validated)
      → IsReserved call c.0.messages
      → ((after_check tools now metadata call c).0 ≡ c.0)
        × IsRepeated call c.0.messages (after_check tools now metadata call c).1
  unfolding after_check
  IsReserved-after_check now (db, invalid error) k = (refl, inr (inr (inr (error, refl))))
  IsReserved-after_check now (db, valid session) k = IsReserved-admit now session db k

  pub known-realtime_tool :
      (now : Time) (ttl : ℕ) (db : Db) (content : String)
      → (realtime_tool tools now ttl metadata call db).1 ≡ answered content
      → contains call.name tool_names ≡ true
  unfolding realtime_tool
  known-realtime_tool now ttl db content h = ground arith

  realtime_tool-known :
      (now : Time) (ttl : ℕ) (db : Db)
      → contains call.name tool_names ≡ true
      → realtime_tool tools now ttl metadata call db
        ≡ after_check tools now metadata call (checked_session now ttl db)
  unfolding realtime_tool
  realtime_tool-known now ttl db k = ground arith

  -- A call that is answered has a row that stands for it.
  pub realtime_tool-IsReserved :
      (now : Time) (ttl : ℕ) (db : Db) (content : String)
      → (realtime_tool tools now ttl metadata call db).1 ≡ answered content
      → IsReserved call (realtime_tool tools now ttl metadata call db).0.messages
  realtime_tool-IsReserved now ttl db content h =
      let known = known-realtime_tool now ttl db content h in
      rw (realtime_tool-known now ttl db known) (
        after_check-IsReserved now (checked_session now ttl db) content
          (rw (realtime_tool-known now ttl db known) at h))

  -- A call that a row stands for is not run.
  pub IsReserved-realtime_tool :
      (now : Time) (ttl : ℕ) (db : Db)
      → contains call.name tool_names ≡ true
      → IsReserved call db.messages
      → ((realtime_tool tools now ttl metadata call db).0 ≡ (checked_session now ttl db).0)
        × IsRepeated call db.messages (realtime_tool tools now ttl metadata call db).1
  IsReserved-realtime_tool now ttl db known k =
      let same = (validated-keeps now ttl call.session_id call.stay_id db).0 in
      let (kept, repeated) = IsReserved-after_check now (checked_session now ttl db) (rw same k) in
      rw (realtime_tool-known now ttl db known) (
        kept,
        subst
            (λ rows.
              IsRepeated call rows
                (after_check tools now metadata call (checked_session now ttl db)).1)
            same repeated,
      )
