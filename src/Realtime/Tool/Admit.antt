-- ===== src/Realtime/Tool/Admit.antt =====
-- The four branches of a tool call in a valid session.
use local_voice_agent.Prelude.{
  ◌+◌, ◌≡◌, inl, inr, Bool, true, false, ◌&&◌, none, some, [], ◌∷◌, ◌++◌, arith, leb, Bool-cases,
  Option-cases, ◌==◌, nat_eq, string_eq, option_eq, first, count, any, is_text,
}
use local_voice_agent.Value.{Dict}
use local_voice_agent.Models.{Time, Uuid, KioskMessage, RealtimeSession, Db}
use local_voice_agent.Tools.Runner.{ToolRunner}
use local_voice_agent.Realtime.Tool.{
  ToolCall, ToolResponse, iteration_limit, answered, is_tool_row, has_call_id, tool_limit,
  reservation, stored_reply, run_reserved, admit,
}

abbrev pub is_duplicate : ToolCall → KioskMessage → Bool
is_duplicate call m = is_tool_row call.stay_id call.request_id m && has_call_id call.call_id m

abbrev pub is_same_call : ToolCall → KioskMessage → Bool
is_same_call call m = m.stay_id == call.stay_id && has_call_id call.call_id m

abbrev pub is_clashing : ToolCall → KioskMessage → Bool
is_clashing call n =
    is_text call.call_id && call.stay_id == n.stay_id && n.tool_call_id == call.call_id

module _ (tools : ToolRunner) (metadata : Uuid → Dict) (call : ToolCall) (now : Time)
    (session : RealtimeSession) (db : Db) where
  abbrev pub reserved_row : KioskMessage
  reserved_row = record (reservation metadata call session) {
    pk = db.next_message;
    created_at = now;
  }

  abbrev pub reserved_db : Db
  reserved_db = record db {
    messages = db.messages ++ reserved_row ∷ [];
    next_message = db.next_message + 1;
  }

  pub admit-duplicate :
      (m : KioskMessage)
      → first (is_duplicate call) db.messages ≡ some m
      → admit tools now metadata call session db ≡ (db, answered m.content)
  unfolding admit
  admit-duplicate m e = ground arith

  pub admit-full :
      first (is_duplicate call) db.messages ≡ none
      → leb tool_limit (count (is_tool_row call.stay_id call.request_id) db.messages) ≡ true
      → admit tools now metadata call session db ≡ (db, iteration_limit)
  unfolding admit
  admit-full e l = ground arith

  pub admit-clashing :
      first (is_duplicate call) db.messages ≡ none
      → leb tool_limit (count (is_tool_row call.stay_id call.request_id) db.messages) ≡ false
      → any (is_clashing call) db.messages ≡ true
      → admit tools now metadata call session db
        ≡ (db, stored_reply (first (is_same_call call) db.messages))
  unfolding admit
  admit-clashing e l a = ground arith

  pub admit-reserved :
      first (is_duplicate call) db.messages ≡ none
      → leb tool_limit (count (is_tool_row call.stay_id call.request_id) db.messages) ≡ false
      → any (is_clashing call) db.messages ≡ false
      → admit tools now metadata call session db ≡ run_reserved tools call reserved_row reserved_db
  unfolding admit
  admit-reserved e l a = ground arith

  pub admit_cases {ℓ} :
      (P : Db × ToolResponse → Type ℓ)
      → ((m : KioskMessage)
          → first (is_duplicate call) db.messages ≡ some m
          → P (db, answered m.content))
      → (first (is_duplicate call) db.messages ≡ none → P (db, iteration_limit))
      → (first (is_duplicate call) db.messages ≡ none
          → leb tool_limit (count (is_tool_row call.stay_id call.request_id) db.messages) ≡ false
          → any (is_clashing call) db.messages ≡ true
          → P (db, stored_reply (first (is_same_call call) db.messages)))
      → (first (is_duplicate call) db.messages ≡ none
          → leb tool_limit (count (is_tool_row call.stay_id call.request_id) db.messages) ≡ false
          → P (run_reserved tools call reserved_row reserved_db))
      → P (admit tools now metadata call session db)
  admit_cases P dup full clash run = elim (Option-cases (first (is_duplicate call) db.messages)) [
    | inr (m, e) ↦ rw (admit-duplicate m e) (dup m e)
    | inl e ↦
        elim (Bool-cases
          (leb tool_limit (count (is_tool_row call.stay_id call.request_id) db.messages))) [
            | inl l ↦ rw (admit-full e l) (full e)
            | inr l ↦ elim (Bool-cases (any (is_clashing call) db.messages)) [
              | inl a ↦ rw (admit-clashing e l a) (clash e l a)
              | inr a ↦ rw (admit-reserved e l a) (run e l)
            ]
          ]
  ]
