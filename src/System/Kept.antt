-- ===== src/System/Kept.antt =====
-- A row of the chat stays until a reset.
use local_voice_agent.Prelude.{
  ℕ, suc, ◌≡◌, refl, ◌∙◌, inl, inr, Bool, true, false, ◌&&◌, arith, if◌then◌else◌, Bool-cases, ◌==◌,
  nat_eq, string_eq, option_eq,
}
use local_voice_agent.Models.{Db, Status, is_queued}
use local_voice_agent.Chat.Kept.{
  Keys, HasRow, any-update, enqueue_message-HasRow, create_message-HasRow,
}
use local_voice_agent.Realtime.Message.Kept.{realtime_message-HasRow}
use local_voice_agent.Realtime.Tool.Kept.{realtime_tool-HasRow}
use local_voice_agent.Realtime.Session.{open_session, close_session}
use local_voice_agent.Agent.Task.{is_request, is_open_request, set_status, claim, settle}
use local_voice_agent.Realtime.Tool.{finish_row}
use local_voice_agent.System.{
  Step, enqueuing, claiming, settling, saving, messaging, calling, finishing, running, auditing,
  opening, closing, resetting, Reach, here, later,
}

abbrev is_reset : {db after : Db} → Step db after → Bool
is_reset (resetting fresh details) = true
is_reset _ = false

-- How many of the steps are resets
abbrev pub resets : {start db : Db} → Reach start db → ℕ
resets here = 0
resets (later r step) = if is_reset step then suc (resets r) else resets r

module _ (q : Keys) where
  Step-HasRow :
      {db after : Db} (s : Step db after) → is_reset s ≡ false → HasRow q db → HasRow q after
  unfolding claim settle open_session close_session
  Step-HasRow {db} (enqueuing now stale_seconds fresh content) n k =
      enqueue_message-HasRow q now stale_seconds fresh content db k
  Step-HasRow {db} (claiming stay request) n k =
      any-update q (λ m. is_request stay request m && is_queued m.status)
        (set_status Status.streaming) db.messages (λ m. refl)
      ∙ k
  Step-HasRow {db} (settling stay request status closed) n k =
      any-update q (is_open_request stay request) (set_status status) db.messages (λ m. refl) ∙ k
  Step-HasRow {db} (saving now m row after u h) n k = create_message-HasRow q now m row db after h k
  Step-HasRow {db} (messaging now ttl metadata item) n k =
      realtime_message-HasRow q now ttl metadata item db k
  Step-HasRow {db} (calling tools now ttl metadata call) n k =
      realtime_tool-HasRow q tools metadata call now ttl db k
  Step-HasRow {db} (finishing pk content) n k =
      any-update q (λ m. m.pk == pk) (finish_row content) db.messages (λ m. refl) ∙ k
  Step-HasRow {db} (running tools name arguments stay request) n k =
      rw (tools.messages-execute name arguments stay request db) k
  Step-HasRow {db} (auditing stay request event details) n k = k
  Step-HasRow {db} (opening now ttl fresh) n k = k
  Step-HasRow {db} (closing session stay) n k = k
  Step-HasRow {db} (resetting fresh details) n k = absurd (ground arith)

  pub Reach-HasRow :
      {start db : Db} (r : Reach start db) → resets r ≡ 0 → HasRow q start → HasRow q db
  Reach-HasRow here n k = k
  Reach-HasRow (later r step) n k = elim (Bool-cases (is_reset step)) [
    | inl e ↦ absurd (ground arith)
    | inr e ↦ Step-HasRow step e (Reach-HasRow r (ground arith) k)
  ]
