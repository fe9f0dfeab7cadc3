-- ===== src/Agent/Run/Steps.antt =====
-- A run of the agent writes in steps of the system.
use local_voice_agent.Prelude.{
  ℕ, zero, suc, ◌+◌, String, ◌≡◌, refl, sym, subst, inl, inr, Bool, true, false, ◌==◌, Option, none,
  some, List, [], ◌∷◌, Bool-cases, Option-cases, nat_eq, string_eq, option_eq, is_text, or_text,
  strip,
}
use local_voice_agent.Models.{KioskMessage, is_user, Time, Uuid, Db}
use local_voice_agent.Chat.Store.{create_message}
use local_voice_agent.Channel.{Payload, ToolStatus}
use local_voice_agent.Tools.Runner.{ToolReply}
use local_voice_agent.System.{saving, running, Reach, here, later, Reach-trans}
use local_voice_agent.Agent.Buffers.{Chunk, ToolCallBuffer, Buffers, collect, text_of}
use local_voice_agent.Agent.Run.{
  ChatMessage, Stream, Services, Agent, Ran, publish, publish_tokens, answer_message, tool_message,
  finish, published_result, finished, stored_result, create_saved, save_answer, Saved, stay_over,
  integrity_error, saved, save_message, store_result, replied, run_call, with_message,
  continue_calls, run_calls, open_stream, called, chosen, streamed, iterate, load_context,
  run_agent, max_iterations,
}

-- Whatever the other processes do while the model answers, and between the two statements of
-- `_save_message`, they do it in steps.
pub record Interferes (services : Services) : Type 0 where
  pub streaming :
      (model : String) (messages : List ChatMessage) (db : Db)
      → Reach db (services.stream model messages db).1
  pub saving_message : (m : KioskMessage) (db : Db) → Reach db (services.meanwhile m db)

module _ (services : Services) (now : Time) (stay request : Uuid) (model : String) where
  publish_tokens-db :
      (chunks : List Chunk) (s : Agent)
      → (publish_tokens services now stay request model chunks s).db ≡ s.db
  unfolding publish_tokens
  publish_tokens-db [] s = refl
  publish_tokens-db (c ∷ cs) s = elim (Bool-cases (is_text c.content)) [
    | inl t ↦
        rw (t, publish_tokens)
          (publish_tokens-db cs
            (publish services now stay request model (Payload.token c.content) s))
    | inr t ↦ rw (t, publish_tokens) (publish_tokens-db cs s)
  ]

  module _ (others : Interferes services) where
    -- The database after `_save_message` of a message of the assistant or of a tool
    abbrev after_save : Db → Saved → Db
    after_save db stay_over = db
    after_save db (integrity_error seen) = seen
    after_save db (saved row after) = after

    create_saved-Reach :
        (m : KioskMessage) (db : Db)
        → is_user m.role ≡ false
        → Reach db (after_save db (create_saved now m db))
    unfolding create_saved
    create_saved-Reach m db u = elim (Option-cases (create_message now m db)) [
      | inl e ↦ rw (after_save, create_saved, e) here
      | inr ((row, after), e) ↦
          rw (after_save, create_saved, e) (later here (saving now m row after u e))
    ]

    create_saved-over :
        (m : KioskMessage) (db seen : Db)
        → after_save db (create_saved now m seen) ≡ after_save seen (create_saved now m seen)
    unfolding create_saved
    create_saved-over m db seen = elim (Option-cases (create_message now m seen)) [
      | inl e ↦ rw (after_save, create_saved, e) refl
      | inr ((row, after), e) ↦ rw (after_save, create_saved, e) refl
    ]

    save_message-Reach :
        (m : KioskMessage) (db : Db)
        → is_user m.role ≡ false
        → Reach db (after_save db (save_message (services.meanwhile m) now m db))
    unfolding save_message
    save_message-Reach m db u = elim (Bool-cases (db.config.current_stay_id == m.stay_id)) [
      | inr c ↦ rw c here
      | inl c ↦ rw c (
          subst (Reach db) (sym (create_saved-over m db (services.meanwhile m db))) (
            Reach-trans (others.saving_message m db)
              (create_saved-Reach m (services.meanwhile m db) u)))
    ]

    finish-Reach :
        (iteration : ℕ) (text : String) (s : Agent)
        → Reach s.db (finish services now stay request model iteration text s).1.db
    unfolding finish save_answer
    finish-Reach iteration text s =
        let m = answer_message services now stay request model iteration text in
        elim (Bool-cases (is_text (strip text))) [
          | inr t ↦ rw (t, finish) here
          | inl t ↦
              rw (t, finish)
                (go (save_message (services.meanwhile m) now m s.db)
                  (save_message-Reach m s.db refl))
        ]
      where
        go :
            (v : Saved)
            → Reach s.db (after_save s.db v)
            → Reach s.db (finished services now stay request model text s v).1.db
        go stay_over r = r
        go (integrity_error db) r = r
        go (saved row after) r = r

    published_result-Reach :
        (start : Db) (call : ToolCallBuffer) (reply : ToolReply) (s : Agent) (r : Bool × Db)
        → Reach start r.1
        → Reach start (published_result services now stay request model call reply s r).1.db
    unfolding published_result
    published_result-Reach start call reply s (false, db) r = r
    published_result-Reach start call reply s (true, db) r = r

    replied-Reach :
        (call : ToolCallBuffer) (s : Agent) (r : Option ToolReply × Db)
        → Reach r.1 (replied services now stay request model call s r).1.db
    unfolding replied store_result
    replied-Reach call s (none, db) = here
    replied-Reach call s (some reply, db) =
        let m = tool_message services now stay request model call reply.content in
        published_result-Reach db call reply s
          (stored_result services now stay request model db
            (save_message (services.meanwhile m) now m db))
          (go (save_message (services.meanwhile m) now m db) (save_message-Reach m db refl))
      where
        go :
            (v : Saved)
            → Reach db (after_save db v)
            → Reach db (stored_result services now stay request model db v).1
        go stay_over r = r
        go (integrity_error seen) r = r
        go (saved row after) r = r

    run_call-Reach :
        (call : ToolCallBuffer) (s : Agent)
        → Reach s.db (run_call services now stay request model call s).1.db
    unfolding run_call
    run_call-Reach call s =
        Reach-trans (later here (running services.tools call.name call.arguments stay request)) (
          replied-Reach call
            (publish services now stay request model
              (Payload.tool_status call.name ToolStatus.running) s)
            (services.tools.execute call.name call.arguments stay request s.db))

    continue_calls-Reach :
        (start : Db) (more : Agent → Option (List ChatMessage) × Agent)
        (r : Option ChatMessage × Agent)
        → ((s : Agent) → Reach s.db (more s).1.db)
        → Reach start r.1.db
        → Reach start (continue_calls services now stay request model more r).1.db
    unfolding continue_calls
    continue_calls-Reach start more (none, s) h r = r
    continue_calls-Reach start more (some m, s) h r = go (more s) (Reach-trans r (h s))
      where
        go :
            (t : Option (List ChatMessage) × Agent)
            → Reach start t.1.db
            → Reach start (with_message services now stay request model m t).1.db
        go (none, t) q = q
        go (some ms, t) q = q

    run_calls-Reach :
        (buffers : Buffers) (s : Agent)
        → Reach s.db (run_calls services now stay request model buffers s).1.db
    unfolding run_calls
    run_calls-Reach [] s = here
    run_calls-Reach ((i, call) ∷ calls) s =
        continue_calls-Reach s.db (λ after. run_calls services now stay request model calls after)
          (run_call services now stay request model call s) (λ t. run_calls-Reach calls t)
          (run_call-Reach call s)

    -- What is left of the run after some point reaches from there.
    abbrev Continues : (List ChatMessage → Agent → Ran × Agent) → Type 0
    Continues next = (ms : List ChatMessage) (s : Agent) → Reach s.db (next ms s).1.db

    called-Reach :
        (start : Db) (next : List ChatMessage → Agent → Ran × Agent) (messages : List ChatMessage)
        (text : String) (buffers : Buffers) (r : Option (List ChatMessage) × Agent)
        → Continues next
        → Reach start r.1.db
        → Reach start (called services now stay request model next messages text buffers r).1.db
    unfolding called
    called-Reach start next messages text buffers (none, s) h r = r
    called-Reach start next messages text buffers (some ms, s) h r = Reach-trans r (h _ s)

    chosen-Reach :
        (next : List ChatMessage → Agent → Ran × Agent) (iteration : ℕ)
        (messages : List ChatMessage) (text : String) (buffers : Buffers) (s : Agent)
        → Continues next
        → Reach s.db
            (chosen services now stay request model next iteration messages text buffers s).1.db
    unfolding chosen
    chosen-Reach next iteration messages text [] s h = finish-Reach iteration text s
    chosen-Reach next iteration messages text (c ∷ calls) s h =
        called-Reach s.db next messages text (c ∷ calls)
          (run_calls services now stay request model (c ∷ calls) s) h
          (run_calls-Reach (c ∷ calls) s)

    streamed-Reach :
        (next : List ChatMessage → Agent → Ran × Agent) (iteration : ℕ)
        (messages : List ChatMessage) (o : Stream × Agent)
        → Continues next
        → Reach o.1.db (streamed services now stay request model next iteration messages o).1.db
    unfolding streamed
    streamed-Reach next iteration messages (stream, s) h = elim (Bool-cases stream.broken) [
      | inl b ↦ rw (b, streamed) here
      | inr b ↦
          rw (b, streamed)
            (chosen-Reach next iteration messages (text_of stream.chunks) (collect stream.chunks) s
              h)
    ]

    open_stream-Reach :
        (messages : List ChatMessage) (s : Agent)
        → Reach s.db (open_stream services now stay request model messages s).1.db
    unfolding open_stream
    open_stream-Reach messages s =
        let (stream, db) = services.stream model messages s.db in
        subst (Reach s.db)
          (sym (publish_tokens-db stream.chunks (record s { db = db; streams = s.streams + 1 })))
          (others.streaming model messages s.db)

    iterate-Reach :
        (left iteration : ℕ) (messages : List ChatMessage) (s : Agent)
        → Reach s.db (iterate services now stay request model left iteration messages s).1.db
    unfolding iterate
    iterate-Reach zero iteration messages s = here
    iterate-Reach (suc left) iteration messages s = Reach-trans (open_stream-Reach messages s) (
        streamed-Reach
          (λ ms after. iterate services now stay request model left (iteration + 1) ms after)
          iteration messages (open_stream services now stay request model messages s)
          (λ ms t. iterate-Reach left (iteration + 1) ms t))

pub run_agent-Reach :
    (services : Services) (now : Time) (stay request : Uuid)
    → Interferes services
    → (s : Agent) → Reach s.db (run_agent services now stay request s).1.db
unfolding run_agent
run_agent-Reach services now stay request others s = elim (Bool-cases services.has_api_key) [
  | inr k ↦ rw (k, run_agent) here
  | inl k ↦ elim (Option-cases (load_context stay s.db)) [
    | inl e ↦ rw (k, e, run_agent) here
    | inr (past, e) ↦
        let model = or_text s.db.config.llm_model services.default_model in
        rw (k, e, run_agent)
          (iterate-Reach services now stay request model others max_iterations 1
            (ChatMessage.system_prompt ∷ past)
            (publish services now stay request model Payload.thinking s))
  ]
]
