-- ===== src/Agent/Run/Limit.antt =====
-- The limit of the iterations.
use local_voice_agent.Prelude.{
  ℕ, zero, suc, ◌+◌, ◌≤◌, String, ◌≡◌, refl, ap, ◌∙◌, inl, inr, Bool, true, false, Option, none,
  some, List, [], ◌∷◌, ◌++◌, arith, Bool-cases, Option-cases, nat_eq, string_eq, option_eq, is_text,
  or_text, strip,
}
use local_voice_agent.Models.{Db, Time, Uuid}
use local_voice_agent.Channel.{Payload}
use local_voice_agent.Tools.Runner.{ToolReply}
use local_voice_agent.Agent.Buffers.{Chunk, ToolCallBuffer, Buffers, collect, text_of}
use local_voice_agent.Agent.Run.{
  ToolStatus, Services, Agent, Ran, ChatMessage, Stream, Saved, stay_over, integrity_error, saved,
  save_answer, published_result, publish, publish_tokens, finish, run_call, replied, with_message,
  continue_calls, called, chosen, streamed, open_stream, iterate, run_calls, run_agent,
  load_context, max_iterations,
}

module _ (services : Services) (now : Time) (stay request : Uuid) (model : String) where
  publish_tokens-streams :
      (chunks : List Chunk) (s : Agent)
      → (publish_tokens services now stay request model chunks s).streams ≡ s.streams
  unfolding publish_tokens
  publish_tokens-streams [] s = refl
  publish_tokens-streams (c ∷ cs) s = elim (Bool-cases (is_text c.content)) [
    | inl t ↦
        rw (t, publish_tokens)
          (publish_tokens-streams cs
            (publish services now stay request model (Payload.token c.content) s))
    | inr t ↦ rw (t, publish_tokens) (publish_tokens-streams cs s)
  ]

  finish-streams :
      (iteration : ℕ) (text : String) (s : Agent)
      → (finish services now stay request model iteration text s).1.streams ≡ s.streams
  unfolding finish
  finish-streams iteration text s = elim (Bool-cases (is_text (strip text))) [
    | inr t ↦ rw (t, finish) refl
    | inl t ↦ go (save_answer services now stay request model iteration text s.db) refl t
  ]
    where
      go :
          (v : Saved)
          → save_answer services now stay request model iteration text s.db ≡ v
          → is_text (strip text) ≡ true
          → (finish services now stay request model iteration text s).1.streams ≡ s.streams
      go stay_over e t = rw (t, finish, e) refl
      go (integrity_error db) e t = rw (t, finish, e) refl
      go (saved row after) e t = rw (t, finish, e) refl

  published_result-streams :
      (call : ToolCallBuffer) (reply : ToolReply) (s : Agent) (r : Bool × Db)
      → (published_result services now stay request model call reply s r).1.streams ≡ s.streams
  unfolding published_result
  published_result-streams call reply s (false, db) = refl
  published_result-streams call reply s (true, db) = refl

  replied-streams :
      (call : ToolCallBuffer) (s : Agent) (r : Option ToolReply × Db)
      → (replied services now stay request model call s r).1.streams ≡ s.streams
  unfolding replied
  replied-streams call s (none, db) = refl
  replied-streams call s (some reply, db) = published_result-streams call reply s _

  run_call-streams :
      (call : ToolCallBuffer) (s : Agent)
      → (run_call services now stay request model call s).1.streams ≡ s.streams
  unfolding run_call
  run_call-streams call s =
      replied-streams call
        (publish services now stay request model (Payload.tool_status call.name ToolStatus.running)
          s)
        (services.tools.execute call.name call.arguments stay request s.db)

  with_message-streams :
      (m : ChatMessage) (r : Option (List ChatMessage) × Agent)
      → (with_message services now stay request model m r).1 ≡ r.1
  unfolding with_message
  with_message-streams m (none, s) = refl
  with_message-streams m (some ms, s) = refl

  continue_calls-streams :
      (n : ℕ) (more : Agent → Option (List ChatMessage) × Agent) (r : Option ChatMessage × Agent)
      → ((s : Agent) → (more s).1.streams ≡ s.streams)
      → r.1.streams ≡ n
      → (continue_calls services now stay request model more r).1.streams ≡ n
  unfolding continue_calls
  continue_calls-streams n more (none, s) h e = e
  continue_calls-streams n more (some m, s) h e =
      ap (λ (a : Agent). a.streams) (with_message-streams m (more s)) ∙ h s ∙ e

  run_calls-streams :
      (buffers : Buffers) (s : Agent)
      → (run_calls services now stay request model buffers s).1.streams ≡ s.streams
  unfolding run_calls
  run_calls-streams [] s = refl
  run_calls-streams ((i, call) ∷ calls) s =
      continue_calls-streams s.streams
        (λ after. run_calls services now stay request model calls after)
        (run_call services now stay request model call s) (λ t. run_calls-streams calls t)
        (run_call-streams call s)

  called-streams :
      (n left : ℕ) (next : List ChatMessage → Agent → Ran × Agent) (messages : List ChatMessage)
      (text : String) (buffers : Buffers) (r : Option (List ChatMessage) × Agent)
      → ((ms : List ChatMessage) (s : Agent) → (next ms s).1.streams ≤ s.streams + left)
      → r.1.streams ≡ n
      → (called services now stay request model next messages text buffers r).1.streams ≤ n + left
  unfolding called
  called-streams n left next messages text buffers (none, s) h e = omega (arith, e)
  called-streams n left next messages text buffers (some ms, s) h e =
      omega (arith, h (messages ++ ChatMessage.assistant_calls text buffers ∷ ms) s, e)

  chosen-streams :
      (left : ℕ) (next : List ChatMessage → Agent → Ran × Agent) (iteration : ℕ)
      (messages : List ChatMessage) (text : String) (buffers : Buffers) (s : Agent)
      → ((ms : List ChatMessage) (s : Agent) → (next ms s).1.streams ≤ s.streams + left)
      → (chosen services now stay request model next iteration messages text buffers s).1.streams
        ≤ s.streams + left
  unfolding chosen
  chosen-streams left next iteration messages text [] s h =
      omega (arith, finish-streams iteration text s)
  chosen-streams left next iteration messages text (c ∷ calls) s h =
      called-streams s.streams left next messages text (c ∷ calls)
        (run_calls services now stay request model (c ∷ calls) s) h
        (run_calls-streams (c ∷ calls) s)

  streamed-streams :
      (left : ℕ) (next : List ChatMessage → Agent → Ran × Agent) (iteration : ℕ)
      (messages : List ChatMessage) (o : Stream × Agent)
      → ((ms : List ChatMessage) (s : Agent) → (next ms s).1.streams ≤ s.streams + left)
      → (streamed services now stay request model next iteration messages o).1.streams
        ≤ o.1.streams + left
  unfolding streamed
  streamed-streams left next iteration messages (stream, s) h = elim (Bool-cases stream.broken) [
    | inl b ↦ rw (b, streamed) (omega arith)
    | inr b ↦
        rw (b, streamed)
          (chosen-streams left next iteration messages (text_of stream.chunks)
            (collect stream.chunks) s h)
  ]

  open_stream-streams :
      (messages : List ChatMessage) (s : Agent)
      → (open_stream services now stay request model messages s).1.streams ≡ s.streams + 1
  unfolding open_stream
  open_stream-streams messages s =
      let (stream, db) = services.stream model messages s.db in
      publish_tokens-streams stream.chunks (record s { db = db; streams = s.streams + 1 })

  iterate-streams :
      (left iteration : ℕ) (messages : List ChatMessage) (s : Agent)
      → (iterate services now stay request model left iteration messages s).1.streams
        ≤ s.streams + left
  unfolding iterate
  iterate-streams zero iteration messages s = omega arith
  iterate-streams (suc left) iteration messages s = omega (
    arith,
    open_stream-streams messages s,
    streamed-streams left
        (λ ms after. iterate services now stay request model left (iteration + 1) ms after)
        iteration messages (open_stream services now stay request model messages s)
        (λ ms t. iterate-streams left (iteration + 1) ms t),
  )

-- A run opens at most five streams of the model, whatever the model and the tools answer.
pub run_agent-streams :
    (services : Services) (now : Time) (stay request : Uuid) (s : Agent)
    → (run_agent services now stay request s).1.streams ≤ s.streams + 5
unfolding run_agent
run_agent-streams services now stay request s = elim (Bool-cases services.has_api_key) [
  | inr k ↦ rw (k, run_agent) (omega arith)
  | inl k ↦ elim (Option-cases (load_context stay s.db)) [
    | inl e ↦ rw (k, e, run_agent) (omega arith)
    | inr (past, e) ↦
        let model = or_text s.db.config.llm_model services.default_model in
        rw (k, e, run_agent)
          (iterate-streams services now stay request model max_iterations 1
            (ChatMessage.system_prompt ∷ past)
            (publish services now stay request model Payload.thinking s))
  ]
]
