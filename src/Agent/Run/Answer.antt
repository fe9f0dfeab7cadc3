-- ===== src/Agent/Run/Answer.antt =====
-- What an answer leaves behind.
use local_voice_agent.Prelude.{
  ℕ, zero, suc, ◌+◌, String, ◌≡◌, refl, sym, ◌∙◌, subst, ◌⊎◌, inl, inr, true, false, Option, none,
  some, List, [], ◌∷◌, ◌++◌, arith, Bool-cases, Option-cases, ◌==◌, nat_eq, string_eq, option_eq,
  any, is_text, or_text, strip,
}
use local_voice_agent.Models.{Db, Time, Uuid, is_assistant, is_complete, KioskMessage}
use local_voice_agent.Channel.{Published, Payload}
use local_voice_agent.Chat.Store.{create_message, clashes}
use local_voice_agent.Agent.Buffers.{Buffers, collect, text_of}
use local_voice_agent.Agent.Run.{
  Services, Agent, Ran, returned, ChatMessage, Stream, save_message, save_answer, create_saved,
  raised, publish, answer_message, finish, called, chosen, streamed, open_stream, iterate,
  run_calls, run_agent, load_context, max_iterations,
}

module _ (services : Services) (now : Time) (stay request : Uuid) where
  -- The answer is stored and published, or the stay is over and that is published.
  abbrev pub Answered : String → Agent → Type 0
  Answered text after =
      ((rows : List KioskMessage) × (events : List Published) × (row : KioskMessage)
        × (after.db.messages ≡ rows ++ row ∷ [])
        × (after.published
            ≡ events
              ++ record {
                stay_id = stay;
                request_id = some request;
                payload = Payload.completed row.pk text;
              }
                ∷ [])
        × (row.content ≡ text)
        × (row.stay_id ≡ stay)
        × (row.request_id ≡ request)
        × (is_assistant row.role ≡ true)
        × (is_complete row.status ≡ true)
        × ((after.db.config.current_stay_id == stay) ≡ true)
        × (is_text (strip text) ≡ true))
      ⊎ ((events : List Published) × (text ≡ "")
          × ((after.db.config.current_stay_id == stay) ≡ false)
          × (after.published
              ≡ events
                ++ record { stay_id = stay; request_id = some request; payload = Payload.cancelled }
                  ∷ []))

  -- Other processes do not move the stay between the two statements of `_save_message`.
  abbrev pub KeepsStay : Type 0
  KeepsStay = (m : KioskMessage) (db : Db) → (services.meanwhile m db).config ≡ db.config

  -- What a run that has ended leaves behind
  abbrev Ended : Ran × Agent → Type 0
  Ended (returned text, after) = Answered text after
  Ended (raised, after) = Unit

  module _ (keeps : KeepsStay) (model : String) where
    finish-Answered :
        (iteration : ℕ) (text reply : String) (s after : Agent)
        → finish services now stay request model iteration text s ≡ (returned reply, after)
        → Answered reply after
    unfolding finish save_answer save_message create_saved create_message
    finish-Answered iteration text reply s after h =
        let m = answer_message services now stay request model iteration text in
        let seen = services.meanwhile m s.db in
        let same = keeps m s.db in
        elim (Bool-cases (is_text (strip text))) [
          | inr t ↦ absurd (ground arith)
          | inl t ↦ elim (Bool-cases (s.db.config.current_stay_id == stay)) [
            | inr c ↦ inr (s.published, ground arith, ground arith, ground arith)
            | inl c ↦ elim (Bool-cases (any (clashes m) seen.messages)) [
              | inl k ↦ absurd (ground arith)
              | inr k ↦
                  let row : KioskMessage = record m { pk = seen.next_message; created_at = now } in
                  let end : Agent =
                    publish services now stay request model (Payload.completed row.pk text)
                      (record s {
                        db = record seen {
                          messages = seen.messages ++ row ∷ [];
                          next_message = seen.next_message + 1;
                        };
                      }) in
                  let ran : finish services now stay request model iteration text s
                      ≡ (returned text, end) =
                    rw (t, c, k) refl in
                  let whole : (returned text, end) ≡ (returned reply, after) = sym ran ∙ h in
                  subst (λ (r : Ran × Agent). Ended r) whole
                    (inl (
                      seen.messages,
                      s.published,
                      row,
                      refl,
                      refl,
                      refl,
                      refl,
                      refl,
                      refl,
                      refl,
                      rw same c,
                      t,
                    ))
            ]
          ]
        ]

    called-Answered :
        (next : List ChatMessage → Agent → Ran × Agent) (messages : List ChatMessage)
        (text reply : String) (buffers : Buffers) (r : Option (List ChatMessage) × Agent)
        (after : Agent)
        → ((ms : List ChatMessage) (s : Agent)
            → next ms s ≡ (returned reply, after)
            → Answered reply after)
        → called services now stay request model next messages text buffers r
          ≡ (returned reply, after)
        → Answered reply after
    unfolding called
    called-Answered next messages text reply buffers (none, s) after n h = absurd (ground arith)
    called-Answered next messages text reply buffers (some ms, s) after n h = n _ _ h

    chosen-Answered :
        (next : List ChatMessage → Agent → Ran × Agent) (iteration : ℕ)
        (messages : List ChatMessage) (text reply : String) (buffers : Buffers) (s after : Agent)
        → ((ms : List ChatMessage) (s : Agent)
            → next ms s ≡ (returned reply, after)
            → Answered reply after)
        → chosen services now stay request model next iteration messages text buffers s
          ≡ (returned reply, after)
        → Answered reply after
    unfolding chosen
    chosen-Answered next iteration messages text reply [] s after n h =
        finish-Answered iteration text reply s after h
    chosen-Answered next iteration messages text reply (c ∷ calls) s after n h =
        called-Answered next messages text reply (c ∷ calls)
          (run_calls services now stay request model (c ∷ calls) s) after n h

    streamed-Answered :
        (next : List ChatMessage → Agent → Ran × Agent) (iteration : ℕ)
        (messages : List ChatMessage) (reply : String) (o : Stream × Agent) (after : Agent)
        → ((ms : List ChatMessage) (s : Agent)
            → next ms s ≡ (returned reply, after)
            → Answered reply after)
        → streamed services now stay request model next iteration messages o
          ≡ (returned reply, after)
        → Answered reply after
    unfolding streamed
    streamed-Answered next iteration messages reply (stream, s) after n h =
        elim (Bool-cases stream.broken) [
          | inl b ↦ absurd (ground arith)
          | inr b ↦
              chosen-Answered next iteration messages (text_of stream.chunks) reply
                (collect stream.chunks) s after n (rw b at h)
        ]

    iterate-Answered :
        (left iteration : ℕ) (messages : List ChatMessage) (reply : String) (s after : Agent)
        → iterate services now stay request model left iteration messages s
          ≡ (returned reply, after)
        → Answered reply after
    unfolding iterate
    iterate-Answered zero iteration messages reply s after h = absurd (ground arith)
    iterate-Answered (suc left) iteration messages reply s after h =
        streamed-Answered _ iteration messages reply
          (open_stream services now stay request model messages s) after
          (λ ms t e. iterate-Answered left (iteration + 1) ms reply t after e) h

  -- If no other process moves the stay between the check and the row of `_save_message`: a run that
  -- returns ends in the current stay, has stored its text as the newest message, a complete answer of
  -- the assistant to this request, and has published it last under the key of that row; or it ends
  -- after the stay is over, returns a blank text, and has published last that the request is
  -- cancelled. Other processes may write anything while the model answers.
  pub run_agent-Answered :
      KeepsStay
      → (text : String) (s after : Agent)
      → run_agent services now stay request s ≡ (returned text, after)
      → Answered text after
  unfolding run_agent
  run_agent-Answered keeps text s after h = elim (Bool-cases services.has_api_key) [
    | inr k ↦ absurd (ground arith)
    | inl k ↦ elim (Option-cases (load_context stay s.db)) [
      | inl e ↦ absurd (ground arith)
      | inr (history, e) ↦
          let model = or_text s.db.config.llm_model services.default_model in
          iterate-Answered keeps model max_iterations 1 (ChatMessage.system_prompt ∷ history) text
            (publish services now stay request model Payload.thinking s) after (ground arith)
    ]
  ]
