-- ===== src/Agent/Run.antt =====
-- kiosk_agent/core/agent_engine.py: `run_agent`.
pub mod Answer
pub mod Limit
pub mod Steps
use local_voice_agent.Prelude.{
  ℕ, zero, suc, ◌+◌, String, Bool, not, ◌&&◌, ◌||◌, Option, none, some, List, [], ◌∷◌, ◌++◌, map,
  true, false, leb, if◌then◌else◌, ◌==◌, nat_eq, string_eq, option_eq, length, select, is_text,
  or_text, strip,
}
use local_voice_agent.Value.{Dict}
use local_voice_agent.Models.{
  Time, Uuid, Role, is_user, is_assistant, Status, is_failed, KioskMessage, Db,
}
use local_voice_agent.Channel.{Published, Payload, ToolStatus}
use local_voice_agent.Chat.Store.{create_message}
use local_voice_agent.Tools.Runner.{ToolReply, ToolRunner}
use local_voice_agent.Agent.Buffers.{Chunk, ToolCallBuffer, Buffers, collect, text_of}

-- The messages that the model gets
pub data ChatMessage : Type 0 where
  system_prompt : ChatMessage
  conversation : Role → String → ChatMessage
  assistant_calls : String → Buffers → ChatMessage
  tool_result : String → String → ChatMessage

-- A stream of the provider: its chunks, and whether it ends in an exception
pub record Stream : Type 0 where
  pub chunks : List Chunk
  pub broken : Bool

-- What a run takes from outside: the settings, the provider with what other processes write to the
-- database in the meantime, the tools, the metadata that is stored with an answer, and what other
-- processes write between the two statements of `_save_message`.
pub record Services : Type 0 where
  pub has_api_key : Bool
  pub default_model : String
  pub stream : (model : String) (messages : List ChatMessage) → Db → Stream × Db
  pub tools : ToolRunner
  pub answer_metadata : (model : String) (iteration : ℕ) → Dict
  pub meanwhile : KioskMessage → Db → Db

-- The database, what was published, and how many streams were opened
pub record Agent : Type 0 where
  pub db : Db
  pub published : List Published
  pub streams : ℕ

pub data Ran : Type 0 where
  returned : String → Ran
  raised : Ran

abbrev pub max_iterations : ℕ
max_iterations = 5

abbrev pub history_limit : ℕ
history_limit = 40

-- The rows of the history: `failed` ones are left out.
abbrev pub is_history : Uuid → KioskMessage → Bool
is_history stay m =
    m.stay_id == stay && (is_user m.role || is_assistant m.role) && not (is_failed m.status)

-- The last `n` elements
abbrev pub take_last {ℓ} : {A : Type ℓ} → ℕ → List A → List A
take_last n [] = []
take_last n (x ∷ xs) = let rest = take_last n xs in if leb n (length xs) then rest else x ∷ xs

-- `_load_context`: `none` is the exception for a stay that is over.
unfoldable pub load_context : Uuid → Db → Option (List ChatMessage)
load_context stay db =
    if db.config.current_stay_id == stay
    then some (
        map (λ m. ChatMessage.conversation m.role m.content)
          (take_last history_limit (select (is_history stay) db.messages)))
    else none

pub data Saved : Type 0 where
  stay_over : Saved
  integrity_error : Db → Saved
  saved : KioskMessage → Db → Saved

abbrev pub created : Db → Option (KioskMessage × Db) → Saved
created db none = integrity_error db
created db (some (row, after)) = saved row after

-- `KioskMessage.objects.create` of `_save_message`
unfoldable pub create_saved : Time → KioskMessage → Db → Saved
unfolding create_message
create_saved now m db = created db (create_message now m db)

-- `_save_message`: the stay is read and the row is created without a lock between them, so other
-- processes may write `meanwhile`.
unfoldable pub save_message : (Db → Db) → Time → KioskMessage → Db → Saved
unfolding create_saved
save_message meanwhile now m db =
    if db.config.current_stay_id == m.stay_id then create_saved now m (meanwhile db) else stay_over

module _ (services : Services) (now : Time) (stay request : Uuid) (model : String) where
  abbrev pub publish : Payload → Agent → Agent
  publish payload s = record s {
    published =
        s.published ++ record { stay_id = stay; request_id = some request; payload = payload } ∷ [];
  }

  -- The tokens of a stream
  publish_tokens : List Chunk → Agent → Agent
  publish_tokens [] s = s
  publish_tokens (c ∷ cs) s =
      publish_tokens cs (if is_text c.content then publish (Payload.token c.content) s else s)

  abbrev pub answer_message : ℕ → String → KioskMessage
  answer_message iteration text = record {
    pk = 0;
    stay_id = stay;
    request_id = request;
    role = Role.assistant;
    content = text;
    status = Status.complete;
    tool_name = "";
    tool_call_id = "";
    event_id = none;
    sequence = none;
    metadata = services.answer_metadata model iteration;
    created_at = 0;
  }

  abbrev pub tool_message : ToolCallBuffer → String → KioskMessage
  tool_message call content = record {
    pk = 0;
    stay_id = stay;
    request_id = request;
    role = Role.tool;
    content = content;
    status = Status.complete;
    tool_name = call.name;
    tool_call_id = call.id;
    event_id = none;
    sequence = none;
    metadata = [];
    created_at = 0;
  }

  -- `_save_message` of the answer
  unfoldable pub save_answer : ℕ → String → Db → Saved
  unfolding save_message
  save_answer iteration text db =
      let m = answer_message iteration text in save_message (services.meanwhile m) now m db

  -- What follows `_save_message` of the answer
  abbrev pub finished : String → Agent → Saved → Ran × Agent
  finished text s stay_over = (returned "", publish Payload.cancelled s)
  finished text s (integrity_error db) = (raised, record s { db = db })
  finished text s (saved row after) =
      (returned text, publish (Payload.completed row.pk text) (record s { db = after }))

  -- The answer without a call of a tool
  unfoldable pub finish : ℕ → String → Agent → Ran × Agent
  unfolding save_answer strip
  finish iteration text s =
      if not (is_text (strip text))
      then (raised, s)
      else finished text s (save_answer iteration text s.db)

  -- `_save_message` of a tool's result: whether it returns, and the database
  abbrev pub stored_result : Db → Saved → Bool × Db
  stored_result db stay_over = (true, db)
  stored_result db (integrity_error seen) = (false, seen)
  stored_result db (saved row after) = (true, after)

  store_result : KioskMessage → Db → Bool × Db
  unfolding save_message
  store_result m db = stored_result db (save_message (services.meanwhile m) now m db)

  -- The stored result is published, or the exception goes on.
  published_result : ToolCallBuffer → ToolReply → Agent → Bool × Db → Option ChatMessage × Agent
  published_result call reply s (false, after) = (none, record s { db = after })
  published_result call reply s (true, after) = (
    some (ChatMessage.tool_result call.id reply.content),
    publish
        (Payload.tool_status call.name
          (if reply.ok then ToolStatus.complete else ToolStatus.failed))
        (record s { db = after }),
  )

  replied : ToolCallBuffer → Agent → Option ToolReply × Db → Option ChatMessage × Agent
  unfolding store_result published_result
  replied call s (none, after) = (none, record s { db = after })
  replied call s (some reply, after) =
      published_result call reply s (store_result (tool_message call reply.content) after)

  -- One call of a tool: its message, or the exception
  run_call : ToolCallBuffer → Agent → Option ChatMessage × Agent
  unfolding replied
  run_call call s =
      let running = publish (Payload.tool_status call.name ToolStatus.running) s in
      replied call running (services.tools.execute call.name call.arguments stay request running.db)

  with_message : ChatMessage → Option (List ChatMessage) × Agent → Option (List ChatMessage) × Agent
  with_message m (none, s) = (none, s)
  with_message m (some ms, s) = (some (m ∷ ms), s)

  -- The message of a call, and those of the calls after it
  continue_calls :
      (Agent → Option (List ChatMessage) × Agent)
      → Option ChatMessage × Agent
      → Option (List ChatMessage) × Agent
  unfolding with_message
  continue_calls more (none, after) = (none, after)
  continue_calls more (some m, after) = with_message m (more after)

  run_calls : Buffers → Agent → Option (List ChatMessage) × Agent
  unfolding run_call continue_calls
  run_calls [] s = (some [], s)
  run_calls ((i, call) ∷ calls) s =
      continue_calls (λ after. run_calls calls after) (run_call call s)

  -- One stream of the model, published as it comes
  unfoldable pub open_stream : List ChatMessage → Agent → Stream × Agent
  unfolding publish_tokens
  open_stream messages s =
      let (stream, db) = services.stream model messages s.db in
      (stream, publish_tokens stream.chunks (record s { db = db; streams = s.streams + 1 }))

  -- The next iteration, with the results of the calls, unless one of them raised
  called :
      (List ChatMessage → Agent → Ran × Agent)
      → List ChatMessage
      → String
      → Buffers
      → Option (List ChatMessage) × Agent
      → Ran × Agent
  called next messages text buffers (none, after) = (raised, after)
  called next messages text buffers (some results, after) =
      next (messages ++ ChatMessage.assistant_calls text buffers ∷ results) after

  -- The answer, or the calls and the next iteration
  chosen :
      (List ChatMessage → Agent → Ran × Agent)
      → ℕ
      → List ChatMessage
      → String
      → Buffers
      → Agent
      → Ran × Agent
  unfolding called run_calls
  chosen next iteration messages text [] s = finish iteration text s
  chosen next iteration messages text (call ∷ calls) s =
      called next messages text (call ∷ calls) (run_calls (call ∷ calls) s)

  streamed :
      (List ChatMessage → Agent → Ran × Agent) → ℕ → List ChatMessage → Stream × Agent → Ran × Agent
  unfolding chosen collect text_of
  streamed next iteration messages (stream, s) =
      if stream.broken
      then (raised, s)
      else chosen next iteration messages (text_of stream.chunks) (collect stream.chunks) s

  -- The iterations: how many are left, and the number of the next one
  unfoldable pub iterate : ℕ → ℕ → List ChatMessage → Agent → Ran × Agent
  unfolding streamed open_stream
  iterate zero iteration messages s = (raised, s)
  iterate (suc left) iteration messages s =
      streamed (λ ms after. iterate left (iteration + 1) ms after) iteration messages
        (open_stream messages s)

-- `run_agent`
unfoldable pub run_agent : Services → Time → Uuid → Uuid → Agent → Ran × Agent
unfolding load_context iterate
run_agent services now stay request s =
    if not services.has_api_key then (raised, s) else elim (load_context stay s.db) [
      | none ↦ (raised, s)
      | some history ↦
          let model = or_text s.db.config.llm_model services.default_model in
          iterate services now stay request model max_iterations 1
            (ChatMessage.system_prompt ∷ history)
            (publish services now stay request model Payload.thinking s)
    ]
