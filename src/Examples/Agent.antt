-- ===== src/Examples/Agent.antt =====
-- kiosk_agent/core/agent_engine.py and tasks.py with a model that answers at once.
use local_voice_agent.Prelude.{
  ◌≡◌, refl, ◌⊎◌, true, false, none, some, List, [], ◌∷◌, nat_eq, string_eq, option_eq, first,
  strip, concat,
}
use local_voice_agent.Models.{is_queued, KioskMessage}
use local_voice_agent.Chat.Store.{create_message}
use local_voice_agent.Agent.Buffers.{Chunk, collect, add_deltas, call_deltas, text_of, empty_buffer}
use local_voice_agent.Agent.Buffers.Assembly.{buffer_of, joined, IsAbove, collect_lem}
use local_voice_agent.Agent.Run.{
  Services, Agent, Ran, returned, run_agent, iterate, load_context, finish, save_message,
  save_answer, create_saved, open_stream,
}
use local_voice_agent.Agent.Run.Answer.{Answered, run_agent-Answered}
use local_voice_agent.Agent.Run.Limit.{run_agent-streams}
use local_voice_agent.Prelude.{◌≤◌}
use local_voice_agent.Agent.Task.{Worker, is_request, run_concierge_task, retry, ignored}
use local_voice_agent.Agent.Task.Settled.{Claimed, run_concierge_task_settled}
use local_voice_agent.Examples.Data.{db, echo}

abbrev hello : List Chunk
hello = record { content = "Hel"; calls = [] } ∷ record { content = "lo"; calls = [] } ∷ []

abbrev pub services : Services
services = record {
  has_api_key = true;
  default_model = "gpt-4o-mini";
  stream = λ model messages d. (record { chunks = hello; broken = false }, d);
  tools = echo;
  answer_metadata = λ model iteration. [];
  meanwhile = λ m d. d;
}

abbrev pub start : Agent
start = record { db = db; published = []; streams = 0 }

abbrev pub worker : Worker
worker = record {
  services = services;
  speech_raises = λ text. true;
  started_details = [];
  failed_details = [];
  before_claim = λ d. d;
}

program : Unit {0}
unfolding run_agent iterate load_context finish save_answer save_message create_saved create_message
    open_stream collect add_deltas call_deltas text_of strip concat
program = tt

abbrev result : Ran × Agent
result = run_agent services 20 1 7 start

answers : result ≡ (returned "Hello", result.1)
unfolding program
answers = refl

run_agent-Answered_example : Answered services 20 1 7 "Hello" result.1
run_agent-Answered_example =
    run_agent-Answered services 20 1 7 (λ m d. refl) "Hello" start result.1 answers

run_concierge_task_settled_example :
    let r = run_concierge_task worker 20 1 7 start in
    let found = first (is_request 1 7) db.messages in
    ((found ≡ none) × (r ≡ (retry, start)))
    ⊎ ((m : KioskMessage) × (found ≡ some m)
        × (is_queued m.status ≡ false)
        × (r ≡ (ignored, start)))
    ⊎ ((m : KioskMessage) × (found ≡ some m)
        × (is_queued m.status ≡ true)
        × Claimed worker 20 1 7 start r)
run_concierge_task_settled_example = run_concierge_task_settled worker 20 1 7 start

-- Two calls whose arguments arrive by turns
abbrev two_calls : List Chunk
two_calls =
    record {
      content = "";
      calls =
          record { index = 1; id = "b"; name = "control_lg_tv"; arguments = "{" }
          ∷ record { index = 0; id = "a"; name = "list_remote_controls"; arguments = "{" }
          ∷ [];
    }
    ∷ record {
      content = "";
      calls =
          record { index = 1; id = ""; name = ""; arguments = "}" }
          ∷ record { index = 0; id = ""; name = ""; arguments = "}" }
          ∷ [];
    }
    ∷ []

collect_lem_example :
    (buffer_of 1 (collect two_calls) ≡ joined 1 (call_deltas two_calls) empty_buffer)
    × IsAbove 0 (collect two_calls)
collect_lem_example = collect_lem 1 two_calls

run_agent-streams_example : (run_agent services 20 1 7 start).1.streams ≤ 5
run_agent-streams_example = run_agent-streams services 20 1 7 start
