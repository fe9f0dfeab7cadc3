-- ===== src/Agent/Task.antt =====
-- kiosk_agent/tasks.py: `run_concierge_task`.
pub mod Settled
pub mod Steps
use local_voice_agent.Prelude.{
  ◌+◌, String, Bool, true, false, not, ◌&&◌, none, some, [], ◌∷◌, ◌++◌, if◌then◌else◌, ◌==◌, nat_eq,
  string_eq, option_eq, first, any, update, is_text,
}
use local_voice_agent.Value.{Dict}
use local_voice_agent.Models.{
  Time, Uuid, is_user, Status, is_queued, is_open, KioskMessage, Event, Db,
}
use local_voice_agent.Channel.{Payload}
use local_voice_agent.Chat.Store.{audit}
use local_voice_agent.Agent.Run.{Services, Agent, Ran, returned, raised, run_agent}

-- The rows of the request: what the guest asked
abbrev pub is_request : Uuid → Uuid → KioskMessage → Bool
is_request stay request m = m.stay_id == stay && m.request_id == request && is_user m.role

abbrev pub is_open_request : Uuid → Uuid → KioskMessage → Bool
is_open_request stay request m = is_request stay request m && is_open m.status

abbrev pub set_status : Status → KioskMessage → KioskMessage
set_status status m = record m { status = status }

-- Both updates of the rows that are queued or streaming: `_mark_request_complete`, and the one of
-- the exception handler
unfoldable pub settle : Uuid → Uuid → Status → Db → Db
settle stay request status db = record db {
  messages = update (is_open_request stay request) (set_status status) db.messages;
}

-- `request.filter(status=QUEUED).update(status=STREAMING)`
unfoldable pub claim : Uuid → Uuid → Db → Db
claim stay request db = record db {
  messages =
      update (λ m. is_request stay request m && is_queued m.status) (set_status Status.streaming)
        db.messages;
}

pub data TaskOutcome : Type 0 where
  retry : TaskOutcome
  ignored : TaskOutcome
  lost_claim : TaskOutcome
  completed : TaskOutcome
  failed : TaskOutcome

-- What the task takes from outside beside the services of the agent: whether the speech for a text
-- raises, the details of the audit rows, and what other processes write between the look at the
-- request and its claim
pub record Worker : Type 0 where
  pub services : Services
  pub speech_raises : String → Bool
  pub started_details : Dict
  pub failed_details : Dict
  pub before_claim : Db → Db

module _ (worker : Worker) (now : Time) (stay request : Uuid) where
  spoken : Ran × Agent → Bool × Agent
  unfolding settle
  spoken (raised, after) = (true, after)
  spoken (returned text, after) = (
    is_text text && worker.speech_raises text,
    record after { db = settle stay request Status.complete after.db },
  )

  -- `_run_concierge_with_voice`: whether it raises
  run_concierge_with_voice : Agent → Bool × Agent
  unfolding spoken
  run_concierge_with_voice s = spoken (run_agent worker.services now stay request s)

  -- The end of the task: the audit row, or the exception handler
  concluded : Bool × Agent → TaskOutcome × Agent
  unfolding settle
  concluded (false, s) =
      (completed, record s { db = audit stay (some request) Event.agent_completed [] s.db })
  concluded (true, s) = (
    failed,
    record s {
      db =
          audit stay (some request) Event.agent_failed worker.failed_details
            (settle stay request Status.failed s.db);
      published =
          s.published
          ++ record { stay_id = stay; request_id = some request; payload = Payload.failure } ∷ [];
    },
  )

  -- The claim updates some row.
  abbrev pub is_claimable : Db → Bool
  is_claimable db = any (λ m. is_request stay request m && is_queued m.status) db.messages

  -- The claim, and the run if it has found its row still queued
  claimed : Agent → TaskOutcome × Agent
  unfolding claim run_concierge_with_voice concluded
  claimed s =
      if is_claimable s.db
      then concluded (
          run_concierge_with_voice (record s {
            db =
                audit stay (some request) Event.agent_started worker.started_details
                  (claim stay request s.db);
          }))
      else (lost_claim, s)

  -- `run_concierge_task`
  unfoldable pub run_concierge_task : Agent → TaskOutcome × Agent
  unfolding claimed
  run_concierge_task s = elim (first (is_request stay request) s.db.messages) [
    | none ↦ (retry, s)
    | some m ↦
        if not (is_queued m.status)
        then (ignored, s)
        else claimed (record s { db = worker.before_claim s.db })
  ]
