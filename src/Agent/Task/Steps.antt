-- ===== src/Agent/Task/Steps.antt =====
-- A task of the worker writes in steps of the system.
use local_voice_agent.Prelude.{
  refl, inl, inr, Bool, true, false, some, [], Bool-cases, Option-cases, nat_eq, string_eq,
  option_eq, first,
}
use local_voice_agent.Models.{Db, Time, Uuid, Status, is_queued, Event}
use local_voice_agent.System.{claiming, settling, auditing, Reach, here, later, Reach-trans}
use local_voice_agent.Agent.Run.{Agent, Ran, returned, raised, run_agent}
use local_voice_agent.Agent.Run.Steps.{Interferes, run_agent-Reach}
use local_voice_agent.Agent.Task.{
  is_request, Worker, spoken, run_concierge_with_voice, concluded, is_claimable, claimed,
  run_concierge_task,
}

module _ (worker : Worker) (now : Time) (stay request : Uuid) where
  spoken-Reach : (r : Ran × Agent) → Reach r.1.db (spoken worker now stay request r).1.db
  unfolding spoken
  spoken-Reach (raised, s) = here
  spoken-Reach (returned text, s) = later here (settling stay request Status.complete refl)

  concluded-Reach : (r : Bool × Agent) → Reach r.1.db (concluded worker now stay request r).1.db
  unfolding concluded
  concluded-Reach (false, s) = later here (auditing stay (some request) Event.agent_completed [])
  concluded-Reach (true, s) =
      later (later here (settling stay request Status.failed refl))
        (auditing stay (some request) Event.agent_failed worker.failed_details)

  claimed-Reach :
      Interferes worker.services → (s : Agent) → Reach s.db (claimed worker now stay request s).1.db
  unfolding claimed run_concierge_with_voice
  claimed-Reach others s = elim (Bool-cases (is_claimable worker now stay request s.db)) [
    | inr c ↦ rw (c, claimed) here
    | inl c ↦
        rw (c, claimed)
          (Reach-trans
            (later (later here (claiming stay request))
              (auditing stay (some request) Event.agent_started worker.started_details))
            (Reach-trans (run_agent-Reach worker.services now stay request others _) (
              Reach-trans (spoken-Reach (run_agent worker.services now stay request _))
                (concluded-Reach (run_concierge_with_voice worker now stay request _)))))
  ]

  -- If the other processes write in steps of the system, before the claim, while the model answers and
  -- between the statements of `_save_message`, then the whole task of the worker is a sequence of steps.
  pub run_concierge_task-Reach :
      Interferes worker.services
      → ((db : Db) → Reach db (worker.before_claim db))
      → (s : Agent) → Reach s.db (run_concierge_task worker now stay request s).1.db
  unfolding run_concierge_task
  run_concierge_task-Reach others before s =
      elim (Option-cases (first (is_request stay request) s.db.messages)) [
        | inl e ↦ rw (e, run_concierge_task) here
        | inr (m, e) ↦ elim (Bool-cases (is_queued m.status)) [
          | inr q ↦ rw (e, run_concierge_task, q) here
          | inl q ↦
              rw (e, run_concierge_task, q)
                (Reach-trans (before s.db)
                  (claimed-Reach others (record s { db = worker.before_claim s.db })))
        ]
      ]
