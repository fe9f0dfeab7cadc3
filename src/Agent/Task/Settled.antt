-- ===== src/Agent/Task/Settled.antt =====
-- No request stays open after its task.
use local_voice_agent.Prelude.{
  ◌≡◌, refl, ◌⊎◌, inl, inr, Bool, true, false, none, some, List, [], ◌∷◌, arith, Bool-cases,
  Option-cases, nat_eq, string_eq, option_eq, first, any, update,
}
use local_voice_agent.Models.{Time, Uuid, Status, is_queued, is_open, KioskMessage, Event, Db}
use local_voice_agent.Chat.Store.{audit}
use local_voice_agent.Agent.Run.{Agent, Ran, returned, raised, run_agent}
use local_voice_agent.Agent.Task.{
  is_request, is_open_request, set_status, settle, TaskOutcome, retry, ignored, completed, failed,
  Worker, spoken, run_concierge_with_voice, concluded, lost_claim, is_claimable, claimed,
  run_concierge_task,
}

-- No row of the request is queued or streaming.
abbrev pub IsSettled : Uuid → Uuid → Db → Type 0
IsSettled stay request db = any (is_open_request stay request) db.messages ≡ false

settle-any :
    (stay request : Uuid) (status : Status) (messages : List KioskMessage)
    → is_open status ≡ false
    → any
        (is_open_request stay request)
        (update (is_open_request stay request) (set_status status) messages)
      ≡ false
settle-any stay request status [] h = refl
settle-any stay request status (m ∷ messages) h =
    elim (Bool-cases (is_open_request stay request m)) [
      | inl e ↦ ground (arith, settle-any stay request status messages h)
      | inr e ↦ ground (arith, settle-any stay request status messages h)
    ]

pub settle-IsSettled :
    (stay request : Uuid) (status : Status) (db : Db)
    → is_open status ≡ false
    → IsSettled stay request (settle stay request status db)
unfolding settle
settle-IsSettled stay request status db h = settle-any stay request status db.messages h

module _ (worker : Worker) (now : Time) (stay request : Uuid) where
  -- How the task ends: with its audit row last, and no open row of the request
  abbrev pub Concluded : TaskOutcome × Agent → Type 0
  Concluded (outcome, s) =
      IsSettled stay request s.db
      × (((outcome ≡ completed)
            × ((before : Db) × (s.db ≡ audit stay (some request) Event.agent_completed [] before)))
          ⊎ ((outcome ≡ failed)
              × ((before : Db) × (s.db
                    ≡ audit stay (some request) Event.agent_failed worker.failed_details before))))

  concluded-Concluded :
      (r : Bool × Agent)
      → (r.0 ≡ false → IsSettled stay request r.1.db)
      → Concluded (concluded worker now stay request r)
  unfolding concluded
  concluded-Concluded (false, s) h = (h refl, inl (refl, (s.db, refl)))
  concluded-Concluded (true, s) h =
      (settle-IsSettled stay request Status.failed s.db refl, inr (refl, (_, refl)))

  spoken-IsSettled :
      (r : Ran × Agent)
      → (spoken worker now stay request r).0 ≡ false
      → IsSettled stay request (spoken worker now stay request r).1.db
  unfolding spoken
  spoken-IsSettled (raised, s) h = absurd (ground arith)
  spoken-IsSettled (returned text, s) h = settle-IsSettled stay request Status.complete s.db refl

  run-Concluded :
      (s : Agent)
      → Concluded
          (concluded worker now stay request (run_concierge_with_voice worker now stay request s))
  unfolding run_concierge_with_voice
  run-Concluded s =
      concluded-Concluded _ (spoken-IsSettled (run_agent worker.services now stay request s))

  -- What the claim and the run amount to
  abbrev pub Claimed : Agent → TaskOutcome × Agent → Type 0
  Claimed s r =
      ((is_claimable worker now stay request s.db ≡ false) × (r ≡ (lost_claim, s)))
      ⊎ ((is_claimable worker now stay request s.db ≡ true) × Concluded r)

  claimed-Claimed : (s : Agent) → Claimed s (claimed worker now stay request s)
  unfolding claimed
  claimed-Claimed s = elim (Bool-cases (is_claimable worker now stay request s.db)) [
    | inl c ↦ rw (c, claimed) (inr (refl, run-Concluded _))
    | inr c ↦ rw (c, claimed) (inl (refl, refl))
  ]

  -- A task whose request is not there yet is tried again, and one whose request is not queued is
  -- ignored; both leave everything as it was. A task whose request is queued no more when it claims it
  -- leaves everything as the others left it. Any other task ends with no row of its request queued or
  -- streaming, and with the audit row of its outcome last, whatever the model, the tools, the
  -- speech and the other processes do.
  pub run_concierge_task_settled :
      (s : Agent)
      → let r = run_concierge_task worker now stay request s in
        let found = first (is_request stay request) s.db.messages in
        ((found ≡ none) × (r ≡ (retry, s)))
        ⊎ ((m : KioskMessage) × (found ≡ some m)
            × (is_queued m.status ≡ false)
            × (r ≡ (ignored, s)))
        ⊎ ((m : KioskMessage) × (found ≡ some m)
            × (is_queued m.status ≡ true)
            × Claimed (record s { db = worker.before_claim s.db }) r)
  unfolding run_concierge_task
  run_concierge_task_settled s =
      elim (Option-cases (first (is_request stay request) s.db.messages)) [
        | inl e ↦ inl (e, rw (e, run_concierge_task) refl)
        | inr (m, e) ↦ elim (Bool-cases (is_queued m.status)) [
          | inl q ↦ inr (inr (m, e, q, rw (e, run_concierge_task, q) (claimed-Claimed _)))
          | inr q ↦ inr (inl (m, e, q, rw (e, run_concierge_task, q) refl))
        ]
      ]
