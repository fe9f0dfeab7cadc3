-- ===== src/Ac/Sync/Applied.antt =====
-- What a report of the ESP32 changes.
use local_voice_agent.Prelude.{
  ℕ, ◌≤◌, ◌<◌, ◌≡◌, refl, subst, ◌⊎◌, inl, inr, Bool, true, false, some, arith, ltb, Bool-cases,
  Option-cases, nat_eq, string_eq, option_eq, All,
}
use local_voice_agent.Value.{Dict, as_dict, lookup, get, Runtime}
use local_voice_agent.Models.{RemoteControl, AcState, Db}
use local_voice_agent.Ac.Protocol.{ac_state_fields}
use local_voice_agent.Ac.Validate.{Result-cases, ok, validate_state_values}
use local_voice_agent.Ac.Response.{names_device}
use local_voice_agent.Ac.Response.Laws.{IsComplete, validate-IsComplete, set_attrs-IsComplete}
use local_voice_agent.Ac.Control.{get_or_create_state, create_state, save_state}
use local_voice_agent.Ac.Sync.{
  Report, checked_report, find_ac, apply_report, accept_esp32_state_sync,
}

-- A report holds a complete state.
pub checked_report-IsComplete :
    (payload : Dict) (report : Report)
    → checked_report payload ≡ ok report
    → IsComplete report.state
unfolding checked_report
checked_report-IsComplete payload report h = elim (Option-cases (as_dict (get "state" payload))) [
  | inl e ↦ absurd (ground arith)
  | inr (d, e) ↦ elim (Result-cases (validate_state_values true d)) [
    | inr (x, v) ↦ absurd (ground arith)
    | inl (values, v) ↦
        subst IsComplete (ground arith) (validate-IsComplete (get "state" payload) d values e v)
  ]
]

-- How the stored row and the database come out of a report that was accepted
abbrev pub Outcome : Report → ℕ → AcState → AcState → Bool → Db → Db → Type 0
Outcome report device old state applied db after =
    ((applied ≡ false)
      × (report.version < old.state_version)
      × (state ≡ old)
      × (after ≡ create_state device db))
    ⊎ ((applied ≡ true)
        × (old.state_version ≤ report.version)
        × (state.state_version ≡ report.version)
        × All (λ f. lookup f report.state ≡ some (state.attrs f)) ac_state_fields
        × (after ≡ save_state state db))

apply_report-Outcome :
    (payload : Dict) (report : Report) (device : ℕ) (old : AcState) (db : Db)
    → IsComplete report.state
    → Outcome report device old
        (apply_report payload report device old db).0.0
        (apply_report payload report device old db).0.1
        db
        (apply_report payload report device old db).1
unfolding apply_report
apply_report-Outcome payload report device old db c =
    elim (Bool-cases (ltb report.version old.state_version)) [
      | inl t ↦ inl (ground arith, ground arith, ground arith, ground arith)
      | inr t ↦
          rw t (inr (refl, ground arith, refl, set_attrs-IsComplete old.attrs report.state c, refl))
    ]

-- A report that is accepted is that of the one air conditioner of its name, with the brand, protocol
-- and model that are stored. A report older than the stored version changes nothing; any other
-- leaves its version and its twelve values in the stored row. So the version never falls.
pub accept_esp32_state_sync_outcome :
    (runtime : Runtime) (payload : Dict) (db after : Db) (state : AcState) (applied : Bool)
    → accept_esp32_state_sync runtime payload db ≡ ok ((state, applied), after)
    → (report : Report) × (device : RemoteControl) × (checked_report payload ≡ ok report)
      × (find_ac report.name db ≡ ok device)
      × (names_device runtime payload device ≡ true)
      × Outcome report device.pk (get_or_create_state device.pk db) state applied db after
unfolding accept_esp32_state_sync
accept_esp32_state_sync_outcome runtime payload db after state applied h =
    elim (Result-cases (checked_report payload)) [
      | inr (e, c) ↦ absurd (ground arith)
      | inl (report, c) ↦ elim (Result-cases (find_ac report.name db)) [
        | inr (e, f) ↦ absurd (ground arith)
        | inl (device, f) ↦ elim (Bool-cases (names_device runtime payload device)) [
          | inr n ↦ absurd (ground arith)
          | inl n ↦
              let old = get_or_create_state device.pk db in
              let e : ok (apply_report payload report device.pk old db)
                  ≡ ok ((state, applied), after) =
                ground arith in
              (
                report,
                device,
                c,
                f,
                n,
                subst
                    (λ (r : (AcState × Bool) × Db). Outcome report device.pk old r.0.0 r.0.1 db r.1)
                    (ground arith)
                    (apply_report-Outcome payload report device.pk old db
                      (checked_report-IsComplete payload report c)),
              )
        ]
      ]
    ]
