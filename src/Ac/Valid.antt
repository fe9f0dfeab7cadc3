-- ===== src/Ac/Valid.antt =====
-- Every stored state of an air conditioner is valid, whatever the controllers answer.
use local_voice_agent.Prelude.{
  ℕ, String, ◌≡◌, refl, sym, subst, inl, inr, Bool, true, some, List, [], ◌∷◌, arith, eq_iff,
  Bool-cases, nat_eq, string_eq, option_eq, any, All, All-append, All-update,
}
use local_voice_agent.Value.{Value, Dict, lookup, Runtime}
use local_voice_agent.Models.{RemoteControl, AcState, Db}
use local_voice_agent.Ac.Protocol.{ac_state_fields}
use local_voice_agent.Ac.Validate.{Result, ok, err, is_valid_value}
use local_voice_agent.Ac.Validate.Laws.{all_valid}
use local_voice_agent.Ac.Http.{Request, Controller}
use local_voice_agent.Ac.Response.{apply_confirmed_state, set_attrs}
use local_voice_agent.Ac.Response.Laws.{
  IsComplete, set_attrs-IsComplete, parse_esp32_response-IsComplete,
}
use local_voice_agent.Ac.Control.{
  new_ac_state, create_state, save_state, commit, transmit, set_ac_state, get_or_create_state,
  is_state_of,
}
use local_voice_agent.Ac.Control.Stored.{ConfirmedBy, set_ac_state_cases, transmit-ConfirmedBy}
use local_voice_agent.Ac.Sync.{Report, accept_esp32_state_sync}
use local_voice_agent.Ac.Sync.Applied.{checked_report-IsComplete, accept_esp32_state_sync_outcome}

-- Each of the twelve fields has a value that fits it.
abbrev pub IsValidState : AcState → Type 0
IsValidState s = All (λ f. is_valid_value f (s.attrs f) ≡ true) ac_state_fields

abbrev pub AreValid : Db → Type 0
AreValid db = All IsValidState db.ac_states

lookup-valid :
    (f : String) (v : Value) (values : Dict)
    → all_valid values ≡ true
    → lookup f values ≡ some v
    → is_valid_value f v ≡ true
unfolding lookup
lookup-valid f v [] a h = absurd (ground arith)
lookup-valid f v ((g, w) ∷ values) a h = ground (arith, eq_iff g f, lookup-valid f v values)

confirmed-valid :
    (attrs : String → Value) (values : Dict) (names : List String)
    → all_valid values ≡ true
    → All (λ f. lookup f values ≡ some (attrs f)) names
    → All (λ f. is_valid_value f (attrs f) ≡ true) names
confirmed-valid attrs values [] a h = tt
confirmed-valid attrs values (f ∷ names) a h =
    (lookup-valid f (attrs f) values a h.0, confirmed-valid attrs values names a h.1)

save_state-AreValid :
    (state : AcState) (db : Db) → IsValidState state → AreValid db → AreValid (save_state state db)
unfolding save_state
save_state-AreValid state db v a = elim (Bool-cases (any (is_state_of state.device) db.ac_states)) [
  | inl e ↦
      rw e
        (All-update IsValidState (is_state_of state.device) (λ _. state) db.ac_states (λ s _. v) a)
  | inr e ↦ rw e (All-append IsValidState db.ac_states (state ∷ []) a (v, tt))
]

new_ac_state-valid : (device : ℕ) → IsValidState (new_ac_state device)
unfolding is_valid_value
new_ac_state-valid device = ground arith

create_state-AreValid : (device : ℕ) (db : Db) → AreValid db → AreValid (create_state device db)
unfolding create_state
create_state-AreValid device db a = elim (Bool-cases (any (is_state_of device) db.ac_states)) [
  | inl e ↦ rw e a
  | inr e ↦ rw e (
      All-append IsValidState db.ac_states (new_ac_state device ∷ []) a
        (new_ac_state-valid device, tt))
]

confirmation-valid :
    (runtime : Runtime) (controller : Controller) (device : RemoteControl) (old state : AcState)
    (sent : List Request)
    → ConfirmedBy runtime controller device old state sent
    → IsValidState state
unfolding apply_confirmed_state
confirmation-valid runtime controller device old state sent c =
    let i = parse_esp32_response-IsComplete runtime c.r device true c.confirmed c.parsed in
    subst IsValidState (sym c.stored) (
      confirmed-valid (set_attrs c.confirmed.state c.base.attrs) c.confirmed.state ac_state_fields
        i.valid (set_attrs-IsComplete c.base.attrs c.confirmed.state i))

commit-AreValid :
    (runtime : Runtime) (controller : Controller) (device : RemoteControl) (old : AcState) (db : Db)
    (r : Result AcState × List Request)
    → ((state : AcState)
        → r ≡ (ok state, r.1)
        → ConfirmedBy runtime controller device old state r.1)
    → AreValid db
    → AreValid (commit db r).1
unfolding commit
commit-AreValid runtime controller device old db (ok state, sent) h a =
    save_state-AreValid state db
      (confirmation-valid runtime controller device old state sent (h state refl)) a
commit-AreValid runtime controller device old db (err e, sent) h a = a

-- Every command keeps the stored states valid, whatever the controller answers: if each stored
-- state has a value that fits in each of its twelve fields, so has each one after the command.
pub set_ac_state-AreValid :
    (runtime : Runtime) (controller : Controller) (device_id : ℕ) (changes : Dict)
    (request_id : String) (db : Db)
    → AreValid db
    → AreValid (set_ac_state runtime controller device_id changes request_id db).1
set_ac_state-AreValid runtime controller device_id changes request_id db a =
    set_ac_state_cases runtime controller (λ r. AreValid r.1) device_id changes request_id db
      (λ e. a)
      λ device f v u.
        let old = get_or_create_state device.pk db in
        commit-AreValid runtime controller device old db
          (transmit runtime controller device request_id changes old [])
          (λ state h.
            transmit-ConfirmedBy runtime controller device request_id changes old state _ h)
          a

applied-valid :
    (report : Report) (state : AcState)
    → IsComplete report.state
    → All (λ f. lookup f report.state ≡ some (state.attrs f)) ac_state_fields
    → IsValidState state
applied-valid report state c h = confirmed-valid state.attrs report.state ac_state_fields c.valid h

-- Every report of an ESP32 that is accepted keeps the stored states valid.
pub accept_esp32_state_sync-AreValid :
    (runtime : Runtime) (payload : Dict) (db after : Db) (state : AcState) (applied : Bool)
    → accept_esp32_state_sync runtime payload db ≡ ok ((state, applied), after)
    → AreValid db
    → AreValid after
accept_esp32_state_sync-AreValid runtime payload db after state applied h a =
    let (report, device, c, f, n, o) =
      accept_esp32_state_sync_outcome runtime payload db after state applied h in
    elim o [
      | inl (x, l, s, e) ↦ subst AreValid (sym e) (create_state-AreValid device.pk db a)
      | inr (x, l, v, k, e) ↦ subst AreValid (sym e) (
          save_state-AreValid state db
            (applied-valid report state (checked_report-IsComplete payload report c) k) a)
    ]
