-- ===== src/Ac/Control/Stored.antt =====
-- What `set_ac_state` stores, and what it refuses before anything is sent.
use local_voice_agent.Prelude.{
  ℕ, ◌+◌, ◌≤◌, String, ◌≡◌, sym, ap, ◌∙◌, subst, inl, inr, true, false, some, List, [], arith, ltb,
  Bool-cases, nat_eq, string_eq, option_eq, length, All,
}
use local_voice_agent.Value.{Dict, lookup, Runtime}
use local_voice_agent.Models.{RemoteControl, AcState, Db}
use local_voice_agent.Ac.Protocol.{ac_state_fields, protocol_capabilities}
use local_voice_agent.Ac.Validate.{
  Result-cases, Error, Result, ok, err, fail, invalid_state, validate_state_values,
}
use local_voice_agent.Ac.Validate.Laws.{validate-ok}
use local_voice_agent.Ac.Http.{>>=-eq-ok, Request, Response, response, Controller, lift, ◌>>=◌}
use local_voice_agent.Ac.Response.{Confirmed, parse_esp32_response, apply_confirmed_state}
use local_voice_agent.Ac.Response.Laws.{parse_esp32_response-IsComplete, set_attrs-IsComplete}
use local_voice_agent.Ac.Control.{
  get_or_create_state, save_state, checked_device, is_unsupported, controller_url, command_payload,
  confirm, exchange, transmit, commit, set_ac_state,
}
use local_voice_agent.Ac.Control.Exchange.{exchange-ok}

module _ (runtime : Runtime) (controller : Controller) where
  -- The answer to the last request confirms the state.
  pub record ConfirmedBy (device : RemoteControl) (old state : AcState) (sent : List Request)
      : Type 0 where
    pub r : Response
    pub base : AcState
    pub confirmed : Confirmed
    pub answer : controller sent ≡ response r
    pub parsed : parse_esp32_response runtime r device true ≡ ok confirmed
    pub stored : state ≡ apply_confirmed_state base confirmed
    pub monotone : old.state_version ≤ state.state_version
    pub few : length sent ≤ 3

  confirm-ok :
      (device : RemoteControl) (old base state : AcState) (r : Response)
      (before sent : List Request)
      → controller before ≡ response r
      → old.state_version ≤ base.state_version
      → length before ≤ 3
      → confirm runtime controller device (base, r) before ≡ (ok state, sent)
      → ConfirmedBy device old state sent
  unfolding confirm apply_confirmed_state
  confirm-ok device old base state r before sent a m l h =
      elim (Result-cases (parse_esp32_response runtime r device true)) [
        | inr (e, p) ↦ absurd (ground arith)
        | inl (confirmed, p) ↦ elim (Bool-cases (ltb confirmed.state_version base.state_version)) [
          | inl t ↦ absurd (ground arith)
          | inr t ↦ record {
            r = r;
            base = base;
            confirmed = confirmed;
            answer = ground arith;
            parsed = p;
            stored = ground arith;
            monotone = ground arith;
            few = ground arith;
          }
        ]
      ]

  after_exchange :
      (device : RemoteControl) (url : String) (payload : Dict) (old state : AcState)
      (answer : AcState × Response) (between sent : List Request)
      → exchange runtime controller device url payload old [] ≡ (ok answer, between)
      → confirm runtime controller device answer between ≡ (ok state, sent)
      → ConfirmedBy device old state sent
  after_exchange device url payload old state (base, r) between sent x c =
      let (a, m, l) = exchange-ok runtime controller device url payload old base r between x in
      confirm-ok device old base state r between sent a m l c

  pub transmit-ConfirmedBy :
      (device : RemoteControl) (request_id : String) (changes : Dict) (old state : AcState)
      (sent : List Request)
      → transmit runtime controller device request_id changes old [] ≡ (ok state, sent)
      → ConfirmedBy device old state sent
  unfolding transmit
  transmit-ConfirmedBy device request_id changes old state sent h =
      let payload = command_payload request_id device (old.state_version + 1) changes in
      let (url, s0, u, h0) =
        >>=-eq-ok (lift (controller_url device))
          (λ url.
            exchange runtime controller device url payload old
            >>= confirm runtime controller device)
          [] h in
      let (answer, s1, x, h1) =
        >>=-eq-ok (exchange runtime controller device url payload old)
          (confirm runtime controller device) s0 h0 in
      let start : s0 ≡ [] = ground arith in
      after_exchange device url payload old state answer s1 sent (rw start at x) h1

  -- A command that succeeds: the device passed every check, the changes are those of the request,
  -- and the ESP32 confirmed what is stored.
  pub record Succeeded (device_id : ℕ) (changes : Dict) (db : Db) (state : AcState)
      (sent : List Request) (after : Db) : Type 0 where
    pub device : RemoteControl
    pub found : checked_device device_id db ≡ ok device
    pub accepted : validate_state_values false changes ≡ ok changes
    pub supported : is_unsupported (protocol_capabilities device.protocol) changes ≡ false
    pub confirmation : ConfirmedBy device (get_or_create_state device.pk db) state sent
    pub saved : after ≡ save_state state db

  set_ac_state-transmit :
      (device_id : ℕ) (changes : Dict) (request_id : String) (db : Db) (device : RemoteControl)
      → checked_device device_id db ≡ ok device
      → validate_state_values false changes ≡ ok changes
      → is_unsupported (protocol_capabilities device.protocol) changes ≡ false
      → set_ac_state runtime controller device_id changes request_id db
        ≡ commit db (
            transmit runtime controller device request_id changes
              (get_or_create_state device.pk db)
              [])
  unfolding set_ac_state
  set_ac_state-transmit device_id changes request_id db device f a u = rw (f, a, u)

  commit-ok :
      (db after : Db) (r : Result AcState × List Request) (state : AcState) (sent : List Request)
      → commit db r ≡ ((ok state, sent), after)
      → (r ≡ (ok state, sent)) × (after ≡ save_state state db)
  unfolding commit
  commit-ok db after (ok state', sent') state sent h = ground arith
  commit-ok db after (err e, sent') state sent h = absurd (ground arith)

  set_ac_state-err-device :
      (device_id : ℕ) (changes : Dict) (request_id : String) (db : Db) (e : Error)
      → checked_device device_id db ≡ err e
      → set_ac_state runtime controller device_id changes request_id db ≡ ((err e, []), db)
  unfolding set_ac_state
  set_ac_state-err-device device_id changes request_id db e f = rw (f)

  set_ac_state-err-changes :
      (device_id : ℕ) (changes : Dict) (request_id : String) (db : Db) (device : RemoteControl)
      (e : Error)
      → checked_device device_id db ≡ ok device
      → validate_state_values false changes ≡ err e
      → set_ac_state runtime controller device_id changes request_id db ≡ ((err e, []), db)
  unfolding set_ac_state
  set_ac_state-err-changes device_id changes request_id db device e f a = rw (f, a)

  set_ac_state-unsupported :
      (device_id : ℕ) (changes : Dict) (request_id : String) (db : Db) (device : RemoteControl)
      → checked_device device_id db ≡ ok device
      → validate_state_values false changes ≡ ok changes
      → is_unsupported (protocol_capabilities device.protocol) changes ≡ true
      → set_ac_state runtime controller device_id changes request_id db
        ≡ ((fail invalid_state, []), db)
  unfolding set_ac_state
  set_ac_state-unsupported device_id changes request_id db device f a u = rw (f, a, u)

  pub set_ac_state_cases {ℓ} :
      (P : (Result AcState × List Request) × Db → Type ℓ) (device_id : ℕ) (changes : Dict)
      (request_id : String) (db : Db)
      → ((e : Error) → P ((err e, []), db))
      → ((device : RemoteControl)
          → checked_device device_id db ≡ ok device
          → validate_state_values false changes ≡ ok changes
          → is_unsupported (protocol_capabilities device.protocol) changes ≡ false
          → P (
              commit db (
                transmit runtime controller device request_id changes
                  (get_or_create_state device.pk db)
                  [])))
      → P (set_ac_state runtime controller device_id changes request_id db)
  set_ac_state_cases P device_id changes request_id db refused sent =
      elim (Result-cases (checked_device device_id db)) [
        | inr (e, f) ↦ rw (set_ac_state-err-device device_id changes request_id db e f) (refused e)
        | inl (device, f) ↦ elim (Result-cases (validate_state_values false changes)) [
          | inr (e, a) ↦
              rw (set_ac_state-err-changes device_id changes request_id db device e f a) (refused e)
          | inl (d, a) ↦
              let a' : validate_state_values false changes ≡ ok changes =
                a ∙ ap ok (validate-ok false changes d a).0 in
              elim (Bool-cases (is_unsupported (protocol_capabilities device.protocol) changes)) [
                | inl u ↦
                    rw (set_ac_state-unsupported device_id changes request_id db device f a' u)
                      (refused _)
                | inr u ↦
                    rw (set_ac_state-transmit device_id changes request_id db device f a' u)
                      (sent device f a' u)
              ]
        ]
      ]

  pub set_ac_state-Succeeded :
      (device_id : ℕ) (changes : Dict) (request_id : String) (db after : Db) (state : AcState)
      (sent : List Request)
      → set_ac_state runtime controller device_id changes request_id db ≡ ((ok state, sent), after)
      → Succeeded device_id changes db state sent after
  set_ac_state-Succeeded device_id changes request_id db after state sent =
      set_ac_state_cases
        (λ r. r ≡ ((ok state, sent), after) → Succeeded device_id changes db state sent after)
        device_id changes request_id db (λ e h. absurd (cc))
        λ device f a u h.
          let (t, s) =
            commit-ok db after
              (transmit runtime controller device request_id changes
                (get_or_create_state device.pk db) [])
              state sent h in
          record {
            device = device;
            found = f;
            accepted = a;
            supported = u;
            confirmation =
                transmit-ConfirmedBy device request_id changes (get_or_create_state device.pk db)
                  state sent t;
            saved = s;
          }

  -- A command that succeeds has stored what the ESP32 confirmed: its answer to the last of at most
  -- three requests reads as a complete state, all twelve fields and the version of the stored row
  -- are those of that state, and the version did not fall.
  pub set_ac_state_confirmed :
      (device_id : ℕ) (changes : Dict) (request_id : String) (db after : Db) (state : AcState)
      (sent : List Request)
      → set_ac_state runtime controller device_id changes request_id db ≡ ((ok state, sent), after)
      → (device : RemoteControl) × (r : Response) × (confirmed : Confirmed) × (checked_device
            device_id db
          ≡ ok device)
        × (controller sent ≡ response r)
        × (parse_esp32_response runtime r device true ≡ ok confirmed)
        × All (λ f. lookup f confirmed.state ≡ some (state.attrs f)) ac_state_fields
        × (state.state_version ≡ confirmed.state_version)
        × ((get_or_create_state device.pk db).state_version ≤ state.state_version)
        × (length sent ≤ 3)
        × (after ≡ save_state state db)
  unfolding apply_confirmed_state
  set_ac_state_confirmed device_id changes request_id db after state sent h =
      let s = set_ac_state-Succeeded device_id changes request_id db after state sent h in
      let c = s.confirmation in
      (
        s.device,
        c.r,
        c.confirmed,
        s.found,
        c.answer,
        c.parsed,
        subst
            (λ (t : AcState).
              All (λ f. lookup f c.confirmed.state ≡ some (t.attrs f)) ac_state_fields)
            (sym c.stored)
            (set_attrs-IsComplete c.base.attrs c.confirmed.state
              (parse_esp32_response-IsComplete runtime c.r s.device true c.confirmed c.parsed)),
        ap (λ (t : AcState). t.state_version) c.stored,
        c.monotone,
        c.few,
        s.saved,
      )
