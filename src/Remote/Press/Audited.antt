-- ===== src/Remote/Press/Audited.antt =====
-- What a press of a button writes.
use local_voice_agent.Prelude.{
  ℕ, code, String, ◌≡◌, refl, ◌∙◌, ◌⊎◌, inl, inr, Bool, true, false, ◌&&◌, Option, none, some, [],
  ◌∷◌, ltb, leb, Bool-cases, Option-cases, nat_eq, string_eq, option_eq,
}
use local_voice_agent.Value.{Value, Dict, as_dict}
use local_voice_agent.Models.{Uuid, Event, Db}
use local_voice_agent.Chat.Store.{audit}
use local_voice_agent.Ac.Http.{Response, Outcome, response, timed_out, http_error}
use local_voice_agent.Remote.Reply.{Verdict, parse_controller_payload, overflow_error}
use local_voice_agent.Remote.Press.{
  World, RemoteCode, Pressed, PressError, PressResult, Ready, done, refused, remote_error, uncaught,
  refuse, cooldown, load_pressable_button, is_cooling, succeeded, judged, handled, stay_of,
  press_remote_button,
}

module _ (stay : Uuid) (request : Option Uuid) (db : Db) where
  -- A row for a press that succeeded, a row for one that failed, or an exception that wrote nothing
  abbrev pub Recorded : Pressed PressResult × Db → Type 0
  Recorded r =
      ((v : PressResult) × (details : Dict) × (r
          ≡ (done v, audit stay request Event.remote_pressed details db)))
      ⊎ ((code : RemoteCode) × (http : Option ℕ) × (details : Dict) × (r ≡ (
        refused (remote_error code http),
        audit stay request Event.remote_failed details db,
      )))
      ⊎ (r ≡ (refused uncaught, db))

module _ (world : World) (source : String) (stay : Uuid) (request : Option Uuid) (ready : Ready)
    (db : Db) where
  succeeded-Recorded :
      (code : ℕ) (payload : Value)
      → Recorded stay request db (succeeded world source stay request ready db code payload)
  unfolding succeeded
  succeeded-Recorded code payload = elim (Option-cases (as_dict payload)) [
    | inl e ↦ rw (e, succeeded) (inr (inr refl))
    | inr (d, e) ↦ rw (e, succeeded) (inl (_, _, refl))
  ]

  judged-Recorded :
      (code : ℕ) (payload : Value)
      → Recorded stay request db (judged world source stay request ready db code payload)
  unfolding judged
  judged-Recorded code payload =
      go (parse_controller_payload world.runtime world.numbers payload) refl
    where
      go :
          (v : Verdict)
          → parse_controller_payload world.runtime world.numbers payload ≡ v
          → Recorded stay request db (judged world source stay request ready db code payload)
      go overflow_error e = rw (e, judged) (inr (inr refl))
      go (Verdict.failure s) e = rw (e, judged) (inr (inl (_, _, _, refl)))
      go (Verdict.success s) e = rw (e, judged) (succeeded-Recorded code payload)

  handled-Recorded :
      (o : Outcome) → Recorded stay request db (handled world source stay request ready db o)
  unfolding handled
  handled-Recorded timed_out = inr (inl (_, _, _, refl))
  handled-Recorded http_error = inr (inl (_, _, _, refl))
  handled-Recorded (response r) =
      elim (Bool-cases (leb 200 r.status_code && ltb r.status_code 300)) [
        | inl e ↦ rw (e, handled) (judged-Recorded r.status_code _)
        | inr e ↦ rw e (inr (inl (_, _, _, refl)))
      ]

  judged-not-object :
      (code : ℕ) (v : Value)
      → as_dict v ≡ none
      → judged world source stay request ready db code v ≡ (refused uncaught, db)
  unfolding judged succeeded parse_controller_payload
  judged-not-object code v n =
      let s : succeeded world source stay request ready db code v ≡ (refused uncaught, db) =
        rw (n, succeeded) refl in
      let p : parse_controller_payload world.runtime world.numbers v ≡ Verdict.success "success" =
        rw (n, parse_controller_payload) refl in
      rw (p, judged) s

  handled-not-object :
      (r : Response) (v : Value)
      → (leb 200 r.status_code && ltb r.status_code 300) ≡ true
      → r.json ≡ some v
      → as_dict v ≡ none
      → handled world source stay request ready db (response r) ≡ (refused uncaught, db)
  unfolding handled
  handled-not-object r v s j n = rw (s, handled, j) (judged-not-object r.status_code v n)

module _ (world : World) (button_id : ℕ) (source : String) (stay request : Option Uuid)
    (guest voice : Bool) (db : Db) where
  press-refused :
      (e : PressError)
      → load_pressable_button world button_id guest voice db ≡ refused e
      → press_remote_button world button_id source stay request guest voice db
        ≡ ((refused e, []), db)
  unfolding press_remote_button
  press-refused e h = rw (h, press_remote_button) refl

  press-cooling :
      (ready : Ready)
      → load_pressable_button world button_id guest voice db ≡ done ready
      → is_cooling world ready.button.pk ≡ true
      → press_remote_button world button_id source stay request guest voice db
        ≡ ((refuse cooldown, []), db)
  unfolding press_remote_button
  press-cooling ready h c = rw (h, press_remote_button, c) refl

  pub press-handled :
      (ready : Ready)
      → load_pressable_button world button_id guest voice db ≡ done ready
      → is_cooling world ready.button.pk ≡ false
      → press_remote_button world button_id source stay request guest voice db ≡ (
          let (result, after) =
            handled world source
              (stay_of stay db)
              request
              ready
              db
              (world.post ready.url ready.command) in
          ((result, (ready.url, ready.command) ∷ []), after))
  unfolding press_remote_button
  press-handled ready h c = rw (h, press_remote_button, c) refl

  pub press_remote_button_audited :
      let r = press_remote_button world button_id source stay request guest voice db in
      ((r.0.1 ≡ []) × (r.1 ≡ db) × ((e : PressError) × (r.0.0 ≡ refused e)))
      ⊎ ((ready : Ready) × (load_pressable_button world button_id guest voice db ≡ done ready)
          × (r.0.1 ≡ (ready.url, ready.command) ∷ [])
          × Recorded (stay_of stay db) request db (r.0.0, r.1))
  press_remote_button_audited = go (load_pressable_button world button_id guest voice db) refl
    where
      go :
          (l : Pressed Ready)
          → load_pressable_button world button_id guest voice db ≡ l
          → let r = press_remote_button world button_id source stay request guest voice db in
            ((r.0.1 ≡ []) × (r.1 ≡ db) × ((e : PressError) × (r.0.0 ≡ refused e)))
            ⊎ ((ready : Ready) × (load_pressable_button world button_id guest voice db ≡ done ready)
                × (r.0.1 ≡ (ready.url, ready.command) ∷ [])
                × Recorded (stay_of stay db) request db (r.0.0, r.1))
      go (refused e) h = rw (press-refused e h) (inl (refl, refl, (e, refl)))
      go (done ready) h = elim (Bool-cases (is_cooling world ready.button.pk)) [
        | inl c ↦ rw (press-cooling ready h c) (inl (refl, refl, (_, refl)))
        | inr c ↦ rw (press-handled ready h c) (
            inr (
              ready,
              h,
              refl,
              handled-Recorded world source (stay_of stay db) request ready db
                  (world.post ready.url ready.command),
            ))
      ]

  -- If the controller answers a press with a success status and JSON that is no object, the command
  -- was sent, but the press ends in an exception that is not caught, and nothing is recorded.
  pub press_remote_button_uncaught :
      (ready : Ready) (r : Response) (v : Value)
      → load_pressable_button world button_id guest voice db ≡ done ready
      → is_cooling world ready.button.pk ≡ false
      → world.post ready.url ready.command ≡ response r
      → (leb 200 r.status_code && ltb r.status_code 300) ≡ true
      → r.json ≡ some v
      → as_dict v ≡ none
      → press_remote_button world button_id source stay request guest voice db
        ≡ ((refused uncaught, (ready.url, ready.command) ∷ []), db)
  press_remote_button_uncaught ready r v h c a s j n =
      press-handled ready h c
      ∙ rw (a, handled-not-object world source (stay_of stay db) request ready db r v s j n) refl
