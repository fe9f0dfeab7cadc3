-- ===== src/Tools/Press/Confirmed.antt =====
-- What the model's press of a button sends.
use local_voice_agent.Prelude.{
  ℕ, String, ◌≡◌, refl, sym, ap, ◌∙◌, inl, inr, Bool, true, false, not, ◌&&◌, some, List, [], ◌∷◌,
  map, arith, Bool-cases, nat_eq, string_eq, option_eq, first,
}
use local_voice_agent.Models.{Uuid, is_ac, Db}
use local_voice_agent.Remote.Press.{
  Pressed, done, refused, Ready, load_pressable_button, is_active_button,
}
use local_voice_agent.Remote.Press.Audited.{press_remote_button_audited}
use local_voice_agent.Remote.Press.Guarded.{MayPress, load-MayPress}
use local_voice_agent.Tools.Reply.{Outside, Sent, ir_command, stay_matches}
use local_voice_agent.Tools.Press.{
  valid_confirmation_token, press_ready, confirm_and_press, press_remote_button_tool,
}

pub first-sat {ℓ} :
    {A : Type ℓ} (p : A → Bool) (xs : List A) (a : A) → first p xs ≡ some a → p a ≡ true
first-sat p [] a h = absurd (ground arith)
first-sat p (x ∷ xs) a h = elim (Bool-cases (p x)) [
  | inl e ↦ let same : x ≡ a = ground arith in rw same at e
  | inr e ↦ first-sat p xs a (rw e at h)
]

module _ (outside : Outside) (button_id : ℕ) (token : String) (stay request : Uuid) (db : Db) where
  -- A command that the guest may give, and has confirmed where it needs that
  pub record MaySend (x : Sent) (more : List Sent) : Type 0 where
    pub current : stay_matches stay db ≡ true
    pub ready : Ready
    pub may_press : MayPress outside.world button_id false true db ready
    pub no_ac : is_ac ready.remote.device_type ≡ false
    pub confirmed :
        ready.button.requires_confirmation ≡ true
        → valid_confirmation_token outside token button_id stay request ≡ true
    pub command : x ≡ ir_command (ready.url, ready.command)
    pub single : more ≡ []

  press_ready-sent :
      (ready : Ready) (x : Sent) (more : List Sent)
      → load_pressable_button outside.world button_id false true db ≡ done ready
      → ready.button.pk ≡ button_id
      → (press_ready outside ready stay request db).0.1 ≡ x ∷ more
      → (x ≡ ir_command (ready.url, ready.command)) × (more ≡ [])
  unfolding press_ready
  press_ready-sent ready x more l same h =
      elim (press_remote_button_audited outside.world ready.button.pk "voice" (some stay)
        (some request) false true db) [
          | inl (s, d, e) ↦ absurd (ground (arith, ap (map ir_command) s))
          | inr (found, l', s, r) ↦
              let twin : ready ≡ found = ground (arith, rw same at l') in
              let e : ir_command (found.url, found.command) ∷ [] ≡ x ∷ more =
                sym (ap (map ir_command) s) ∙ h in
              (ground arith, ground arith)
        ]

  confirm_and_press-MaySend :
      (ready : Ready) (x : Sent) (more : List Sent)
      → stay_matches stay db ≡ true
      → load_pressable_button outside.world button_id false true db ≡ done ready
      → (confirm_and_press outside ready token stay request db).0.1 ≡ x ∷ more
      → MaySend x more
  unfolding confirm_and_press
  confirm_and_press-MaySend ready x more m l h =
      let may = load-MayPress outside.world button_id false true db ready l in
      let same : ready.button.pk ≡ button_id =
        ground (
          arith,
          first-sat (is_active_button button_id) db.buttons ready.button may.button_active,
        ) in
      elim (Bool-cases (is_ac ready.remote.device_type)) [
        | inl a ↦ let h' = rw (a, confirm_and_press) at h in absurd (ground arith)
        | inr a ↦
            elim (Bool-cases (
              ready.button.requires_confirmation
              && not (valid_confirmation_token outside token ready.button.pk stay request))) [
                | inl c ↦ let h' = rw (a, confirm_and_press, c) at h in absurd (ground arith)
                | inr c ↦
                    let (s, n) =
                      press_ready-sent ready x more l same (rw (a, confirm_and_press, c) at h) in
                    record {
                      current = m;
                      ready = ready;
                      may_press = may;
                      no_ac = a;
                      confirmed = λ r. rw (sym same) (ground arith);
                      command = s;
                      single = n;
                    }
              ]
      ]

  -- Where the model's press of a button sends something, the call is of the current stay, the button
  -- and its remote are active, the remote is enabled for voice and is no air conditioner, and a
  -- button that requires a confirmation has a valid token; what is sent is the one command of the
  -- button.
  pub press_remote_button_tool-MaySend :
      (x : Sent) (more : List Sent)
      → (press_remote_button_tool outside button_id token stay request db).0.1 ≡ x ∷ more
      → MaySend x more
  unfolding press_remote_button_tool
  press_remote_button_tool-MaySend x more h = elim (Bool-cases (stay_matches stay db)) [
    | inr m ↦ let h' = rw (m, press_remote_button_tool) at h in absurd (ground arith)
    | inl m ↦ go (load_pressable_button outside.world button_id false true db) refl m
  ]
    where
      go :
          (l : Pressed Ready)
          → load_pressable_button outside.world button_id false true db ≡ l
          → stay_matches stay db ≡ true
          → MaySend x more
      go (refused e) l m =
          let h' = rw (m, press_remote_button_tool, l) at h in absurd (ground arith)
      go (done ready) l m =
          confirm_and_press-MaySend ready x more m l (rw (m, press_remote_button_tool, l) at h)
