-- ===== src/Remote/Press/Guarded.antt =====
-- Which commands are sent.
use local_voice_agent.Prelude.{
  ℕ, String, ◌≡◌, refl, sym, ap, ◌∙◌, inl, inr, Bool, false, not, ◌&&◌, Option, some, List, [], ◌∷◌,
  arith, Bool-cases, Option-cases, nat_eq, string_eq, option_eq, first,
}
use local_voice_agent.Value.{pos, int}
use local_voice_agent.Models.{Uuid, RemoteControl, RemoteButton, target_command_url, Db}
use local_voice_agent.Remote.Command.{
  UrlResult, url_ok, url_error, UrlError, value_error, validate_command_url, IrCommand,
  validate_ir_command,
}
use local_voice_agent.Remote.Command.Bounds.{IsBounded, validate_ir_command_iff}
use local_voice_agent.Remote.Press.{
  World, Ready, done, load_pressable_button, load_from, checked_command, press_remote_button,
  is_active_button, is_active_remote,
}
use local_voice_agent.Remote.Press.Audited.{press_remote_button_audited}

-- A button that may be pressed: it and its remote are active, the remote is open to this caller,
-- the URL passes its validation and the command is in its bounds.
pub record MayPress (world : World) (button_id : ℕ) (guest voice : Bool) (db : Db) (ready : Ready)
    : Type 0 where
  pub button_active : first (is_active_button button_id) db.buttons ≡ some ready.button
  pub remote_active : first (is_active_remote ready.button.remote) db.remotes ≡ some ready.remote
  pub visible : (guest && not ready.remote.guest_visible) ≡ false
  pub audible : (voice && not ready.remote.voice_enabled) ≡ false
  pub url_valid :
      validate_command_url world.refuses (target_command_url ready.remote ready.button)
      ≡ url_ok ready.url
  pub command_valid :
      validate_ir_command
        (int (pos ready.button.ir_id))
        (int (pos ready.button.frequency))
        ready.button.raw
      ≡ some ready.command

module _ (world : World) (guest voice : Bool) (button : RemoteButton) (remote : RemoteControl)
    (ready : Ready) where
  -- What the checks of a button that was found have established
  abbrev Checked : Type 0
  Checked =
      (ready.button ≡ button)
      × (ready.remote ≡ remote)
      × (validate_command_url world.refuses (target_command_url remote button) ≡ url_ok ready.url)
      × (validate_ir_command (int (pos button.ir_id)) (int (pos button.frequency)) button.raw
          ≡ some ready.command)

  checked_command-done : checked_command world button remote ≡ done ready → Checked
  unfolding checked_command
  checked_command-done h =
      go (validate_command_url world.refuses (target_command_url remote button)) refl
    where
      go :
          (u : UrlResult)
          → validate_command_url world.refuses (target_command_url remote button) ≡ u
          → Checked
      go (url_error UrlError.blank) e = absurd (ground arith)
      go (url_error UrlError.too_long) e = absurd (ground arith)
      go (url_error UrlError.wrong_scheme) e = absurd (ground arith)
      go (url_error UrlError.no_host) e = absurd (ground arith)
      go (url_error value_error) e = absurd (ground arith)
      go (url_ok url) e =
          elim (Option-cases (
            validate_ir_command (int (pos button.ir_id)) (int (pos button.frequency)) button.raw)) [
              | inl v ↦ absurd (ground arith)
              | inr (c, v) ↦ ground arith
            ]

  load_from-done :
      load_from world guest voice button remote ≡ done ready
      → ((guest && not remote.guest_visible) ≡ false)
        × ((voice && not remote.voice_enabled) ≡ false)
        × Checked
  unfolding load_from
  load_from-done h = elim (Bool-cases (guest && not remote.guest_visible)) [
    | inl g ↦ absurd (ground arith)
    | inr g ↦ elim (Bool-cases (voice && not remote.voice_enabled)) [
      | inl v ↦ absurd (ground arith)
      | inr v ↦ (g, v, checked_command-done (ground arith))
    ]
  ]

module _ (world : World) (button_id : ℕ) (guest voice : Bool) (db : Db) where
  pub load-MayPress :
      (ready : Ready)
      → load_pressable_button world button_id guest voice db ≡ done ready
      → MayPress world button_id guest voice db ready
  unfolding load_pressable_button
  load-MayPress ready h = elim (Option-cases (first (is_active_button button_id) db.buttons)) [
    | inl b ↦ absurd (ground arith)
    | inr (button, b) ↦ elim (Option-cases (first (is_active_remote button.remote) db.remotes)) [
      | inl r ↦ absurd (ground arith)
      | inr (remote, r) ↦
          let (g, v, (same, there, u, c)) =
            load_from-done world guest voice button remote ready (ground arith) in
          record {
            button_active = b ∙ ap some (sym same);
            remote_active = rw same (r ∙ ap some (sym there));
            visible = rw there g;
            audible = rw there v;
            url_valid = rw (same, there) u;
            command_valid = rw same c;
          }
    ]
  ]

  -- Whatever is sent is the stored command of an active button whose active remote is open to this
  -- caller: its URL passes the validation, and the command is in its bounds.
  pub press_remote_button_guarded :
      (source : String) (stay request : Option Uuid) (url : String) (command : IrCommand)
      (more : List (String × IrCommand))
      → (press_remote_button world button_id source stay request guest voice db).0.1
        ≡ (url, command) ∷ more
      → (ready : Ready) × MayPress world button_id guest voice db ready
        × (ready.url ≡ url)
        × (ready.command ≡ command)
        × IsBounded command
        × (more ≡ [])
  press_remote_button_guarded source stay request url command more h =
      elim (press_remote_button_audited world button_id source stay request guest voice db) [
        | inl (s, d, e) ↦ absurd (ground arith)
        | inr (ready, l, s, rest) ↦
            let m = load-MayPress ready l in
            let e : (ready.url, ready.command) ∷ [] ≡ (url, command) ∷ more = sym s ∙ h in
            let c : ready.command ≡ command = ground arith in
            let (i, f, r, b) = (validate_ir_command_iff _ _ _ ready.command).0 m.command_valid in
            (ready, m, ground arith, c, rw c at b, ground arith)
      ]
