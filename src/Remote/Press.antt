-- ===== src/Remote/Press.antt =====
-- kiosk_agent/remote_control.py: `press_remote_button`, and its endpoint in views.py.
pub mod Audited
pub mod Guarded
use local_voice_agent.Prelude.{
  ℕ, code, String, Bool, true, false, not, ◌&&◌, Option, none, some, List, [], ◌∷◌, ltb, leb,
  if◌then◌else◌, ◌==◌, nat_eq, string_eq, option_eq, first, prefix, is_text,
}
use local_voice_agent.Value.{
  pos, Value, null, int, str, dict, end, Dict, as_dict, truthy, get, Runtime, to_str_or_empty,
}
use local_voice_agent.Models.{Uuid, Event, RemoteControl, RemoteButton, target_command_url, Db}
use local_voice_agent.Chat.Store.{audit}
use local_voice_agent.Ac.Http.{Outcome, response, timed_out, http_error}
use local_voice_agent.Remote.Command.{
  url_ok, url_error, value_error, validate_command_url, IrCommand, validate_ir_command,
}
use local_voice_agent.Remote.Reply.{Numbers, Verdict, parse_controller_payload, overflow_error}

-- The codes of `RemoteCommandError`
pub data RemoteCode : Type 0 where
  not_found forbidden unconfigured invalid_command cooldown timeout network_error : RemoteCode
  http_status controller_error : RemoteCode

-- A `RemoteCommandError`, or another exception that leaves the function
pub data PressError : Type 0 where
  remote_error : RemoteCode → Option ℕ → PressError
  uncaught : PressError

pub data Pressed {ℓ} (A : Type ℓ) : Type ℓ where
  done : A → Pressed A
  refused : PressError → Pressed A

abbrev pub refuse {ℓ} : {A : Type ℓ} → RemoteCode → Pressed A
refuse code = refused (remote_error code none)

-- What the function takes from outside: `int`, what `urlsplit` refuses, the answer of Redis to
-- `set(key, nx=True)` for a button, the controllers, and the time that the request took.
pub data Lock : Type 0 where
  acquired held unavailable : Lock

pub record World : Type 0 where
  pub runtime : Runtime
  pub numbers : Numbers
  pub refuses : String → Bool
  pub cooldown_ms : ℕ
  pub lock : ℕ → Lock
  pub post : String → IrCommand → Outcome
  pub duration_ms : ℕ

-- A button with its remote, checked: where the command goes and what it is
pub record Ready : Type 0 where
  pub button : RemoteButton
  pub remote : RemoteControl
  pub url : String
  pub command : IrCommand

abbrev pub is_active_button : ℕ → RemoteButton → Bool
is_active_button button_id b = b.pk == button_id && b.is_active

abbrev pub is_active_remote : ℕ → RemoteControl → Bool
is_active_remote remote_id r = r.pk == remote_id && r.is_active

-- The two validations of the stored command
unfoldable pub checked_command : World → RemoteButton → RemoteControl → Pressed Ready
checked_command world button remote =
    elim (validate_command_url world.refuses (target_command_url remote button)) [
      | url_error value_error ↦ refused uncaught
      | url_error e ↦ refuse invalid_command
      | url_ok url ↦
          elim (validate_ir_command (int (pos button.ir_id)) (int (pos button.frequency))
            button.raw) [
              | none ↦ refuse invalid_command
              | some command ↦
                  done (record { button = button; remote = remote; url = url; command = command })
            ]
    ]

unfoldable pub load_from : World → Bool → Bool → RemoteButton → RemoteControl → Pressed Ready
unfolding checked_command
load_from world require_guest_visible require_voice_enabled button remote =
    if require_guest_visible && not remote.guest_visible
    then refuse forbidden
    else if require_voice_enabled && not remote.voice_enabled
    then refuse forbidden
    else if not
        (is_text (target_command_url remote button) && truthy world.runtime.real_is_zero button.raw)
    then refuse unconfigured
    else checked_command world button remote

-- `_load_pressable_button`, and so `get_pressable_remote_button`
unfoldable pub load_pressable_button : World → ℕ → Bool → Bool → Db → Pressed Ready
unfolding load_from
load_pressable_button world button_id require_guest_visible require_voice_enabled db =
    elim (first (is_active_button button_id) db.buttons) [
      | none ↦ refuse not_found
      | some button ↦ elim (first (is_active_remote button.remote) db.remotes) [
        | none ↦ refuse not_found
        | some remote ↦ load_from world require_guest_visible require_voice_enabled button remote
      ]
    ]

-- `_check_cooldown`
unfoldable pub is_cooling : World → ℕ → Bool
is_cooling world button_id =
    if world.cooldown_ms == 0
    then false
    else elim (world.lock button_id) [ acquired ↦ false | held ↦ true | unavailable ↦ false ]

-- The details of an audit row: those of the button, the status, and what the outcome adds. The
-- order of the keys of a JSON object has no meaning.
unfoldable pub press_details : World → Ready → String → String → Dict → Dict
press_details world ready source status_text more =
    ("remote_id", int (pos ready.remote.pk))
    ∷ ("button_id", int (pos ready.button.pk))
    ∷ ("button_key", str ready.button.key)
    ∷ ("source", str source)
    ∷ ("execution", str "server")
    ∷ ("status", str status_text)
    ∷ ("duration_ms", int (pos world.duration_ms))
    ∷ more

-- What the caller gets of a press that succeeded
pub record PressResult : Type 0 where
  pub remote_id : ℕ
  pub button_id : ℕ
  pub label : String
  pub http_status : ℕ
  pub duration_ms : ℕ
  pub target : String

module _ (world : World) (source : String) (stay : Uuid) (request : Option Uuid) (ready : Ready)
    (db : Db) where
  abbrev failed : RemoteCode → String → Option ℕ → Dict → Pressed PressResult × Db
  failed code status_text http more = (
    refused (remote_error code http),
    audit stay request Event.remote_failed (press_details world ready source status_text more) db,
  )

  -- A press that succeeded reads `target` of the payload: a payload that is no object has no `get`.
  succeeded : ℕ → Value → Pressed PressResult × Db
  unfolding press_details get
  succeeded status_code payload = elim (as_dict payload) [
    | none ↦ (refused uncaught, db)
    | some d ↦
        let target = prefix 80 (to_str_or_empty world.runtime (get "target" d)) in
        (
          done (record {
            remote_id = ready.remote.pk;
            button_id = ready.button.pk;
            label = ready.button.label;
            http_status = status_code;
            duration_ms = world.duration_ms;
            target = target;
          }),
          audit stay request Event.remote_pressed
              (press_details world ready source "success"
                (("http_status", int (pos status_code)) ∷ ("target", str target) ∷ []))
              db,
        )
  ]

  judged : ℕ → Value → Pressed PressResult × Db
  unfolding succeeded
  judged status_code payload = elim (parse_controller_payload world.runtime world.numbers payload) [
    | overflow_error ↦ (refused uncaught, db)
    | Verdict.failure controller_status ↦
        failed controller_error "controller_error" (some status_code) (
          ("controller_status", str controller_status)
          ∷ ("http_status", int (pos status_code))
          ∷ [])
    | Verdict.success text ↦ succeeded status_code payload
  ]

  -- The answer of the controller, or that there is none
  unfoldable pub handled : Outcome → Pressed PressResult × Db
  unfolding judged press_details
  handled timed_out = failed timeout "timeout" none (("http_status", null) ∷ [])
  handled http_error = failed network_error "network_error" none (("http_status", null) ∷ [])
  handled (response r) =
      if leb 200 r.status_code && ltb r.status_code 300
      then judged r.status_code (elim r.json [ none ↦ dict end | some v ↦ v ])
      else failed http_status "http_error" (some r.status_code)
          (("http_status", int (pos r.status_code)) ∷ [])

-- The stay of the audit row: the caller's, or the current one
abbrev pub stay_of : Option Uuid → Db → Uuid
stay_of none db = db.config.current_stay_id
stay_of (some stay) db = stay

-- `press_remote_button`: its result, the commands that were sent, and the database
unfoldable pub press_remote_button :
    (world : World) (button_id : ℕ) (source : String) (stay : Option Uuid) (request : Option Uuid)
    (require_guest_visible require_voice_enabled : Bool)
    → Db
    → (Pressed PressResult × List (String × IrCommand)) × Db
unfolding handled is_cooling
press_remote_button world button_id source stay request require_guest_visible require_voice_enabled
      db =
    elim (load_pressable_button world button_id require_guest_visible require_voice_enabled db) [
      | refused e ↦ ((refused e, []), db)
      | done ready ↦
          if is_cooling world ready.button.pk
          then ((refuse cooldown, []), db)
          else let (result, after) =
              handled world source (stay_of stay db) request ready db
                (world.post ready.url ready.command) in
            ((result, (ready.url, ready.command) ∷ []), after)
    ]

-- `RemoteButtonPressView`: the HTTP status of each code
unfoldable pub press_status : Pressed PressResult → ℕ
press_status (done result) = 200
press_status (refused uncaught) = 500
press_status (refused (remote_error code http)) = elim code [
  | not_found ↦ 404
  | forbidden ↦ 403
  | unconfigured ↦ 400
  | invalid_command ↦ 400
  | cooldown ↦ 429
  | timeout ↦ 504
  | network_error ↦ 502
  | http_status ↦ 502
  | controller_error ↦ 502
]
