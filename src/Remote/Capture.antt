-- ===== src/Remote/Capture.antt =====
-- kiosk_agent/ir_capture.py, the learning of an infrared signal, and its two endpoints in views.py.
pub mod Learned
use local_voice_agent.Prelude.{
  ℕ, ◌/◌, String, Bool, not, ◌&&◌, Option, none, some, List, [], ◌∷◌, ltb, leb, if◌then◌else◌, ◌==◌,
  nat_eq, string_eq, option_eq, first, prefix, is_text, concat,
}
use local_voice_agent.Value.{
  ℤ, pos, Value, int, Dict, as_dict, as_natural, is_true, truthy, get_or, get, Runtime,
  to_str_or_empty,
}
use local_voice_agent.Models.{RemoteControl, ip_text, Db}
use local_voice_agent.Remote.Command.{validate_ir_command}
use local_voice_agent.Remote.Reply.{IntOf, whole, no_int, overflow, Numbers, int_of}
use local_voice_agent.Ac.Http.{
  Method, get_method, post_method, Outcome, response, timed_out, http_error,
}

-- The codes of `IRCaptureError`
pub data CaptureCode : Type 0 where
  device_unavailable invalid_frequency timeout network_error : CaptureCode
  controller_error invalid_response : CaptureCode

-- `raises` is the exception of `int` on what the controller sent, which no clause catches.
pub data CaptureResult {ℓ} (A : Type ℓ) : Type ℓ where
  captured : A → CaptureResult A
  capture_error : CaptureCode → CaptureResult A
  raises : CaptureResult A

-- The method, the URL and the JSON body
pub record CaptureRequest : Type 0 where
  pub method : Method
  pub url : String
  pub json : Option Dict

-- What `start_ir_capture` returns
pub record Started : Type 0 where
  pub capturing : Bool
  pub frequency : ℕ
  pub timeout_ms : ℤ

pub record Signal : Type 0 where
  pub frequency : ℕ
  pub raw : List ℕ
  pub protocol : String

-- What `read_ir_capture` returns; the signal is there if it is ready.
pub record Capture : Type 0 where
  pub capturing : Bool
  pub ready : Bool
  pub revision : ℤ
  pub signal : Option Signal

-- `_controller_url` of a remote that has an address
abbrev pub capture_url : RemoteControl → String → String
capture_url remote path = concat "http://" (concat (ip_text remote.device_ip) path)

unfoldable pub read_payload : Outcome → CaptureResult Dict
unfolding get
read_payload timed_out = capture_error timeout
read_payload http_error = capture_error network_error
read_payload (response r) =
    if not (leb 200 r.status_code && ltb r.status_code 300)
    then capture_error controller_error
    else elim r.json [
      | none ↦ capture_error invalid_response
      | some v ↦ elim (as_dict v) [
        | none ↦ capture_error invalid_response
        | some d ↦ if is_true (get "success" d) then captured d else capture_error invalid_response
      ]
    ]

module _ {A B : Type 0} where
  abbrev pub then_read : CaptureResult A → (A → CaptureResult B) → CaptureResult B
  then_read (captured a) f = f a
  then_read (capture_error e) f = capture_error e
  then_read raises f = raises

-- `int(v or default)`
unfoldable pub int_or : Runtime → Numbers → Value → Value → CaptureResult ℤ
int_or runtime numbers v default =
    elim (int_of numbers (if truthy runtime.real_is_zero v then v else default)) [
      | whole n ↦ captured n
      | no_int ↦ raises
      | overflow ↦ raises
    ]

abbrev pub read_started : Runtime → Numbers → ℕ → Dict → CaptureResult Started
read_started runtime numbers frequency payload =
    then_read (int_or runtime numbers (get "timeout_ms" payload) (int (pos 15000))) (λ timeout_ms.
      captured (record {
        capturing = is_true (get "capturing" payload);
        frequency = frequency;
        timeout_ms = timeout_ms;
      }))

-- The signal of a payload that is ready
unfoldable pub read_signal : Runtime → Dict → CaptureResult Signal
unfolding get
read_signal runtime payload =
    elim (validate_ir_command (int (pos 1)) (get "frequency" payload) (get "raw" payload)) [
      | none ↦ capture_error invalid_response
      | some c ↦ captured (record {
        frequency = c.frequency;
        raw = c.raw;
        protocol = prefix 40 (to_str_or_empty runtime (get "protocol" payload));
      })
    ]

abbrev pub capture_of : Dict → ℤ → Option Signal → Capture
capture_of payload revision signal = record {
  capturing = is_true (get "capturing" payload);
  ready = is_true (get "ready" payload);
  revision = revision;
  signal = signal;
}

abbrev pub read_with : Runtime → Dict → ℤ → CaptureResult Capture
read_with runtime payload revision =
    if is_true (get "ready" payload)
    then then_read (read_signal runtime payload)
        (λ s. captured (capture_of payload revision (some s)))
    else captured (capture_of payload revision none)

abbrev pub read_capture : Runtime → Numbers → Dict → CaptureResult Capture
read_capture runtime numbers payload =
    then_read (int_or runtime numbers (get "revision" payload) (int (pos 0)))
      (λ revision. read_with runtime payload revision)

-- The answer of an endpoint; `server_error` is the 500 of an exception that leaves the view.
pub data CaptureReply {ℓ} (A : Type ℓ) : Type ℓ where
  done : A → CaptureReply A
  refused : CaptureCode → CaptureReply A
  bad_frequency : CaptureReply A
  not_found : CaptureReply A
  server_error : CaptureReply A

-- The HTTP status, with that of `_capture_error_response` for a code
abbrev pub capture_status {ℓ} : {A : Type ℓ} → CaptureReply A → ℕ
capture_status (done a) = 200
capture_status (refused device_unavailable) = 400
capture_status (refused invalid_frequency) = 400
capture_status (refused timeout) = 504
capture_status (refused network_error) = 502
capture_status (refused controller_error) = 502
capture_status (refused invalid_response) = 502
capture_status bad_frequency = 400
capture_status not_found = 404
capture_status server_error = 500

abbrev pub reply_of {ℓ} : {A : Type ℓ} → CaptureResult A → CaptureReply A
reply_of (captured a) = done a
reply_of (capture_error e) = refused e
reply_of raises = server_error

abbrev pub remote_of : ℕ → Db → Option RemoteControl
remote_of remote_id db = first (λ (r : RemoteControl). r.pk == remote_id) db.remotes

module _ (runtime : Runtime) (numbers : Numbers) (controller : CaptureRequest → Outcome) where
  -- `_request`: the payload, and what was sent
  unfoldable pub capture_request :
      RemoteControl → Method → String → Option Dict → CaptureResult Dict × List CaptureRequest
  unfolding read_payload concat
  capture_request remote method path json =
      if not (is_text (ip_text remote.device_ip))
      then (capture_error device_unavailable, [])
      else let sent : CaptureRequest = record {
        method = method;
        url = capture_url remote path;
        json = json;
      } in
        (read_payload (controller sent), sent ∷ [])

  unfoldable pub start_ir_capture :
      RemoteControl → Value → CaptureResult Started × List CaptureRequest
  unfolding capture_request
  start_ir_capture remote frequency = elim (as_natural frequency) [
    | none ↦ (capture_error invalid_frequency, [])
    | some f ↦
        if not (leb 20 f && leb f 100)
        then (capture_error invalid_frequency, [])
        else let (payload, sent) =
            capture_request remote post_method "/api/ir/capture/start"
              (some (("frequency", frequency) ∷ [])) in
          (then_read payload (λ d. read_started runtime numbers f d), sent)
  ]

  unfoldable pub read_ir_capture : RemoteControl → CaptureResult Capture × List CaptureRequest
  unfolding capture_request
  read_ir_capture remote =
      let (payload, sent) = capture_request remote get_method "/api/ir/capture" none in
      (then_read payload (λ d. read_capture runtime numbers d), sent)

  start_from : RemoteControl → IntOf → CaptureReply Started × List CaptureRequest
  unfolding start_ir_capture
  start_from remote (whole n) =
      let (r, sent) = start_ir_capture remote (int n) in (reply_of r, sent)
  start_from remote no_int = (bad_frequency, [])
  start_from remote overflow = (server_error, [])

  -- `button_capture_start_view`. The body is its JSON, an empty object for an empty body, and `none`
  -- if it is no JSON. `payload.get` of what is no object raises an `AttributeError`.
  unfoldable pub button_capture_start :
      ℕ → Option Value → Db → CaptureReply Started × List CaptureRequest
  unfolding start_from get_or
  button_capture_start remote_id body db = elim (remote_of remote_id db) [
    | none ↦ (not_found, [])
    | some remote ↦ elim body [
      | none ↦ (bad_frequency, [])
      | some v ↦ elim (as_dict v) [
        | none ↦ (server_error, [])
        | some d ↦ start_from remote (int_of numbers (get_or "frequency" (int (pos 38)) d))
      ]
    ]
  ]

  -- `button_capture_status_view`
  unfoldable pub button_capture_status : ℕ → Db → CaptureReply Capture × List CaptureRequest
  unfolding read_ir_capture
  button_capture_status remote_id db = elim (remote_of remote_id db) [
    | none ↦ (not_found, [])
    | some remote ↦ let (r, sent) = read_ir_capture remote in (reply_of r, sent)
  ]
