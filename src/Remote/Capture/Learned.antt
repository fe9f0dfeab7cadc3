-- ===== src/Remote/Capture/Learned.antt =====
-- What the two endpoints of a capture send, and what they show.
use local_voice_agent.Prelude.{
  ℕ, ◌≤◌, ◌≡◌, refl, subst, inl, inr, true, none, some, List, [], ◌∷◌, arith, Bool-cases,
  Option-cases, nat_eq, string_eq, option_eq, len, prefix, len-prefix-le, is_text,
}
use local_voice_agent.Value.{ℤ, pos, Value, int, list, Dict, is_true, get, Runtime, to_str_or_empty}
use local_voice_agent.Models.{RemoteControl, ip_text, Db}
use local_voice_agent.Remote.Command.{IrCommand, validate_ir_command}
use local_voice_agent.Remote.Command.Bounds.{ints, IsBounded, validate_ir_command_iff}
use local_voice_agent.Remote.Reply.{Numbers}
use local_voice_agent.Ac.Http.{get_method, post_method, Outcome}
use local_voice_agent.Remote.Capture.{
  CaptureResult, captured, capture_error, raises, CaptureRequest, Signal, Capture, capture_url,
  read_payload, then_read, int_or, read_signal, capture_of, read_with, read_capture, CaptureReply,
  done, reply_of, remote_of, capture_request, read_ir_capture, button_capture_status,
}

-- The one request that reads a capture
abbrev pub status_request : RemoteControl → CaptureRequest
status_request remote = record {
  method = get_method;
  url = capture_url remote "/api/ir/capture";
  json = none;
}

-- The one request that starts a capture
abbrev pub start_request : RemoteControl → ℕ → CaptureRequest
start_request remote f = record {
  method = post_method;
  url = capture_url remote "/api/ir/capture/start";
  json = some (("frequency", int (pos f)) ∷ []);
}

-- The command of a stored button with this signal
abbrev pub command_of : ℕ → Signal → IrCommand
command_of i s = record { id = i; frequency = s.frequency; raw = s.raw }

-- The payload has this signal, which a button can store under the id `i`.
abbrev pub Learned : ℕ → Dict → Signal → Type 0
Learned i d s =
    (get "frequency" d ≡ int (pos s.frequency))
    × (get "raw" d ≡ list (ints s.raw))
    × (validate_ir_command (int (pos i)) (get "frequency" d) (get "raw" d) ≡ some (command_of i s))
    × (len s.protocol ≤ 40)

valid_under :
    (c : IrCommand) (i : ℕ) (frequency raw : Value)
    → validate_ir_command (int (pos 1)) frequency raw ≡ some c
    → (frequency ≡ int (pos c.frequency))
      × (raw ≡ list (ints c.raw))
      × (validate_ir_command (int (pos i)) frequency raw
          ≡ some (record { id = i; frequency = c.frequency; raw = c.raw }))
valid_under c i frequency raw h =
    let (same, f, r, bounded) = (validate_ir_command_iff (int (pos 1)) frequency raw c).0 h in
    let c' : IrCommand = record { id = i; frequency = c.frequency; raw = c.raw } in
    let bounded' : IsBounded c' = record {
      frequency_min = bounded.frequency_min;
      frequency_max = bounded.frequency_max;
      raw_min = bounded.raw_min;
      raw_max = bounded.raw_max;
      positive = bounded.positive;
    } in
    (f, r, (validate_ir_command_iff (int (pos i)) frequency raw c').1 (refl, f, r, bounded'))

read_signal-Learned :
    (runtime : Runtime) (i : ℕ) (d : Dict) (s : Signal)
    → read_signal runtime d ≡ captured s
    → Learned i d s
unfolding read_signal
read_signal-Learned runtime i d s h =
    elim (Option-cases (validate_ir_command (int (pos 1)) (get "frequency" d) (get "raw" d))) [
      | inl e ↦ absurd (ground arith)
      | inr (c, e) ↦
          let (f, r, v) = valid_under c i (get "frequency" d) (get "raw" d) e in
          let short = len-prefix-le 40 (to_str_or_empty runtime (get "protocol" d)) in
          let shape : record {
            frequency = c.frequency;
            raw = c.raw;
            protocol = prefix 40 (to_str_or_empty runtime (get "protocol" d));
          }
              ≡ s =
            ground arith in
          subst (Learned i d) shape (f, r, v, short)
    ]

module _ {A B : Type 0} where
  then_read-captured :
      (r : CaptureResult A) (f : A → CaptureResult B) (b : B)
      → then_read r f ≡ captured b
      → (a : A) × (r ≡ captured a) × (f a ≡ captured b)
  then_read-captured (captured a) f b h = (a, refl, h)
  then_read-captured (capture_error e) f b h = absurd (ground arith)
  then_read-captured raises f b h = absurd (ground arith)

reply_of-done : {A : Type 0} (r : CaptureResult A) (a : A) → reply_of r ≡ done a → r ≡ captured a
reply_of-done (captured b) a h = ground arith
reply_of-done (capture_error e) a h = absurd (ground arith)
reply_of-done raises a h = absurd (ground arith)

-- What a view makes of a result and what was sent
abbrev shown :
    {A : Type 0} → CaptureResult A × List CaptureRequest → CaptureReply A × List CaptureRequest
shown (r, sent) = (reply_of r, sent)

shown-captured :
    {A : Type 0} (m : CaptureResult A × List CaptureRequest) (a : A) (sent : List CaptureRequest)
    → shown m ≡ (done a, sent)
    → m ≡ (captured a, sent)
shown-captured (r, s) a sent h =
    let same = reply_of-done r a (ground arith) in rw same (ground arith)

module _ (runtime : Runtime) (numbers : Numbers) where
  read_with-Learned :
      (i : ℕ) (d : Dict) (revision : ℤ) (c : Capture)
      → read_with runtime d revision ≡ captured c
      → c.ready ≡ true
      → (s : Signal) × (c.signal ≡ some s) × Learned i d s
  read_with-Learned i d revision c h ready = elim (Bool-cases (is_true (get "ready" d))) [
    | inr e ↦ absurd (ground arith)
    | inl e ↦
        let (s, learned, shape) =
          then_read-captured (read_signal runtime d)
            (λ s. captured (capture_of d revision (some s))) c (ground arith) in
        (s, ground arith, read_signal-Learned runtime i d s learned)
  ]

  read_capture-Learned :
      (i : ℕ) (d : Dict) (c : Capture)
      → read_capture runtime numbers d ≡ captured c
      → c.ready ≡ true
      → (s : Signal) × (c.signal ≡ some s) × Learned i d s
  read_capture-Learned i d c h ready =
      let (revision, known, rest) =
        then_read-captured (int_or runtime numbers (get "revision" d) (int (pos 0)))
          (λ revision. read_with runtime d revision) c h in
      read_with-Learned i d revision c rest ready

  module _ (controller : CaptureRequest → Outcome) where
    read_ir_capture-Learned :
        (i : ℕ) (remote : RemoteControl) (c : Capture) (sent : List CaptureRequest)
        → read_ir_capture runtime numbers controller remote ≡ (captured c, sent)
        → c.ready ≡ true
        → (is_text (ip_text remote.device_ip) ≡ true)
          × (sent ≡ status_request remote ∷ [])
          × (d : Dict) × (read_payload (controller (status_request remote)) ≡ captured d)
          × (s : Signal) × (c.signal ≡ some s)
          × Learned i d s
    unfolding read_ir_capture capture_request
    read_ir_capture-Learned i remote c sent h ready =
        elim (Bool-cases (is_text (ip_text remote.device_ip))) [
          | inr e ↦ absurd (ground arith)
          | inl e ↦
              let (d, answer, rest) =
                then_read-captured (read_payload (controller (status_request remote)))
                  (λ d. read_capture runtime numbers d) c (ground arith) in
              let (s, shown, learned) = read_capture-Learned i d c rest ready in
              (e, ground arith, d, answer, s, shown, learned)
        ]

    -- A capture that `button_capture_status_view` shows as ready was read with one GET from the
    -- controller of a remote that has an address. It has a signal, which is the frequency and the
    -- timings of the controller's successful payload, and which `validate_ir_command` accepts under
    -- every id, so that a button can store it; the name of its protocol has at most 40 characters.
    pub button_capture_status_ready :
        (remote_id i : ℕ) (db : Db) (c : Capture) (sent : List CaptureRequest)
        → button_capture_status runtime numbers controller remote_id db ≡ (done c, sent)
        → c.ready ≡ true
        → (remote : RemoteControl) × (remote_of remote_id db ≡ some remote)
          × (is_text (ip_text remote.device_ip) ≡ true)
          × (sent ≡ status_request remote ∷ [])
          × (d : Dict) × (read_payload (controller (status_request remote)) ≡ captured d)
          × (s : Signal) × (c.signal ≡ some s)
          × Learned i d s
    unfolding button_capture_status
    button_capture_status_ready remote_id i db c sent h ready =
        elim (Option-cases (remote_of remote_id db)) [
          | inl e ↦ absurd (ground arith)
          | inr (remote, e) ↦
              let r =
                shown-captured (read_ir_capture runtime numbers controller remote) c sent
                  (ground arith) in
              let (address, request, d, answer, s, shown, learned) =
                read_ir_capture-Learned i remote c sent r ready in
              (remote, e, address, request, d, answer, s, shown, learned)
        ]
