-- ===== src/Examples/Capture.antt =====
-- kiosk_agent/ir_capture.py with a controller that has learned a signal.
use local_voice_agent.Prelude.{
  ◌≡◌, refl, true, false, some, [], ◌∷◌, nat_eq, string_eq, option_eq, is_text, concat,
}
use local_voice_agent.Value.{
  pos, Value, bool, int, str, list, dict, nil, end, Dict, items, fields, lookup, get_or, get, put,
}
use local_voice_agent.Models.{ip_text, RemoteControl}
use local_voice_agent.Ac.Http.{Response, response, Outcome}
use local_voice_agent.Remote.Command.{validate_ir_command, timings}
use local_voice_agent.Remote.Command.Bounds.{ints}
use local_voice_agent.Remote.Reply.{no_int, Numbers}
use local_voice_agent.Remote.Capture.{
  captured, CaptureRequest, Signal, Capture, device_unavailable, read_payload, int_or, read_signal,
  done, refused, server_error, remote_of, capture_request, start_ir_capture, read_ir_capture,
  button_capture_start, button_capture_status,
}
use local_voice_agent.Remote.Capture.Learned.{
  Learned, status_request, start_request, button_capture_status_ready,
}
use local_voice_agent.Examples.Data.{db, runtime, ac_remote}
use local_voice_agent.Examples.Remote.{tv_db}

abbrev numbers : Numbers
numbers = record { int_of_text = λ s. no_int; int_of_real = λ s. no_int }

abbrev raw : Value
raw = list (ints (9000 ∷ 4500 ∷ []))

abbrev payload : Dict
payload =
    ("success", bool true)
    ∷ ("ready", bool true)
    ∷ ("revision", int (pos 3))
    ∷ ("frequency", int (pos 38))
    ∷ ("raw", raw)
    ∷ ("protocol", str "NEC")
    ∷ []

abbrev answer : Response
answer = record { status_code = 200; json = some (dict (fields payload)) }

abbrev pub capture_controller : CaptureRequest → Outcome
capture_controller r = response answer

abbrev signal : Signal
signal = record { frequency = 38; raw = 9000 ∷ 4500 ∷ []; protocol = "NEC" }

abbrev capture : Capture
capture = record { capturing = false; ready = true; revision = pos 3; signal = some signal }

capture_shown :
    button_capture_status runtime numbers capture_controller 1 db
    ≡ (done capture, status_request ac_remote ∷ [])
unfolding button_capture_status read_ir_capture capture_request read_payload int_or read_signal
    validate_ir_command timings get get_or lookup items put concat
capture_shown = refl

button_capture_status_ready_example :
    (remote : RemoteControl) × (remote_of 1 db ≡ some remote)
    × (is_text (ip_text remote.device_ip) ≡ true)
    × (status_request ac_remote ∷ [] ≡ status_request remote ∷ [])
    × (d : Dict) × (read_payload (capture_controller (status_request remote)) ≡ captured d)
    × (s : Signal) × (some signal ≡ some s)
    × Learned 5 d s
button_capture_status_ready_example =
    button_capture_status_ready runtime numbers capture_controller 1 5 db capture
      (status_request ac_remote ∷ []) capture_shown refl

-- A timeout that is no integer leaves the view as an exception.
abbrev soon : Response
soon = record {
  status_code = 200;
  json = some (dict (fields (("success", bool true) ∷ ("timeout_ms", str "soon") ∷ [])));
}

start_escapes :
    button_capture_start runtime numbers (λ r. response soon) 1 (some (dict end)) db
    ≡ (server_error, start_request ac_remote 38 ∷ [])
unfolding button_capture_start start_ir_capture capture_request read_payload int_or get get_or
    lookup items put concat
start_escapes = refl

-- A body that is JSON but no object does, too.
start_without_object :
    (button_capture_start runtime numbers (λ r. response soon) 1 (some (list nil)) db).0
    ≡ server_error
unfolding button_capture_start
start_without_object = refl

-- A remote without an address is refused, and nothing is sent.
start_without_address :
    button_capture_start runtime numbers capture_controller 2 (some (dict end)) tv_db
    ≡ (refused device_unavailable, [])
unfolding button_capture_start start_ir_capture capture_request get_or lookup items put
start_without_address = refl
