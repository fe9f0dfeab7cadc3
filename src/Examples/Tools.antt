-- ===== src/Examples/Tools.antt =====
-- kiosk_agent/core/tools.py with a gate that asks for a confirmation.
use local_voice_agent.Prelude.{
  ℕ, ◌≡◌, refl, ◌≢◌, ◌↔◌, true, false, none, some, List, [], ◌∷◌, if◌then◌else◌, ◌==◌, nat_eq,
  string_eq, option_eq, strip, concat,
}
use local_voice_agent.Value.{pos, null, bool, int, str, Dict, lookup, get_or, get}
use local_voice_agent.Models.{RemoteButton, target_command_url, Db}
use local_voice_agent.Remote.Command.{validate_command_url, validate_ir_command, timings}
use local_voice_agent.Remote.Url.{urlsplit, lower_is}
use local_voice_agent.Remote.Press.{
  load_pressable_button, load_from, checked_command, press_remote_button, is_cooling,
}
use local_voice_agent.Tools.Input.{Tool, tool_of, validate_json}
use local_voice_agent.Tools.Decimal.{padded, digits, digit}
use local_voice_agent.Tools.Reply.{Outside, Handled, Sent, ir_command}
use local_voice_agent.Tools.Local.{
  staff_request_local, reference_of, add_request, enqueue_forwarding,
}
use local_voice_agent.Tools.Press.{
  make_confirmation_token, valid_confirmation_token, press_remote_button_tool, confirm_and_press,
  press_ready,
}
use local_voice_agent.Tools.Press.Confirmed.{MaySend, press_remote_button_tool-MaySend}
use local_voice_agent.Tools.Press.Token.{make-valid_confirmation_token}
use local_voice_agent.Tools.Air.{set_air_conditioner}
use local_voice_agent.Tools.Execute.{execute_tool}
use local_voice_agent.Tools.Execute.Kept.{Kept}
use local_voice_agent.Tools.Execute.Runner.{execute_tool-Kept}
use local_voice_agent.Tools.Execute.Stay.{execute_tool_other_stay}
use local_voice_agent.Tools.Execute.Escape.{execute_tool_escapes}
use local_voice_agent.Examples.Data.{db, runtime, esp32}
use local_voice_agent.Examples.Uuids.{unary, unary-injective}
use local_voice_agent.Examples.Remote.{world, volume_up, tv_db, tv_controller}
use local_voice_agent.Examples.Ac.{program as ac_program}

-- The token that the press of button 5 in request 7 of stay 1 hands out
abbrev token_payload : Dict
token_payload =
    ("button_id", int (pos 5)) ∷ ("stay_id", str (unary 1)) ∷ ("request_id", str (unary 7)) ∷ []

abbrev outside : Outside
outside = record {
  world = world;
  ac_controller = esp32;
  tv_controller = tv_controller;
  pydantic = record {
    parse_json = λ s. none;
    trim = λ s. s;
    to_int = λ v. none;
    to_bool = λ v. none;
  };
  signing = record {
    dumps = λ d. "signed";
    loads = λ s. if s == "signed" then some token_payload else none;
  };
  uuid_text = unary;
  queue_accepts = λ pk. false;
  dumps = λ d. "{}";
  validation_errors = λ tool arguments. none;
}

-- The button asks for a confirmation.
abbrev gate : RemoteButton
gate = record volume_up { requires_confirmation = true }

abbrev gate_db : Db
gate_db = record tv_db { buttons = gate ∷ [] }

abbrev gate_sent : List Sent
gate_sent =
    ir_command ("http://10.0.0.9/ir", record { id = 1; frequency = 38; raw = 9000 ∷ 4500 ∷ [] })
    ∷ []

gate_opens : (press_remote_button_tool outside 5 "signed" 1 8 gate_db).0.1 ≡ gate_sent
unfolding press_remote_button_tool confirm_and_press press_ready valid_confirmation_token
    load_pressable_button load_from checked_command validate_command_url validate_ir_command
    urlsplit lower_is strip timings target_command_url press_remote_button is_cooling get get_or
    lookup
gate_opens = refl

gate_asks : (press_remote_button_tool outside 5 "" 1 8 gate_db).0.1 ≡ []
unfolding press_remote_button_tool confirm_and_press press_ready valid_confirmation_token
    load_pressable_button load_from checked_command validate_command_url validate_ir_command
    urlsplit lower_is strip timings target_command_url press_remote_button is_cooling get get_or
    lookup
gate_asks = refl

-- Nothing follows the one command.
abbrev gate_sent_more : List Sent
gate_sent_more = []

press_remote_button_tool-MaySend_example :
    MaySend outside 5 "signed" 1 8 gate_db
      (ir_command ("http://10.0.0.9/ir", record { id = 1; frequency = 38; raw = 9000 ∷ 4500 ∷ [] }))
      gate_sent_more
press_remote_button_tool-MaySend_example =
    press_remote_button_tool-MaySend outside 5 "signed" 1 8 gate_db
      (ir_command ("http://10.0.0.9/ir", record { id = 1; frequency = 38; raw = 9000 ∷ 4500 ∷ [] }))
      gate_sent_more gate_opens

make-valid_confirmation_token_example :
    (valid_confirmation_token outside (make_confirmation_token outside 5 1 7) 5 1 8 ≡ true)
    ↔ ((◌≡◌ {A = ℕ} 5 5) × (◌≡◌ {A = ℕ} 1 1) × (◌≢◌ {A = ℕ} 7 8))
make-valid_confirmation_token_example =
    make-valid_confirmation_token outside 5 1 7 unary-injective
      (unfold make_confirmation_token in refl) 5 1 8

-- The power of the air conditioner is to change.
abbrev power_on : Dict
power_on =
    ("power", bool true)
    ∷ ("mode", null)
    ∷ ("temperature", null)
    ∷ ("fan", null)
    ∷ ("swing_vertical", null)
    ∷ ("swing_horizontal", null)
    ∷ ("turbo", null)
    ∷ ("sleep", null)
    ∷ ("eco", null)
    ∷ ("quiet", null)
    ∷ ("light", null)
    ∷ ("x_fan", null)
    ∷ []

abbrev power_sent : List Sent
power_sent = (set_air_conditioner runtime esp32 unary 1 power_on 1 8 db).0.1

execute_tool-Kept_example :
    Kept 1 gate_db (execute_tool outside "press_remote_button" "{}" 1 8 gate_db).1
execute_tool-Kept_example = execute_tool-Kept 1 8 gate_db outside "press_remote_button" "{}"

execute_tool_other_stay_example :
    let r = execute_tool outside "press_remote_button" "{}" 2 8 gate_db in
    (r.0.1 ≡ []) × (r.1 ≡ gate_db)
execute_tool_other_stay_example =
    execute_tool_other_stay outside 2 8 gate_db refl "press_remote_button" "{}"

execute_tool_escapes_example :
    ((execute_tool outside "set_air_conditioner" "{}" 1 8 db).0.0 ≡ none) ↔ (
      (tool : Tool) × (tool_of "set_air_conditioner" ≡ some tool)
      × (validate_json outside.pydantic tool "{}" ≡ none)
      × (outside.validation_errors tool "{}" ≡ none))
execute_tool_escapes_example = execute_tool_escapes outside "set_air_conditioner" "{}" 1 8 db

-- The first request to the staff
towels_asked :
    (staff_request_local (λ pk. true) "housekeeping" "two towels" "normal" 1 8 db).0.0
    ≡ Handled.replied (
        ("accepted", bool true)
        ∷ ("reference", str "SR-000001")
        ∷ ("urgency", str "normal")
        ∷ ("delivery_status", str "queued")
        ∷ [])
unfolding staff_request_local reference_of add_request enqueue_forwarding padded digits digit concat
towels_asked = refl
