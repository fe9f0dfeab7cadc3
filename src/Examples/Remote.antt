-- ===== src/Examples/Remote.antt =====
-- kiosk_agent/remote_control.py with a television's volume button.
use local_voice_agent.Prelude.{
  is_text, concat, String, ◌≡◌, refl, ap, ◌↔◌, true, false, none, some, List, [], ◌∷◌, nat_eq,
  string_eq, option_eq, strip,
}
use local_voice_agent.Value.{Dict, dict, is_true, bool, field, end, get, items, pos, int, str, list}
use local_voice_agent.Models.{DeviceType, RemoteControl, RemoteButton, target_command_url, Db}
use local_voice_agent.Ac.Http.{Response, response}
use local_voice_agent.Remote.Url.{rstrip_slashes, urlsplit, lower_is}
use local_voice_agent.Remote.Command.{validate_command_url, IrCommand, validate_ir_command, timings}
use local_voice_agent.Remote.Command.Bounds.{ints, IsBounded, validate_ir_command_iff}
use local_voice_agent.Remote.Reply.{no_int}
use local_voice_agent.Remote.Press.{
  World, acquired, uncaught, Ready, done, refused, load_pressable_button, load_from,
  checked_command, press_remote_button, is_cooling,
}
use local_voice_agent.Remote.Tv.{
  ok, send_command, find_endpoint, read_answer, endpoint, command_endpoints, TvRequest,
}
use local_voice_agent.Remote.Tv.Sent.{send_command_confirmed}
use local_voice_agent.Ac.Http.{Outcome, post_method}
use local_voice_agent.Remote.Press.Audited.{press_remote_button_uncaught}
use local_voice_agent.Remote.Press.Guarded.{MayPress, press_remote_button_guarded}
use local_voice_agent.Examples.Data.{db, runtime, ac_remote}

abbrev tv : RemoteControl
tv = record ac_remote { pk = 2; device_name = ""; device_ip = none; device_type = DeviceType.raw }

abbrev pub volume_up : RemoteButton
volume_up = record {
  pk = 5;
  remote = 2;
  key = "volume-up";
  label = "Volume up";
  icon = "";
  sort_order = 0;
  row = 0;
  column = 0;
  command_url = "http://10.0.0.9/ir";
  ir_id = 1;
  frequency = 38;
  raw = list (ints (9000 ∷ 4500 ∷ []));
  is_active = true;
  requires_confirmation = false;
}

abbrev pub tv_db : Db
tv_db = record db { remotes = tv ∷ db.remotes; buttons = volume_up ∷ [] }

abbrev command : IrCommand
command = record { id = 1; frequency = 38; raw = 9000 ∷ 4500 ∷ [] }

abbrev ready : Ready
ready = record { button = volume_up; remote = tv; url = "http://10.0.0.9/ir"; command = command }

-- A controller that answers every command with the JSON text "ok"
abbrev ok_text : Response
ok_text = record { status_code = 200; json = some (str "ok") }

abbrev pub world : World
world = record {
  runtime = runtime;
  numbers = record { int_of_text = λ s. no_int; int_of_real = λ s. no_int };
  refuses = λ s. false;
  cooldown_ms = 1500;
  lock = λ b. acquired;
  post = λ url c. response ok_text;
  duration_ms = 20;
}

-- Nothing follows the one command.
abbrev volume_up_sent_more : List (String × IrCommand)
volume_up_sent_more = []

button_ready : load_pressable_button world 5 true false tv_db ≡ done ready
unfolding load_pressable_button load_from checked_command validate_command_url validate_ir_command
    urlsplit lower_is strip timings target_command_url
button_ready = refl

not_cooling : is_cooling world 5 ≡ false
unfolding is_cooling
not_cooling = refl

validate_ir_command_iff_example :
    (validate_ir_command (int (pos 1)) (int (pos 38)) (list (ints (9000 ∷ 4500 ∷ [])))
      ≡ some command)
    ↔ ((int (pos 1) ≡ int (pos command.id))
        × (int (pos 38) ≡ int (pos command.frequency))
        × (list (ints (9000 ∷ 4500 ∷ [])) ≡ list (ints command.raw))
        × IsBounded command)
validate_ir_command_iff_example =
    validate_ir_command_iff (int (pos 1)) (int (pos 38)) (list (ints (9000 ∷ 4500 ∷ []))) command

press_remote_button_uncaught_example :
    press_remote_button world 5 "kiosk" none none true false tv_db
    ≡ ((refused uncaught, ("http://10.0.0.9/ir", command) ∷ []), tv_db)
press_remote_button_uncaught_example =
    press_remote_button_uncaught world 5 "kiosk" none none true false tv_db ready ok_text (str "ok")
      button_ready not_cooling refl refl refl refl

volume_up_sent :
    (press_remote_button world 5 "kiosk" none none true false tv_db).0.1
    ≡ ("http://10.0.0.9/ir", command) ∷ []
volume_up_sent = ap (λ r. r.0.1) press_remote_button_uncaught_example

press_remote_button_guarded_example :
    (q : Ready) × MayPress world 5 true false tv_db q
    × (q.url ≡ "http://10.0.0.9/ir")
    × (q.command ≡ command)
    × IsBounded command
    × (volume_up_sent_more ≡ [])
press_remote_button_guarded_example =
    press_remote_button_guarded world 5 true false tv_db "kiosk" none none "http://10.0.0.9/ir"
      command [] volume_up_sent

-- A television's controller that confirms every command
abbrev tv_answer : Response
tv_answer = record { status_code = 200; json = some (dict (field "success" (bool true) end)) }

abbrev pub tv_controller : TvRequest → Outcome
tv_controller r = response tv_answer

abbrev tv_payload : Dict
tv_payload = ("success", bool true) ∷ []

abbrev mute_request : List TvRequest
mute_request = (post_method, endpoint "http://10.0.0.8/" "/api/ir/mute") ∷ []

mute_succeeds : send_command tv_controller "http://10.0.0.8/" "MUTE" ≡ (ok tv_payload, mute_request)
unfolding send_command find_endpoint read_answer get items endpoint rstrip_slashes concat
mute_succeeds = refl

send_command_confirmed_example :
    (path : String) × (find_endpoint "MUTE" command_endpoints ≡ some path)
    × (is_text "http://10.0.0.8/" ≡ true)
    × (mute_request ≡ (post_method, endpoint "http://10.0.0.8/" path) ∷ [])
    × (read_answer (tv_controller (post_method, endpoint "http://10.0.0.8/" path)) ≡ ok tv_payload)
    × (is_true (get "success" tv_payload) ≡ true)
send_command_confirmed_example =
    send_command_confirmed tv_controller "http://10.0.0.8/" "MUTE" tv_payload mute_request
      mute_succeeds
