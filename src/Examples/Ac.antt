-- ===== src/Examples/Ac.antt =====
-- kiosk_agent/ac_control.py with an ESP32 that confirms.
use local_voice_agent.Prelude.{
  ◌≤◌, ◌≡◌, refl, ◌↔◌, true, false, none, some, List, [], ◌∷◌, nat_eq, string_eq, option_eq, length,
  All, strip, concat,
}
use local_voice_agent.Value.{
  pos, Value, bool, int, str, dict, Dict, items, as_dict, lookup, get, merge,
}
use local_voice_agent.Models.{RemoteControl, AcState}
use local_voice_agent.Ac.Protocol.{
  ac_state_fields, protocol_capabilities, protocol_config, is_protocol_model_supported,
  protocol_models, normalize_protocol_model,
}
use local_voice_agent.Ac.Validate.{ok, err, attribute_error, validate_state_values, is_valid_value}
use local_voice_agent.Ac.Http.{Request, post_method, Response, response, send, ◌>>=◌}
use local_voice_agent.Ac.Response.{
  Confirmed, parse_esp32_response, is_stale_version_response, apply_confirmed_state, is_success,
  names_device, set_attrs,
}
use local_voice_agent.Ac.Response.Uncaught.{parse_esp32_response_uncaught}
use local_voice_agent.Ac.Control.{
  get_or_create_state, new_ac_state, save_state, checked_device, is_unsupported, controller_url,
  command_payload, set_ac_state,
}
use local_voice_agent.Ac.Control.Stored.{set_ac_state_confirmed}
use local_voice_agent.Ac.Sync.{
  Report, find_ac, checked_report, apply_report, accept_from, accept_esp32_state_sync,
}
use local_voice_agent.Ac.Sync.Applied.{Outcome, accept_esp32_state_sync_outcome}
use local_voice_agent.Ac.Valid.{AreValid, set_ac_state-AreValid, accept_esp32_state_sync-AreValid}
use local_voice_agent.Examples.Data.{db, ac_remote, runtime, esp32, ac_values}

unfoldable pub program : Unit {0}
unfolding set_ac_state ◌>>=◌ send checked_device protocol_config is_protocol_model_supported
    normalize_protocol_model protocol_models protocol_capabilities validate_state_values
    is_valid_value is_unsupported controller_url command_payload get_or_create_state save_state
    parse_esp32_response is_stale_version_response apply_confirmed_state items get merge concat
program = tt

abbrev changes : Dict
changes = ("power", bool true) ∷ ("temperature", int (pos 22)) ∷ []

abbrev confirmed : Confirmed
confirmed = record { state = items ac_values; state_version = 3; updated_at = int (pos 0) }

abbrev stored : AcState
stored = apply_confirmed_state (new_ac_state 1) confirmed

abbrev sent : List Request
sent =
    record {
      method = post_method;
      url = "http://10.0.0.5/api/ac/state";
      body = command_payload "r-1" ac_remote 1 changes;
    }
    ∷ []

command_succeeds :
    set_ac_state runtime esp32 1 changes "r-1" db ≡ ((ok stored, sent), save_state stored db)
unfolding program
command_succeeds = refl

set_ac_state_confirmed_example :
    (device : RemoteControl) × (r : Response) × (c : Confirmed) × (checked_device 1 db ≡ ok device)
    × (esp32 sent ≡ response r)
    × (parse_esp32_response runtime r device true ≡ ok c)
    × All (λ f. lookup f c.state ≡ some (stored.attrs f)) ac_state_fields
    × (stored.state_version ≡ c.state_version)
    × ((get_or_create_state device.pk db).state_version ≤ stored.state_version)
    × (length sent ≤ 3)
    × (save_state stored db ≡ save_state stored db)
set_ac_state_confirmed_example =
    set_ac_state_confirmed runtime esp32 1 changes "r-1" db (save_state stored db) stored sent
      command_succeeds

set_ac_state-AreValid_example : AreValid (set_ac_state runtime esp32 1 changes "r-1" db).1
set_ac_state-AreValid_example = set_ac_state-AreValid runtime esp32 1 changes "r-1" db tt

-- A report of version 2 from the controller
abbrev report_payload : Dict
report_payload =
    ("source", str "esp32")
    ∷ ("esp32_id", str "ac-1")
    ∷ ("brand", str "gree")
    ∷ ("protocol", str "gree")
    ∷ ("model", str "yaw1f")
    ∷ ("state_version", int (pos 2))
    ∷ ("state", dict ac_values)
    ∷ []

abbrev reported : AcState
reported = record {
  device = 1;
  attrs = set_attrs (items ac_values) (new_ac_state 1).attrs;
  state_version = 2;
  esp32_updated_at = 0;
}

report_accepted :
    accept_esp32_state_sync runtime report_payload db
    ≡ ok ((reported, true), save_state reported db)
unfolding program accept_esp32_state_sync find_ac apply_report names_device accept_from
    checked_report strip
report_accepted = refl

accept_esp32_state_sync_outcome_example :
    (report : Report) × (device : RemoteControl) × (checked_report report_payload ≡ ok report)
    × (find_ac report.name db ≡ ok device)
    × (names_device runtime report_payload device ≡ true)
    × Outcome report device.pk
        (get_or_create_state device.pk db)
        reported
        true
        db
        (save_state reported db)
accept_esp32_state_sync_outcome_example =
    accept_esp32_state_sync_outcome runtime report_payload db (save_state reported db) reported true
      report_accepted

accept_esp32_state_sync-AreValid_example : AreValid (save_state reported db)
accept_esp32_state_sync-AreValid_example =
    accept_esp32_state_sync-AreValid runtime report_payload db (save_state reported db) reported
      true report_accepted tt

abbrev bad_gateway : Response
bad_gateway = record { status_code = 502; json = some (str "Bad Gateway") }

parse_esp32_response_uncaught_example :
    (parse_esp32_response runtime bad_gateway ac_remote true ≡ err attribute_error) ↔ (
      (is_success 502 ≡ false)
      × ((v : Value) × (some (str "Bad Gateway") ≡ some v) × (as_dict v ≡ none)))
parse_esp32_response_uncaught_example =
    parse_esp32_response_uncaught runtime bad_gateway ac_remote true
