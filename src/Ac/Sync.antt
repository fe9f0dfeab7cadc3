-- ===== src/Ac/Sync.antt =====
-- `accept_esp32_state_sync`: a notification of the ESP32.
pub mod Applied
use local_voice_agent.Prelude.{
  ℕ, String, Bool, true, false, not, ◌&&◌, Option, none, some, [], ◌∷◌, ltb, if◌then◌else◌, ◌==◌,
  nat_eq, string_eq, option_eq, select, is_text, strip,
}
use local_voice_agent.Value.{
  pos, Value, int, str, Dict, as_dict, as_str, as_natural, get_or, get, Runtime,
}
use local_voice_agent.Models.{is_ac, RemoteControl, AcState, Db}
use local_voice_agent.Ac.Validate.{
  Result, ok, fail, invalid_state, invalid_source, not_found, ambiguous_device,
  validate_state_values, ◌>>=◌,
}
use local_voice_agent.Ac.Response.{names_device, set_attrs, updated_at_of}
use local_voice_agent.Ac.Control.{get_or_create_state, create_state, save_state}

-- `esp32_id`, stripped, if it is a text that is not blank
abbrev is_esp32 : Value → Bool
is_esp32 (str s) = s == "esp32"
is_esp32 _ = false

esp32_name : Value → Option String
esp32_name v = elim (as_str v) [
  | none ↦ none
  | some s ↦ if is_text (strip s) then some (strip s) else none
]

abbrev pub is_ac_named : String → RemoteControl → Bool
is_ac_named name r = is_ac r.device_type && r.device_name == name

-- `get(device_type=AC, device_name=…)`
unfoldable pub find_ac : String → Db → Result RemoteControl
find_ac name db = elim (select (is_ac_named name) db.remotes) [
  | [] ↦ fail not_found
  | device ∷ [] ↦ ok device
  | device ∷ other ∷ rest ↦ fail ambiguous_device
]

-- The checks of the payload: the name, the version and the state that it reports
pub record Report : Type 0 where
  pub name : String
  pub version : ℕ
  pub state : Dict

unfoldable pub checked_report : Dict → Result Report
unfolding esp32_name get get_or
checked_report payload =
    if not (is_esp32 (get "source" payload))
    then fail invalid_source
    else elim (esp32_name (get "esp32_id" payload)) [
      | none ↦ fail invalid_state
      | some name ↦ elim (as_natural (get "state_version" payload)) [
        | none ↦ fail invalid_state
        | some version ↦ elim (as_dict (get "state" payload)) [
          | none ↦ fail invalid_state
          | some incoming ↦ validate_state_values true incoming >>= λ values.
              ok (record { name = name; version = version; state = values })
        ]
      ]
    ]

-- A report that is older than the stored state is not applied.
unfoldable pub apply_report : Dict → Report → ℕ → AcState → Db → (AcState × Bool) × Db
unfolding get_or
apply_report payload report device state db =
    if ltb report.version state.state_version
    then ((state, false), create_state device db)
    else let applied : AcState = record state {
      attrs = set_attrs report.state state.attrs;
      state_version = report.version;
      esp32_updated_at = updated_at_of (get_or "updated_at" (int (pos 0)) payload);
    } in
      ((applied, true), save_state applied db)

unfoldable pub accept_from :
    Runtime → Dict → Report → RemoteControl → Db → Result ((AcState × Bool) × Db)
unfolding apply_report
accept_from runtime payload report device db =
    if not (names_device runtime payload device)
    then fail invalid_state
    else ok (apply_report payload report device.pk (get_or_create_state device.pk db) db)

-- `accept_esp32_state_sync`: an error leaves the database as it was.
unfoldable pub accept_esp32_state_sync : Runtime → Dict → Db → Result ((AcState × Bool) × Db)
unfolding accept_from
accept_esp32_state_sync runtime payload db = checked_report payload >>= λ report.
    find_ac report.name db >>= λ device. accept_from runtime payload report device db
