-- ===== src/Examples/Data.antt =====
-- A chalet with one stay, and a controller for its air conditioner.
use local_voice_agent.Prelude.{
  ℕ, refl, true, false, none, some, [], ◌∷◌, nat_eq, string_eq, option_eq,
}
use local_voice_agent.Value.{pos, bool, int, str, dict, Fields, end, field, Runtime}
use local_voice_agent.Models.{
  Time, Uuid, ChaletConfig, Role, Status, KioskMessage, SessionState, RealtimeSession, DeviceType,
  RemoteControl, Db,
}
use local_voice_agent.Tools.Runner.{ToolRunner}
use local_voice_agent.Ac.Http.{response, Controller}

abbrev pub config : ChaletConfig
config = record {
  chalet_name = "Sunset";
  chalet_number = "101";
  persona_name = "Ghroob";
  welcome_message = "";
  property_facts = ("wifi", str "password in the drawer") ∷ [];
  enabled_services = [];
  emergency_contact = "999";
  llm_model = "";
  saas_integration_url = "";
  saas_integration_token = "";
  saas_tenant_subdomain = "";
  saas_enabled = false;
  current_stay_id = 1;
  is_active = true;
}

abbrev pub guest_message : ℕ → Uuid → Status → Time → KioskMessage
guest_message pk request status created = record {
  pk = pk;
  stay_id = 1;
  request_id = request;
  role = Role.user;
  content = "hello";
  status = status;
  tool_name = "";
  tool_call_id = "";
  event_id = none;
  sequence = none;
  metadata = [];
  created_at = created;
}

abbrev pub ac_remote : RemoteControl
ac_remote = record {
  pk = 1;
  name = "AC";
  location = "Bedroom";
  device_name = "ac-1";
  controller_url = "";
  device_ip = some "10.0.0.5";
  device_last_seen_at = none;
  device_type = DeviceType.ac;
  brand = "gree";
  protocol = "gree";
  protocol_model = "yaw1f";
  is_active = true;
  voice_enabled = true;
  guest_visible = true;
  ac_control_visibility = [];
  sort_order = 0;
}

abbrev pub session : RealtimeSession
session = record {
  id = 50;
  stay_id = 1;
  state = SessionState.active;
  expires_at = 1000;
  last_activity_at = 0;
  created_at = 0;
}

-- One request of the guest is queued since second 10.
abbrev pub db : Db
db = record {
  config = config;
  messages = guest_message 1 7 Status.queued 10 ∷ [];
  next_message = 2;
  audits = [];
  sessions = session ∷ [];
  staff_requests = [];
  next_staff_request = 1;
  remotes = ac_remote ∷ [];
  buttons = [];
  ac_states = [];
}

-- A tool that answers with its arguments and writes nothing
abbrev pub echo : ToolRunner
echo = record {
  execute = λ name arguments stay request d. (some (record { content = arguments; ok = true }), d);
  messages-execute = λ name arguments stay request d. refl;
  next_message-execute = λ name arguments stay request d. refl;
  sessions-execute = λ name arguments stay request d. refl;
  config-execute = λ name arguments stay request d. refl;
}

-- Texts of small letters: nothing is to be folded.
abbrev pub runtime : Runtime
runtime = record { casefold = λ s. s; lower = λ s. s; print = λ v. ""; real_is_zero = λ s. false }

abbrev pub ac_values : Fields
ac_values = field "power" (bool true) (
    field "mode" (str "cool") (
      field "temperature" (int (pos 22)) (
        field "fan" (str "low") (
          field "swing_vertical" (bool false) (
            field "swing_horizontal" (bool false) (
              field "turbo" (bool false) (
                field "sleep" (bool false) (
                  field "eco" (bool false) (
                    field "quiet" (bool false)
                      (field "light" (bool true) (field "x_fan" (bool false) end)))))))))))

abbrev pub ac_answer : ℕ → Fields
ac_answer version = field "success" (bool true) (
    field "brand" (str "gree") (
      field "protocol" (str "gree") (
        field "model" (str "yaw1f")
          (field "state_version" (int (pos version)) (field "state" (dict ac_values) end)))))

-- An ESP32 that confirms version 3
abbrev pub esp32 : Controller
esp32 sent = response (record { status_code = 200; json = some (dict (ac_answer 3)) })
