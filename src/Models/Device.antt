-- ===== src/Models/Device.antt =====
-- kiosk_agent/models.py: remotes, their buttons, the state of the air conditioners and the
-- requests to the staff.
use local_voice_agent.Prelude.{
  ℕ, String, Bool, true, false, Option, none, some, ◌&&◌, is_text, strip, concat, if◌then◌else◌,
}
use local_voice_agent.Value.{Value, Dict}
use local_voice_agent.Models.Chat.{Time, Uuid}

pub data DeliveryStatus : Type 0 where
  disabled queued delivered failed : DeliveryStatus

pub record StaffRequest : Type 0 where
  pub pk : ℕ
  pub stay_id : Uuid
  pub request_id : Uuid
  pub service : String
  pub details : String
  pub urgency : String
  pub local_reference : String
  pub delivery_status : DeliveryStatus
  pub external_reference : String
  pub delivery_attempts : ℕ
  pub last_error : String

pub data DeviceType : Type 0 where
  raw lg_tv ac : DeviceType

abbrev pub is_ac : DeviceType → Bool
is_ac DeviceType.ac = true
is_ac _ = false

abbrev pub is_lg_tv : DeviceType → Bool
is_lg_tv DeviceType.lg_tv = true
is_lg_tv _ = false

-- The choices of `brand`, `protocol` and `protocol_model` bind the forms only, so these are texts.
pub record RemoteControl : Type 0 where
  pub pk : ℕ
  pub name : String
  pub location : String
  pub device_name : String
  pub controller_url : String
  pub device_ip : Option String
  pub device_last_seen_at : Option Time
  pub device_type : DeviceType
  pub brand : String
  pub protocol : String
  pub protocol_model : String
  pub is_active : Bool
  pub voice_enabled : Bool
  pub guest_visible : Bool
  pub ac_control_visibility : Dict
  pub sort_order : ℕ

-- The attributes that the AC code reads and writes by name are kept by name.
pub record AcState : Type 0 where
  pub device : ℕ
  pub attrs : String → Value
  pub state_version : ℕ
  pub esp32_updated_at : ℕ

pub record RemoteButton : Type 0 where
  pub pk : ℕ
  pub remote : ℕ
  pub key : String
  pub label : String
  pub icon : String
  pub sort_order : ℕ
  pub row : ℕ
  pub column : ℕ
  pub command_url : String
  pub ir_id : ℕ
  pub frequency : ℕ
  pub raw : Value
  pub is_active : Bool
  pub requires_confirmation : Bool

-- The address of a discovered device, `""` for none
abbrev pub ip_text : Option String → String
ip_text none = ""
ip_text (some ip) = ip

-- The endpoint of the discovered device comes before the stored one.
unfoldable pub target_command_url : RemoteControl → RemoteButton → String
unfolding strip
target_command_url remote button =
    if is_text remote.device_name && is_text (ip_text remote.device_ip)
    then concat "http://" (concat (ip_text remote.device_ip) "/ir")
    else strip button.command_url
