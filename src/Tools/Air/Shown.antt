-- ===== src/Tools/Air/Shown.antt =====
-- Which commands the model sends to an air conditioner.
use local_voice_agent.Prelude.{
  ℕ, ◌≤◌, String, ◌≡◌, Bool, true, false, ◌&&◌, some, List, ◌==◌, nat_eq, string_eq, option_eq,
  length, first, any, All,
}
use local_voice_agent.Value.{Value, Dict, is_true, is_false, get}
use local_voice_agent.Models.{Uuid, RemoteControl, Db}
use local_voice_agent.Ac.Protocol.{protocol_capabilities}
use local_voice_agent.Ac.Validate.{ok, validate_state_values}
use local_voice_agent.Tools.Reply.{Outside, Sent, stay_matches}
use local_voice_agent.Tools.Air.{given, is_voice_ac}

-- Some item of the settings hides the field.
abbrev pub hides : String → Dict → Bool
hides f settings = any (λ (g, v). g == f && is_false v) settings

-- The protocol has the control, and the device does not hide it.
abbrev pub IsShown : RemoteControl → String × Value → Type 0
IsShown device (f, v) =
    (is_true (get f (protocol_capabilities device.protocol)) ≡ true)
    × (hides f device.ac_control_visibility ≡ false)

module _ (outside : Outside) (device_id : ℕ) (state : Dict) (stay request : Uuid) (db : Db) where
  -- The device that the command is for, and what is known of it and of the changes
  abbrev pub Admitted : List Sent → Type 0
  Admitted sent =
      (device : RemoteControl) × (first (is_voice_ac device_id) db.remotes ≡ some device)
      × (stay_matches stay db ≡ true)
      × All (IsShown device) (given state)
      × (validate_state_values false (given state) ≡ ok (given state))
      × (length sent ≤ 3)
