-- ===== src/Tools/Listing.antt =====
-- kiosk_agent/core/tools.py: the devices that the model may control.
use local_voice_agent.Prelude.{
  String, Bool, false, not, ◌&&◌, Option, none, some, List, [], ◌∷◌, ◌++◌, map, if◌then◌else◌, ◌==◌,
  nat_eq, string_eq, option_eq, select, is_text,
}
use local_voice_agent.Value.{
  pos, Value, bool, int, str, list, dict, nil, end, field, Dict, items, fields, is_false, truthy,
  has_key, put, Runtime,
}
use local_voice_agent.Models.{Uuid, DeviceType, RemoteControl, RemoteButton, target_command_url, Db}
use local_voice_agent.Ac.Protocol.{protocol_capabilities}
use local_voice_agent.Ac.Control.{get_or_create_state, create_state, serialize_ac_state}
use local_voice_agent.Tools.Input.{tv_commands}
use local_voice_agent.Tools.Reply.{HandlerRun, quiet, stay_matches, list_value, is_empty, refusal}

-- A field that the device hides is not a capability.
unfoldable pub hide : Dict → Dict → Dict
unfolding put
hide [] capabilities = capabilities
hide ((f, v) ∷ rest) capabilities =
    hide rest (
      if has_key f capabilities && is_false v
      then put f (bool false) capabilities
      else capabilities)

-- `_visible_ac_capabilities`
unfoldable pub visible_ac_capabilities : RemoteControl → Dict
unfolding hide
visible_ac_capabilities device =
    hide device.ac_control_visibility (protocol_capabilities device.protocol)

abbrev device_type_text : DeviceType → String
device_type_text DeviceType.raw = "raw"
device_type_text DeviceType.lg_tv = "lg_tv"
device_type_text DeviceType.ac = "ac"

abbrev listed_item : RemoteControl → Dict
listed_item r =
    ("device_id", int (pos r.pk))
    ∷ ("name", str r.name)
    ∷ ("location", str r.location)
    ∷ ("device_type", str (device_type_text r.device_type))
    ∷ []

-- `is_active and is_configured`
unfoldable pub is_listed_button : Runtime → RemoteControl → RemoteButton → Bool
unfolding target_command_url
is_listed_button runtime remote b =
    b.remote == remote.pk
    && b.is_active
    && is_text (target_command_url remote b)
    && truthy runtime.real_is_zero b.raw

abbrev listed_button : RemoteButton → Value
listed_button b = dict (
    field "button_id" (int (pos b.pk)) (
      field "key" (str b.key) (
        field "label" (str b.label)
          (field "requires_confirmation" (bool b.requires_confirmation) end))))

buttons_item : RemoteControl → List Value → Option Value
buttons_item remote [] = none
buttons_item remote (b ∷ bs) =
    some (dict (fields (listed_item remote ++ ("buttons", list (list_value (b ∷ bs))) ∷ [])))

-- The turn of the loop for one remote: its item, and the state that it may create
unfoldable pub list_remote : Runtime → RemoteControl → Db → Option Value × Db
unfolding is_listed_button buttons_item visible_ac_capabilities
list_remote runtime remote db = elim remote.device_type [
  | DeviceType.ac ↦ (
    some (
        dict (
          fields (
            listed_item remote
            ++ ("state", dict (fields (serialize_ac_state (get_or_create_state remote.pk db))))
              ∷ ("capabilities", dict (fields (visible_ac_capabilities remote)))
              ∷ []))),
    create_state remote.pk db,
  )
  | DeviceType.lg_tv ↦ (
    some (
        dict (
          fields
            (listed_item remote ++ ("commands", list (list_value (map str tv_commands))) ∷ []))),
    db,
  )
  | DeviceType.raw ↦ (
    buttons_item remote (map listed_button (select (is_listed_button runtime remote) db.buttons)),
    db,
  )
]

abbrev listed_first : Option Value → List Value → List Value
listed_first none vs = vs
listed_first (some v) vs = v ∷ vs

-- The loop over the remotes
unfoldable pub list_remotes_from : Runtime → List RemoteControl → Db → List Value × Db
unfolding list_remote
list_remotes_from runtime [] db = ([], db)
list_remotes_from runtime (remote ∷ remotes) db =
    let (item, after) = list_remote runtime remote db in
    let (items, last) = list_remotes_from runtime remotes after in (listed_first item items, last)

abbrev pub is_voice_remote : RemoteControl → Bool
is_voice_remote r = r.is_active && r.voice_enabled

-- `_list_remote_controls`
unfoldable pub list_remote_controls : Runtime → Uuid → Db → HandlerRun
unfolding list_remotes_from
list_remote_controls runtime stay db =
    if not (stay_matches stay db)
    then quiet (refusal "available" "stay_expired" ++ ("devices", list nil) ∷ []) db
    else let (devices, after) = list_remotes_from runtime (select is_voice_remote db.remotes) db in
      quiet
        (("available", bool (not (is_empty devices))) ∷ ("devices", list (list_value devices)) ∷ [])
        after
