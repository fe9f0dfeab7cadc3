-- ===== src/Wifi/Gvariant.antt =====
-- kiosk_agent/wifi.py: `_gvariant_str` and `_add_wifi_profile`.
pub mod Quoted
use local_voice_agent.Prelude.{
  ◌+◌, ◌<◌, String, not, ◌||◌, List, [], ◌∷◌, ◌++◌, if◌then◌else◌, nat_eq, string_eq, option_eq,
  prefix, is_text, or_text, strip, concat, has_text,
}
use local_voice_agent.Prelude.{replace_char}
use local_voice_agent.Wifi.Host.{
  unavailable, timeout, auth_failed, controller_error, Wifi, ok, wifi_error, gdbus, Completed,
  exited, timed_out, os_error, Host, Nm,
}

-- `_gvariant_str`
unfoldable pub gvariant_str : String → String
unfolding replace_char concat
gvariant_str value = concat "'" (concat (replace_char 39 "\\'" (replace_char 92 "\\\\" value)) "'")

-- The texts one after the other
unfoldable pub joined : List String → String
unfolding concat
joined [] = ""
joined (s ∷ ss) = concat s (joined ss)

wireless_security : String → String → String
unfolding joined gvariant_str
wireless_security password key_mgmt =
    if not (is_text password)
    then ""
    else joined (
        "'802-11-wireless-security': {'key-mgmt': <"
        ∷ gvariant_str key_mgmt
        ∷ ">, 'psk': <"
        ∷ gvariant_str password
        ∷ ">}, "
        ∷ [])

-- The settings of the new profile
unfoldable pub profile_payload : Host → String → String → String → String → String
unfolding joined gvariant_str wireless_security
profile_payload host ssid password iface key_mgmt = joined (
    "{'connection': {'id': <"
    ∷ gvariant_str ssid
    ∷ ">, 'uuid': <"
    ∷ gvariant_str host.fresh_uuid
    ∷ ">, 'type': <'802-11-wireless'>, 'interface-name': <"
    ∷ gvariant_str iface
    ∷ ">}, '802-11-wireless': {'ssid': <["
    ∷ host.ssid_bytes ssid
    ∷ "]>, 'mode': <'infrastructure'>}, "
    ∷ wireless_security password key_mgmt
    ∷ "'ipv4': {'method': <'auto'>}, 'ipv6': {'method': <'auto'>}}"
    ∷ [])

refused : String → String → Wifi String
unfolding has_text
refused lowered message =
    if has_text "notauthorized" lowered
      || has_text "accessdenied" lowered
      || has_text "not authorized" lowered
    then wifi_error auth_failed "Not allowed to change Wi-Fi on this device."
    else wifi_error controller_error (or_text message "Could not create the Wi-Fi profile.")

added : Host → Completed → Wifi String
unfolding strip has_text refused
added host timed_out = wifi_error timeout "The Wi-Fi operation timed out."
added host os_error = wifi_error unavailable "Wi-Fi control is not available on this device."
added host (exited is_zero stdout stderr) =
    if not is_zero || not (has_text "objectpath" (strip stdout))
    then refused (host.lower (prefix 200 (strip stderr))) (prefix 200 (strip stderr))
    else ok (strip stdout)

-- `_add_wifi_profile`
unfoldable pub add_wifi_profile : Host → String → String → String → String → Nm String
unfolding added profile_payload
add_wifi_profile host ssid password iface key_mgmt sent =
    if not host.gdbus_available
    then (wifi_error unavailable "Wi-Fi control is not available on this device.", sent)
    else let sent' = sent ++ gdbus (profile_payload host ssid password iface key_mgmt) ∷ [] in
      (added host (host.run sent'), sent')
