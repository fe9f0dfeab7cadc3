-- ===== src/Wifi/Connect.antt =====
-- kiosk_agent/wifi.py: `connect_wifi`.
pub mod Joined
use local_voice_agent.Prelude.{
  code, String, Bool, true, false, not, ◌&&◌, Option, none, some, [], ◌∷◌, ltb, if◌then◌else◌, ◌==◌,
  nat_eq, string_eq, option_eq, len, is_text, strip, has_text,
}
use local_voice_agent.Wifi.Host.{
  WifiCode, timeout, not_found, auth_failed, invalid_ssid, invalid_password, connect_failed, ok,
  wifi_error, Host, Nm, pure, raise, caught, ◌>>=◌, run_nmcli,
}
use local_voice_agent.Wifi.Scan.{is_ssid}
use local_voice_agent.Wifi.Profiles.{profile_of, saved_wifi_profiles}
use local_voice_agent.Wifi.Status.{get_wifi_status, wifi_ifname}
use local_voice_agent.Wifi.Gvariant.{add_wifi_profile}

abbrev unless : (WifiCode → Bool) → {A : Type 0} → WifiCode → String → Nm A
unless kept code message = if kept code then raise code message else raise connect_failed message

abbrev is_mod_error : WifiCode → Bool
is_mod_error auth_failed = true
is_mod_error invalid_password = true
is_mod_error _ = false

abbrev is_up_error : WifiCode → Bool
is_up_error auth_failed = true
is_up_error not_found = true
is_up_error timeout = true
is_up_error _ = false

abbrev is_add_error : WifiCode → Bool
is_add_error auth_failed = true
is_add_error invalid_ssid = true
is_add_error invalid_password = true
is_add_error _ = false

-- SAE for a network that is WPA3 only
abbrev key_management : Host → String → String
key_management host security =
    let sec = host.upper security in
    if has_text "WPA3" sec && not (has_text "WPA2" sec) then "sae" else "wpa-psk"

activate : Host → String → Nm String
unfolding caught run_nmcli
activate host name =
    caught (run_nmcli host ("con" ∷ "up" ∷ name ∷ []))
      λ code message. unless is_up_error code message

-- The new password of a stored profile, if there is one
change_password : Host → String → String → String → Nm String
unfolding caught run_nmcli
change_password host uuid password key_mgmt =
    if not (is_text password)
    then pure ""
    else caught
        (run_nmcli host
          ("con" ∷ "mod" ∷ uuid ∷ "wifi-sec.key-mgmt" ∷ key_mgmt ∷ "wifi-sec.psk" ∷ password ∷ []))
        λ code message. unless is_mod_error code message

-- A stored profile
join_saved : Host → String → String → String → Nm String
unfolding activate change_password ◌>>=◌
join_saved host uuid password key_mgmt = do
  changed ← change_password host uuid password key_mgmt
  activate host uuid

-- A new profile, in place of one with the same name
join_new : Host → String → String → String → Nm String
unfolding activate caught run_nmcli ◌>>=◌ wifi_ifname add_wifi_profile
join_new host ssid password key_mgmt = do
  iface ← wifi_ifname host
  deleted ← caught (run_nmcli host ("con" ∷ "delete" ∷ ssid ∷ [])) λ code message. pure ""
  added ←
      caught (add_wifi_profile host ssid password iface key_mgmt)
        λ code message. unless is_add_error code message
  activate host ssid

-- The second look comes two seconds later.
verify : Host → String → Nm String
unfolding get_wifi_status
verify host ssid sent =
    let (status, sent') = get_wifi_status host false sent in
    if status.ssid == ssid
    then (ok ssid, sent')
    else let (again, sent'') = get_wifi_status host false sent' in
      if again.ssid == ssid then (ok ssid, sent'') else (
        wifi_error connect_failed "Could not join this network. Check the password and try again.",
        sent'',
      )

join_with : Host → String → String → String → Option String → Nm String
unfolding join_saved join_new
join_with host ssid password key_mgmt none = join_new host ssid password key_mgmt
join_with host ssid password key_mgmt (some uuid) =
    if is_text uuid
    then join_saved host uuid password key_mgmt
    else join_new host ssid password key_mgmt

join_profile : Host → String → String → String → Nm String
unfolding join_with saved_wifi_profiles
join_profile host ssid password key_mgmt sent =
    let (profiles, sent') = saved_wifi_profiles host (ssid ∷ []) sent in
    join_with host ssid password key_mgmt (profile_of ssid profiles) sent'

join : Host → String → String → String → Nm String
unfolding join_profile ◌>>=◌ verify
join host ssid password key_mgmt = do
  joined ← join_profile host ssid password key_mgmt
  verify host ssid

-- `connect_wifi`: the name of the network that was joined
unfoldable pub connect_wifi : Host → String → String → String → Nm String
unfolding join strip has_text
connect_wifi host ssid password security =
    if not (is_ssid (strip ssid))
    then raise invalid_ssid "Choose a valid network name."
    else if ltb 128 (len password)
    then raise invalid_password "The password is too long."
    else if is_text password && ltb (len password) 8
    then raise invalid_password "The password must be at least 8 characters."
    else join host (strip ssid) password (key_management host security)
