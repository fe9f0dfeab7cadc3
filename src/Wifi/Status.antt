-- ===== src/Wifi/Status.antt =====
-- kiosk_agent/wifi.py: `get_wifi_status` and `_wifi_ifname`.
use local_voice_agent.Prelude.{
  ℕ, code, String, Bool, true, false, not, ◌||◌, Option, none, some, List, [], ◌∷◌, map,
  if◌then◌else◌, ◌==◌, nat_eq, string_eq, option_eq, first, is_text, or_text, strip, splitlines,
  split_colons,
}
use local_voice_agent.Wifi.Host.{
  unavailable, Wifi, ok, wifi_error, Command, Host, Nm, pure, raise, caught, ◌>>=◌, run_nmcli,
}
use local_voice_agent.Wifi.Scan.{Network, parse_scan}
use local_voice_agent.Wifi.Profiles.{Profiles, has_profile, saved_wifi_profiles}

-- `networks` pairs each network with its `saved`.
pub record WifiStatus : Type 0 where
  pub available : Bool
  pub connected : Bool
  pub ssid : String
  pub signal : ℕ
  pub security : String
  pub connectivity : String
  pub networks : List (Network × Bool)

abbrev pub no_status : Bool → WifiStatus
no_status available = record {
  available = available;
  connected = false;
  ssid = "";
  signal = 0;
  security = "";
  connectivity = "";
  networks = [];
}

abbrev yes_no : Bool → String
yes_no true = "yes"
yes_no false = "no"

-- The list of the networks, in its newer and its older form
unfoldable pub scan_output : Host → Bool → Nm String
unfolding caught run_nmcli
scan_output host rescan =
    caught
      (run_nmcli host (
        "-t"
        ∷ "-f"
        ∷ "ACTIVE,SSID,SIGNAL,SECURITY"
        ∷ "dev"
        ∷ "wifi"
        ∷ "list"
        ∷ "--rescan"
        ∷ yes_no rescan
        ∷ []))
      λ code message.
        run_nmcli host ("-t" ∷ "-f" ∷ "ACTIVE,SSID,SIGNAL,SECURITY" ∷ "dev" ∷ "wifi" ∷ [])

connectivity_of : Host → Wifi String → String
unfolding strip
connectivity_of host (ok s) = host.lower (strip s)
connectivity_of host (wifi_error code message) = ""

-- The first active network, if any
abbrev active_ssid : Option Network → String
active_ssid none = ""
active_ssid (some n) = n.ssid

abbrev active_signal : Option Network → ℕ
active_signal none = 0
active_signal (some n) = n.signal

abbrev active_security : Option Network → String
active_security none = ""
active_security (some n) = n.security

abbrev is_some : Option Network → Bool
is_some none = false
is_some (some n) = true

unfoldable pub status_of : Host → List Network → Profiles → Wifi String → WifiStatus
unfolding connectivity_of
status_of host networks profiles connectivity =
    let current = first (λ n. n.active) networks in
    record {
      available = true;
      connected = is_some current;
      ssid = active_ssid current;
      signal = active_signal current;
      security = active_security current;
      connectivity = connectivity_of host connectivity;
      networks = map (λ n. (n, has_profile n.ssid profiles)) networks;
    }

unfoldable pub scanned : Host → Wifi String × List Command → WifiStatus × List Command
unfolding status_of saved_wifi_profiles run_nmcli parse_scan
scanned host (wifi_error code message, sent) = (no_status true, sent)
scanned host (ok out, sent) =
    let networks = parse_scan host out in
    let (profiles, sent') = saved_wifi_profiles host (map (λ n. n.ssid) networks) sent in
    let (connectivity, sent'') = run_nmcli host ("networking" ∷ "connectivity" ∷ []) sent' in
    (status_of host networks profiles connectivity, sent'')

-- The request for a new scan, whose failure is only logged
unfoldable pub rescan_first : Host → Bool → List Command → List Command
unfolding run_nmcli
rescan_first host false sent = sent
rescan_first host true sent = (run_nmcli host ("dev" ∷ "wifi" ∷ "rescan" ∷ []) sent).1

-- `get_wifi_status`
unfoldable pub get_wifi_status : Host → Bool → List Command → WifiStatus × List Command
unfolding scan_output scanned rescan_first
get_wifi_status host rescan sent =
    if not host.nmcli_available
    then (no_status false, sent)
    else scanned host (scan_output host rescan (rescan_first host rescan sent))

-- The Wi-Fi adapter of a line, and whether it is connected
abbrev adapter_of : List String → Option (String × Bool)
adapter_of (device ∷ kind ∷ status ∷ more) =
    if not (kind == "wifi") || not (is_text device)
    then none
    else some (device, status == "connected")
adapter_of _ = none

-- The loop of `_wifi_ifname` over the lines, with the first adapter so far
find_adapter : List String → String → String
unfolding split_colons
find_adapter [] fallback = fallback
find_adapter (line ∷ lines) fallback = elim (adapter_of (split_colons line)) [
  | none ↦ find_adapter lines fallback
  | some (device, connected) ↦ elim connected [
    | true ↦ device
    | false ↦ find_adapter lines (or_text fallback device)
  ]
]

adapter_or_error : String → Nm String
adapter_or_error name =
    if is_text name
    then pure name
    else raise unavailable "No Wi-Fi adapter was found on this device."

-- `_wifi_ifname`
unfoldable pub wifi_ifname : Host → Nm String
unfolding run_nmcli caught find_adapter adapter_or_error ◌>>=◌ splitlines
wifi_ifname host = do
  out ←
      caught (run_nmcli host ("-t" ∷ "-f" ∷ "DEVICE,TYPE,STATE" ∷ "device" ∷ "status" ∷ []))
        λ code message. raise unavailable "Could not reach NetworkManager on this device."
  adapter_or_error (find_adapter (splitlines out) "")
