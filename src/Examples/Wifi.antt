-- ===== src/Examples/Wifi.antt =====
-- A host with one Wi-Fi adapter that joins every network.
use local_voice_agent.Prelude.{
  ◌≤◌, ◌<◌, String, ◌≡◌, refl, true, Option, some, List, [], ◌∷◌, if◌then◌else◌, ◌==◌, nat_eq,
  string_eq, option_eq, contains, length, All, len, is_text, strip, concat, has_text, splitlines,
  split_colons, split_colons_at_most, after_colon, join_colons, push,
}
use local_voice_agent.Value.{ℤ, pos}
use local_voice_agent.Prelude.{replace_char}
use local_voice_agent.Wifi.Host.{
  Wifi, Command, nmcli, gdbus, Completed, exited, Host, ok, run_nmcli, caught, ◌>>=◌,
}
use local_voice_agent.Wifi.Scan.{is_ssid, parse_line, keep_best, collect_best, sort, parse_scan}
use local_voice_agent.Wifi.Scan.Best.{IsEntry, IsDistinct, IsOrdered, IsCovered}
use local_voice_agent.Wifi.Scan.Laws.{parse_scan_listed}
use local_voice_agent.Wifi.Profiles.{saved_wifi_profiles}
use local_voice_agent.Wifi.Status.{
  status_of, scanned, scan_output, rescan_first, get_wifi_status, wifi_ifname,
}
use local_voice_agent.Wifi.Gvariant.{gvariant_str, joined, profile_payload, add_wifi_profile}
use local_voice_agent.Wifi.Gvariant.Quoted.{read_quoted, read-gvariant_str}
use local_voice_agent.Wifi.Connect.{connect_wifi}
use local_voice_agent.Wifi.Connect.Joined.{Seen, connect_wifi_joined}

-- The answers to the commands: the list, the adapter, and success
abbrev answer : Command → Completed
answer (gdbus payload) = exited true "(objectpath '/x',)" ""
answer (nmcli args) =
    if contains "ACTIVE,SSID,SIGNAL,SECURITY" args
    then exited true "no:Cafe:40:WPA2\nyes:Home:80:WPA2\nno:Home:95:WPA2\n" ""
    else if contains "DEVICE,TYPE,STATE" args
    then exited true "wlan0:wifi:connected" ""
    else exited true "" ""

abbrev last_answer : List Command → Completed
last_answer [] = exited true "" ""
last_answer (c ∷ []) = answer c
last_answer (c ∷ d ∷ cs) = last_answer (d ∷ cs)

abbrev signals : String → Option ℤ
signals text =
    if text == "40" then some (pos 40) else if text == "80" then some (pos 80) else some (pos 95)

abbrev host : Host
host = record {
  nmcli_available = true;
  gdbus_available = true;
  run = last_answer;
  lower = λ s. s;
  upper = λ s. s;
  to_int = signals;
  fresh_uuid = "u";
  ssid_bytes = λ s. "byte 0x48";
}

program : Unit {0}
unfolding run_nmcli caught ◌>>=◌ parse_line keep_best collect_best sort parse_scan
    saved_wifi_profiles status_of scanned scan_output rescan_first get_wifi_status wifi_ifname
    gvariant_str joined profile_payload add_wifi_profile connect_wifi strip splitlines split_colons
    split_colons_at_most after_colon join_colons push has_text replace_char concat
program = tt

abbrev run : Wifi String × List Command
run = connect_wifi host " Home " "secret pass" "WPA2" []

home_joined : run ≡ (ok "Home", run.1)
unfolding program
home_joined = refl

connect_wifi_joined_example :
    ("Home" ≡ strip " Home ")
    × (is_ssid "Home" ≡ true)
    × (len "secret pass" ≤ 128)
    × ((is_text "secret pass" ≡ true) → 8 ≤ len "secret pass")
    × Seen host "Home" run.1
connect_wifi_joined_example =
    connect_wifi_joined host " Home " "secret pass" "WPA2" "Home" [] run.1 home_joined

abbrev scan : String
scan = "no:Cafe:40:WPA2\nyes:Home:80:WPA2\nno:Home:95:WPA2\n"

parse_scan_listed_example :
    let networks = parse_scan host scan in
    (length networks ≤ 20)
    × All IsEntry networks
    × IsDistinct networks
    × IsOrdered networks
    × (length networks < 20 → All (IsCovered host networks) (splitlines scan))
parse_scan_listed_example = parse_scan_listed host scan

read-gvariant_str_example :
    read_quoted (concat (gvariant_str "it's \\ me") ">}") ≡ some ("it's \\ me", ">}")
read-gvariant_str_example = read-gvariant_str "it's \\ me" ">}"
