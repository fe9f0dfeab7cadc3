-- ===== src/Examples/Scan.antt =====
-- A scan of the wireless network of a chalet, while a container's network is the default one.
use local_voice_agent.Prelude.{
  ℕ, ◌+◌, ◌*◌, ◌/◌, ◌≡◌, refl, none, some, List, [], ◌∷◌, if◌then◌else◌, ◌==◌, nat_eq, string_eq,
  option_eq, strip,
}
use local_voice_agent.Value.{
  pos, str, list, dict, nil, cons, Dict, items, fields, lookup, get_or, get, put,
}
use local_voice_agent.Discovery.Identity.{
  IdentityAnswer, Identity, Probe, answered, failed, identity_of, probe_identity, stripped,
  stripped_all,
}
use local_voice_agent.Discovery.Scan.{
  Ipv4, Interfaces, read_item, candidates, choose, local_scan_network, interval, hosts, narrow,
  probe_all, insert_device, sort_devices, found, discovery_error, discover_identity_devices,
}
use local_voice_agent.Discovery.Scan.Probed.{Scanned, discover_identity_devices-Scanned}
use local_voice_agent.Examples.Data.{runtime}

-- 10.0.0.0 and 172.17.0.0
abbrev lan : ℕ
lan = 167772160

abbrev containers : ℕ
containers = 2886795264

abbrev ipv4 : Ipv4
ipv4 = record {
  read_network = λ s.
      if s == "10.0.0.0/8"
      then some (record { network_address = lan; num_addresses = 16777216 })
      else none;
  read_address = λ s. if s == "10.0.0.2" then some (lan + 2) else some (containers + 1);
  network_of = λ ip mask.
      if mask == "255.255.255.248"
      then some (record { network_address = ip / 8 * 8; num_addresses = 8 })
      else some (record { network_address = ip / 65536 * 65536; num_addresses = 65536 });
}

abbrev host : Interfaces
host = record {
  default = some "docker0";
  items =
      record { interface = "docker0"; addr = "172.17.0.1"; netmask = "255.255.0.0" }
      ∷ record { interface = "wlan0"; addr = "10.0.0.2"; netmask = "255.255.255.248" }
      ∷ [];
}

abbrev payload : Dict
payload =
    ("protocol", str "wazen-device-identity/1")
    ∷ ("device_name", str " ac-1 ")
    ∷ ("device_type", str "esp32")
    ∷ ("capabilities", list (cons (str "ac_control") nil))
    ∷ []

abbrev answer : IdentityAnswer
answer = record { status = 200; size = 120; json = some (dict (fields payload)) }

abbrev probe : ℕ → Probe
probe ip = if ip == lan + 5 then answered answer else failed

abbrev device : Identity
device = record {
  name = "ac-1";
  device_type = "esp32";
  ip = lan + 5;
  device_id = "";
  hostname = "";
  firmware_version = "";
  capabilities = "ac_control" ∷ [];
}

abbrev probed : List ℕ
probed = (lan + 1) ∷ (lan + 3) ∷ (lan + 4) ∷ (lan + 5) ∷ (lan + 6) ∷ []

scan_found :
    discover_identity_devices runtime ipv4 "" (pos 1024) (some host) probe
    ≡ (found (device ∷ []), probed)
unfolding discover_identity_devices local_scan_network candidates read_item choose strip hosts
    interval narrow probe_all probe_identity identity_of stripped stripped_all get get_or lookup
    items put sort_devices insert_device
scan_found = refl

-- A configured network that is too large is refused, and nothing is probed.
scan_refused :
    discover_identity_devices runtime ipv4 " 10.0.0.0/8 " (pos 1024) (some host) probe
    ≡ (discovery_error, [])
unfolding discover_identity_devices local_scan_network strip narrow
scan_refused = refl

discover_identity_devices-Scanned_example :
    Scanned runtime ipv4 "" (pos 1024) (some host) probe (found (device ∷ []), probed)
unfolding discover_identity_devices local_scan_network candidates read_item choose strip hosts
    interval narrow probe_all probe_identity identity_of stripped stripped_all get get_or lookup
    items put sort_devices insert_device
discover_identity_devices-Scanned_example =
    discover_identity_devices-Scanned runtime ipv4 "" (pos 1024) (some host) probe
