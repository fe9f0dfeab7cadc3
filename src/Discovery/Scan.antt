-- ===== src/Discovery/Scan.antt =====
-- kiosk_agent/device_discovery.py: the choice of the network, and `discover_identity_devices`.
pub mod Probed
pub mod Sorted
pub mod Targets
use local_voice_agent.Prelude.{
  ℕ, zero, suc, ◌-◌, ◌*◌, ◌/◌, max, String, Bool, true, false, not, ◌||◌, Option, none, some, List,
  [], ◌∷◌, ltb, leb, if◌then◌else◌, ◌==◌, nat_eq, string_eq, option_eq, take, select, first, prefix,
  is_text, strip,
}
use local_voice_agent.Value.{ℤ, pos, negsuc, items, Runtime}
use local_voice_agent.Discovery.Identity.{Identity, Probe, probe_identity}

-- `IPv4Network`: its first address, and how many it has
pub record Network : Type 0 where
  pub network_address : ℕ
  pub num_addresses : ℕ

-- What the scan takes from the `ipaddress` module: the reading of a network, of an address, and of
-- the network of an address with a netmask; `none` is a `ValueError`.
pub record Ipv4 : Type 0 where
  pub read_network : String → Option Network
  pub read_address : String → Option ℕ
  pub network_of : ℕ → String → Option Network

-- An item of `netifaces.ifaddresses`; a missing entry is a blank text.
pub record InterfaceItem : Type 0 where
  pub interface : String
  pub addr : String
  pub netmask : String

-- What `netifaces` says: the interface of the default gateway, and the items in order
pub record Interfaces : Type 0 where
  pub default : Option String
  pub items : List InterfaceItem

pub record Candidate : Type 0 where
  pub network : Network
  pub ip : ℕ
  pub interface : String

-- The network, the own address, and the interface
pub record Chosen : Type 0 where
  pub network : Network
  pub local_ip : Option ℕ
  pub interface : String

-- `is_loopback` and `is_link_local`: 127.0.0.0/8 and 169.254.0.0/16
abbrev pub is_local_only : ℕ → Bool
is_local_only ip = ip / 16777216 == 127 || ip / 65536 == 43518

-- An item that is passed over, one that is taken, and one that raises
pub data ItemResult : Type 0 where
  skipped : ItemResult
  taken : Candidate → ItemResult
  value_error : ItemResult

unfoldable pub read_item : Ipv4 → InterfaceItem → ItemResult
read_item ipv4 item =
    if item.interface == "lo"
    then skipped
    else if not (is_text item.addr) || not (is_text item.netmask)
    then skipped
    else elim (ipv4.read_address item.addr) [
      | none ↦ value_error
      | some ip ↦ if is_local_only ip then skipped else elim (ipv4.network_of ip item.netmask) [
        | none ↦ value_error
        | some network ↦ taken (record { network = network; ip = ip; interface = item.interface })
      ]
    ]

abbrev with_item : ItemResult → Option (List Candidate) → Option (List Candidate)
with_item value_error rest = none
with_item skipped rest = rest
with_item (taken c) none = none
with_item (taken c) (some cs) = some (c ∷ cs)

-- The loop over the interfaces; `none` is a `ValueError`.
unfoldable pub candidates : Ipv4 → List InterfaceItem → Option (List Candidate)
unfolding read_item
candidates ipv4 [] = some []
candidates ipv4 (item ∷ rest) = with_item (read_item ipv4 item) (candidates ipv4 rest)

-- `startswith(("wl", "en", "eth"))`
abbrev pub is_physical : Candidate → Bool
is_physical c =
    prefix 2 c.interface == "wl" || prefix 2 c.interface == "en" || prefix 3 c.interface == "eth"

abbrev pub on_default : Option String → Candidate → Bool
on_default none c = false
on_default (some interface) c = c.interface == interface

-- `a`, or `b` if there is no `a`
abbrev or_else {ℓ} : {A : Type ℓ} → Option A → Option A → Option A
or_else none b = b
or_else (some a) b = some a

abbrev every : Candidate → Bool
every c = true

-- A physical interface comes before any other, and among these the default one first.
unfoldable pub choose : Option String → List Candidate → Option Candidate
choose default addresses =
    let physical = select is_physical addresses in
    or_else (first (on_default default) physical) (
      or_else (first every physical)
        (or_else (first (on_default default) addresses) (first every addresses)))

abbrev chosen_of : Candidate → Chosen
chosen_of c = record { network = c.network; local_ip = some c.ip; interface = c.interface }

-- The interfaces, if no network is configured
abbrev inspected : Ipv4 → Option Interfaces → Option Chosen
inspected ipv4 none = none
inspected ipv4 (some host) = elim (candidates ipv4 host.items) [
  | none ↦ none
  | some addresses ↦ elim (choose host.default addresses) [
    | none ↦ none
    | some c ↦ some (chosen_of c)
  ]
]

abbrev configured : Network → Chosen
configured network = record { network = network; local_ip = none; interface = "configured" }

-- `_local_scan_network`, from the setting and from what `netifaces` says, `none` if it raises.
-- The result `none` is a `DeviceDiscoveryError`.
unfoldable pub local_scan_network : Ipv4 → String → Option Interfaces → Option Chosen
unfolding strip candidates choose
local_scan_network ipv4 setting host =
    if is_text (strip setting)
    then elim (ipv4.read_network (strip setting)) [
      | none ↦ none
      | some network ↦ some (configured network)
    ]
    else inspected ipv4 host

-- `max(1, int(setting))`
abbrev pub at_least_one : ℤ → ℕ
at_least_one (pos n) = max 1 n
at_least_one (negsuc n) = 1

-- `n` addresses from `a` on
unfoldable pub interval : ℕ → ℕ → List ℕ
interval a zero = []
interval a (suc n) = a ∷ interval (suc a) n

-- `network.hosts()`: without the first and the last address, unless there are at most two
unfoldable pub hosts : Network → List ℕ
unfolding interval
hosts network =
    if network.num_addresses == 1
    then network.network_address ∷ []
    else if network.num_addresses == 2
    then network.network_address ∷ suc network.network_address ∷ []
    else interval (suc network.network_address) (network.num_addresses - 2)

-- A broad network is refused if it is configured, and else cut to the /24 of the own address.
unfoldable pub narrow : ℕ → Chosen → Option Network
narrow max_hosts chosen =
    if ltb max_hosts (chosen.network.num_addresses - 2)
    then elim chosen.local_ip [
      | none ↦ none
      | some ip ↦ some (record { network_address = ip / 256 * 256; num_addresses = 256 })
    ]
    else some chosen.network

abbrev pub is_own : Option ℕ → ℕ → Bool
is_own none ip = false
is_own (some own) ip = ip == own

-- The loop over the hosts, which passes the own address over and ends at `max_hosts` targets
abbrev pub targets : ℕ → Option ℕ → Network → List ℕ
targets max_hosts local_ip network =
    take max_hosts (select (λ ip. not (is_own local_ip ip)) (hosts network))

-- `if result`: the results that are devices
abbrev pub with_device : Option Identity → List Identity → List Identity
with_device none found = found
with_device (some d) found = d ∷ found

module _ (runtime : Runtime) (probe : ℕ → Probe) where
  -- The results of the probes that are devices, in the order of the targets
  unfoldable pub probe_all : List ℕ → List Identity
  probe_all [] = []
  probe_all (ip ∷ rest) = with_device (probe_identity runtime ip (probe ip)) (probe_all rest)

-- `sorted` by address
unfoldable pub insert_device : Identity → List Identity → List Identity
insert_device d [] = d ∷ []
insert_device d (e ∷ rest) =
    let later = insert_device d rest in if leb d.ip e.ip then d ∷ e ∷ rest else e ∷ later

unfoldable pub sort_devices : List Identity → List Identity
unfolding insert_device
sort_devices [] = []
sort_devices (d ∷ rest) = insert_device d (sort_devices rest)

pub data ScanResult : Type 0 where
  found : List Identity → ScanResult
  discovery_error : ScanResult

-- The probes of the targets of the network that is left, `none` if it is refused
abbrev pub probe_network : Runtime → (ℕ → Probe) → ℕ → Chosen → Option Network → ScanResult × List ℕ
probe_network runtime probe most chosen none = (discovery_error, [])
probe_network runtime probe most chosen (some network) =
    let probed = targets most chosen.local_ip network in
    (found (sort_devices (probe_all runtime probe probed)), probed)

abbrev pub scan_chosen : Runtime → (ℕ → Probe) → ℕ → Option Chosen → ScanResult × List ℕ
scan_chosen runtime probe most none = (discovery_error, [])
scan_chosen runtime probe most (some chosen) =
    probe_network runtime probe most chosen (narrow most chosen)

-- `discover_identity_devices`, with the addresses that are probed. The pool's threads keep the
-- order of the targets, so a probe is a function of the address.
unfoldable pub discover_identity_devices :
    Runtime → Ipv4 → String → ℤ → Option Interfaces → (ℕ → Probe) → ScanResult × List ℕ
discover_identity_devices runtime ipv4 setting max_setting host probe =
    scan_chosen runtime probe (at_least_one max_setting) (local_scan_network ipv4 setting host)
