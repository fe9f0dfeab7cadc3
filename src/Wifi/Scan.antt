-- ===== src/Wifi/Scan.antt =====
-- kiosk_agent/wifi.py: `_parse_scan`.
pub mod Best
mod Sorted
pub mod Laws
use local_voice_agent.Prelude.{
  ℕ, zero, suc, min, String, Bool, true, false, not, ◌&&◌, Option, none, some, List, [], ◌∷◌, ltb,
  leb, if◌then◌else◌, ◌==◌, nat_eq, string_eq, option_eq, contains, length, take, len, is_text,
  strip, splitlines, split_colons_at_most,
}
use local_voice_agent.Value.{ℤ, pos, negsuc}
use local_voice_agent.Wifi.Host.{Host}

pub record Network : Type 0 where
  pub ssid : String
  pub signal : ℕ
  pub security : String
  pub secured : Bool
  pub active : Bool

-- `max(0, min(100, signal))`
abbrev pub clamp : ℤ → ℕ
clamp (pos n) = min 100 n
clamp (negsuc n) = 0

-- `int(text or 0)`, 0 where it is no integer
abbrev signal_of : Host → String → ℕ
signal_of host text =
    if not (is_text text) then 0 else elim (host.to_int text) [ none ↦ 0 | some n ↦ clamp n ]

-- `parts[n]`, blank where there are fewer parts
abbrev part : ℕ → List String → String
part n [] = ""
part zero (p ∷ ps) = p
part (suc n) (p ∷ ps) = part n ps

abbrev pub is_ssid : String → Bool
is_ssid s = is_text s && leb (len s) 64

abbrev network_of : Host → List String → Network
network_of host parts =
    let security = strip (part 3 parts) in
    record {
      ssid = strip (part 1 parts);
      signal = signal_of host (strip (part 2 parts));
      security = security;
      secured = not (contains security ("" ∷ "--" ∷ "none" ∷ "open" ∷ []));
      active = host.lower (strip (part 0 parts)) == "yes";
    }

-- The entry of a line, if it has one
unfoldable pub parse_line : Host → String → Option Network
unfolding strip split_colons_at_most
parse_line host line =
    let parts = split_colons_at_most 3 line in
    let n = network_of host parts in
    if ltb (length parts) 2 then none else if is_ssid n.ssid then some n else none

-- Whether an entry takes the place of the one before it with its name
abbrev pub replaces : Network → Network → Bool
replaces n previous =
    if n.active && not previous.active
    then true
    else (if n.active then previous.active else not previous.active) && ltb previous.signal n.signal

-- `best`, in the order in which the names came
unfoldable pub keep_best : Network → List Network → List Network
keep_best n [] = n ∷ []
keep_best n (m ∷ ms) =
    let rest = keep_best n ms in
    if m.ssid == n.ssid then (if replaces n m then n ∷ ms else m ∷ ms) else m ∷ rest

abbrev pub keep_entry : Option Network → List Network → List Network
keep_entry none best = best
keep_entry (some n) best = keep_best n best

unfoldable pub collect_best : Host → List String → List Network → List Network
unfolding parse_line keep_best
collect_best host [] best = best
collect_best host (line ∷ lines) best =
    collect_best host lines (keep_entry (parse_line host line) best)

-- `(not n["active"], -n["signal"])` is at most that of the other
abbrev pub precedes : Network → Network → Bool
precedes n m =
    if n.active && not m.active
    then true
    else if m.active && not n.active
    then false
    else leb m.signal n.signal

insert : Network → List Network → List Network
insert n [] = n ∷ []
insert n (m ∷ ms) = let rest = insert n ms in if precedes n m then n ∷ m ∷ ms else m ∷ rest

-- `networks.sort`, which is stable
unfoldable pub sort : List Network → List Network
unfolding insert
sort [] = []
sort (n ∷ ns) = insert n (sort ns)

abbrev pub max_networks : ℕ
max_networks = 20

-- `_parse_scan`
unfoldable pub parse_scan : Host → String → List Network
unfolding collect_best sort splitlines
parse_scan host output = take max_networks (sort (collect_best host (splitlines output) []))
