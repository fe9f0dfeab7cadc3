-- ===== src/Wifi/Profiles.antt =====
-- kiosk_agent/wifi.py: `_saved_wifi_profiles`.
use local_voice_agent.Prelude.{
  code, String, Bool, true, false, ◌&&◌, Option, none, some, List, [], ◌∷◌, ◌++◌, if◌then◌else◌,
  ◌==◌, nat_eq, string_eq, option_eq, contains, select, any, all, is_text, or_text, strip, concat,
  splitlines, split_colons, after_colon, join_colons,
}
use local_voice_agent.Wifi.Host.{Wifi, ok, wifi_error, Command, Host, run_nmcli}

-- Names with the uuid of their connection, as a `dict`
abbrev pub Profiles : Type 0
Profiles = List (String × String)

abbrev pub profile_of : String → Profiles → Option String
profile_of name [] = none
profile_of name ((k, uuid) ∷ rest) = if k == name then some uuid else profile_of name rest

abbrev pub has_profile : String → Profiles → Bool
has_profile name profiles = any (λ (k, uuid). k == name) profiles

-- `profiles.setdefault(name, uuid)`
abbrev set_default : String → String → Profiles → Profiles
set_default name uuid profiles =
    if has_profile name profiles then profiles else profiles ++ (name, uuid) ∷ []

-- The last two of at least three parts; the name before them may hold colons.
last_two : List String → Option (String × String × String)
unfolding join_colons
last_two [] = none
last_two (a ∷ []) = none
last_two (a ∷ b ∷ []) = none
last_two (name ∷ uuid ∷ kind ∷ []) = some (name, uuid, kind)
last_two (name ∷ more ∷ uuid ∷ kind ∷ rest) = elim (last_two (more ∷ uuid ∷ kind ∷ rest)) [
  | none ↦ none
  | some (tail, u, k) ↦ some (concat name (concat ":" tail), u, k)
]

abbrev candidate : Option (String × String × String) → List (String × String)
candidate none = []
candidate (some (name, uuid, kind)) =
    if kind == "802-11-wireless" && is_text uuid then (name, uuid) ∷ [] else []

candidates : List String → List (String × String)
unfolding last_two split_colons concat
candidates [] = []
candidates (line ∷ lines) = candidate (last_two (split_colons line)) ++ candidates lines

-- The fast path: the name of the profile is the network's.
by_name : List String → List (String × String) → Profiles → Profiles
by_name wanted [] profiles = profiles
by_name wanted ((name, uuid) ∷ rest) profiles =
    by_name wanted rest (if contains name wanted then set_default name uuid profiles else profiles)

abbrev all_found : List String → Profiles → Bool
all_found wanted profiles = all (λ s. has_profile s profiles) wanted

-- The stored name of a profile, where it can be read
abbrev stored_ssid : String → Wifi String → Option String
stored_ssid name (wifi_error code message) = none
stored_ssid name (ok raw) = some (or_text (strip (after_colon raw)) name)

abbrev add_stored : List String → Option String → String → Profiles → Profiles
add_stored wanted none uuid profiles = profiles
add_stored wanted (some ssid) uuid profiles =
    if contains ssid wanted then set_default ssid uuid profiles else profiles

-- A name that was read and completes the wanted ones ends the loop.
abbrev is_last : List String → Option String → Profiles → Bool
is_last wanted none profiles = false
is_last wanted (some ssid) profiles = all_found wanted profiles

-- The slow path: the stored name is read.
by_stored_name :
    Host → List String → List (String × String) → Profiles → List Command → Profiles × List Command
unfolding run_nmcli strip after_colon
by_stored_name host wanted [] profiles sent = (profiles, sent)
by_stored_name host wanted ((name, uuid) ∷ rest) profiles sent =
    elim (any (λ (k, u). u == uuid) profiles) [
      | true ↦ by_stored_name host wanted rest profiles sent
      | false ↦
          let (r, sent') =
            run_nmcli host ("-t" ∷ "-f" ∷ "802-11-wireless.ssid" ∷ "con" ∷ "show" ∷ uuid ∷ [])
              sent in
          let ssid = stored_ssid name r in
          let profiles' = add_stored wanted ssid uuid profiles in
          elim (is_last wanted ssid profiles') [
            | true ↦ (profiles', sent')
            | false ↦ by_stored_name host wanted rest profiles' sent'
          ]
    ]

abbrev wanted_only : List String → Profiles → Profiles
wanted_only wanted profiles = select (λ (k, uuid). contains k wanted) profiles

resolve : Host → List String → List (String × String) → List Command → Profiles × List Command
unfolding by_name by_stored_name
resolve host wanted found sent =
    let named = by_name wanted found [] in
    if all_found wanted named then (named, sent) else by_stored_name host wanted found named sent

read_profiles : Host → List String → Wifi String × List Command → Profiles × List Command
unfolding resolve candidates splitlines
read_profiles host wanted (wifi_error code message, sent) = ([], sent)
read_profiles host wanted (ok out, sent) =
    let (profiles, sent') = resolve host wanted (candidates (splitlines out)) sent in
    (wanted_only wanted profiles, sent')

-- `_saved_wifi_profiles(only=wanted)`
unfoldable pub saved_wifi_profiles : Host → List String → List Command → Profiles × List Command
unfolding read_profiles run_nmcli
saved_wifi_profiles host wanted sent =
    read_profiles host wanted
      (run_nmcli host ("-t" ∷ "-f" ∷ "NAME,UUID,TYPE" ∷ "con" ∷ "show" ∷ []) sent)
