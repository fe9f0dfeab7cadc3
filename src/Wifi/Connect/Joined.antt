-- ===== src/Wifi/Connect/Joined.antt =====
-- A connection that succeeds was seen by a scan.
use local_voice_agent.Prelude.{
  ◌≤◌, code, String, ◌≡◌, refl, ap, inl, inr, Bool, true, false, not, ◌&&◌, some, List, [], ◌∷◌,
  map, arith, eq_iff, ltb, if_ind, Bool-cases, Option-cases, ◌==◌, nat_eq, string_eq, option_eq,
  beq_refl, first, any, len, is_text, strip,
}
use local_voice_agent.Wifi.Host.{Wifi, ok, wifi_error, Command, Host, >>=-eq-ok, run_nmcli}
use local_voice_agent.Wifi.Scan.{Network, is_ssid, parse_scan}
use local_voice_agent.Wifi.Profiles.{Profiles, has_profile, saved_wifi_profiles}
use local_voice_agent.Wifi.Status.{
  WifiStatus, status_of, scanned, scan_output, rescan_first, get_wifi_status,
}
use local_voice_agent.Wifi.Connect.{join_profile, verify, join, key_management, connect_wifi}

-- The status lists a network of this name as the active one.
abbrev pub IsJoined : String → WifiStatus → Type 0
IsJoined name status = any (λ (n, saved). n.active && n.ssid == name) status.networks ≡ true

first-listed :
    (networks : List Network) (profiles : Profiles) (n : Network)
    → first (λ m. m.active) networks ≡ some n
    → any
        (λ ((m, saved) : Network × Bool). m.active && m.ssid == n.ssid)
        (map (λ m. (m, has_profile m.ssid profiles)) networks)
      ≡ true
first-listed [] profiles n h = absurd (ground arith)
first-listed (m ∷ ms) profiles n h = elim (Bool-cases m.active) [
  | inl a ↦
      let same : m ≡ n = ground arith in
      rw (a, ap (λ (k : Network). k.ssid) same, beq_refl n.ssid) refl
  | inr a ↦ rw (a, first-listed ms profiles n (rw a at h)) refl
]

status_of-IsJoined :
    (host : Host) (networks : List Network) (profiles : Profiles) (connectivity : Wifi String)
    → is_text (status_of host networks profiles connectivity).ssid ≡ true
    → IsJoined
        (status_of host networks profiles connectivity).ssid
        (status_of host networks profiles connectivity)
unfolding status_of
status_of-IsJoined host networks profiles connectivity h =
    elim (Option-cases (first (λ n. n.active) networks)) [
      | inl e ↦ absurd (ground (arith, rw e at h))
      | inr (n, e) ↦ rw e (first-listed networks profiles n e)
    ]

scanned-IsJoined :
    (host : Host) (r : Wifi String × List Command)
    → is_text (scanned host r).0.ssid ≡ true
    → IsJoined (scanned host r).0.ssid (scanned host r).0
unfolding scanned
scanned-IsJoined host (wifi_error code message, sent) h = absurd (ground arith)
scanned-IsJoined host (ok out, sent) h =
    let networks = parse_scan host out in
    let (profiles, between) = saved_wifi_profiles host (map (λ n. n.ssid) networks) sent in
    status_of-IsJoined host networks profiles
      (run_nmcli host ("networking" ∷ "connectivity" ∷ []) between).0 h

pub get_wifi_status-IsJoined :
    (host : Host) (rescan : Bool) (sent : List Command)
    → is_text (get_wifi_status host rescan sent).0.ssid ≡ true
    → IsJoined (get_wifi_status host rescan sent).0.ssid (get_wifi_status host rescan sent).0
unfolding get_wifi_status
get_wifi_status-IsJoined host rescan sent =
    if_ind (λ (r : WifiStatus × List Command). is_text r.0.ssid ≡ true → IsJoined r.0.ssid r.0)
      (not host.nmcli_available) (λ h. absurd (ground arith))
      (λ h. scanned-IsJoined host (scan_output host rescan (rescan_first host rescan sent)) h)

-- What the last look at the networks has shown
abbrev pub Seen : Host → String → List Command → Type 0
Seen host name sent' =
    (before : List Command) × (status : WifiStatus) × (get_wifi_status host false before
      ≡ (status, sent'))
    × IsJoined name status

seen :
    (host : Host) (name : String) (before sent' : List Command)
    → is_text name ≡ true
    → (get_wifi_status host false before).0.ssid ≡ name
    → (get_wifi_status host false before).1 ≡ sent'
    → Seen host name sent'
seen host name before sent' t same last = (
  before,
  (get_wifi_status host false before).0,
  ap (λ l. ((get_wifi_status host false before).0, l)) last,
  rw same at (get_wifi_status-IsJoined host false before (rw same t)),
)

verify-Seen :
    (host : Host) (ssid name : String) (sent sent' : List Command)
    → is_text ssid ≡ true
    → verify host ssid sent ≡ (ok name, sent')
    → (name ≡ ssid) × Seen host ssid sent'
unfolding verify
verify-Seen host ssid name sent sent' t h =
    let once = get_wifi_status host false sent in
    elim (Bool-cases (once.0.ssid == ssid)) [
      | inl e ↦
          let h' = rw (e, verify) at h in
          (ground arith, seen host ssid sent sent' t ((eq_iff once.0.ssid ssid).0 e) (ground arith))
      | inr e ↦
          let again = get_wifi_status host false once.1 in
          elim (Bool-cases (again.0.ssid == ssid)) [
            | inl f ↦
                let h' = rw (e, verify, f) at h in
                (
                  ground arith,
                  seen host ssid once.1 sent' t ((eq_iff again.0.ssid ssid).0 f) (ground arith),
                )
            | inr f ↦ let h' = rw (e, verify, f) at h in absurd (ground arith)
          ]
    ]

join-Seen :
    (host : Host) (ssid password key_mgmt name : String) (sent sent' : List Command)
    → is_text ssid ≡ true
    → join host ssid password key_mgmt sent ≡ (ok name, sent')
    → (name ≡ ssid) × Seen host ssid sent'
unfolding join
join-Seen host ssid password key_mgmt name sent sent' t h =
    let (a, between, e) =
      >>=-eq-ok (join_profile host ssid password key_mgmt) (λ joined. verify host ssid) sent h in
    verify-Seen host ssid name between sent' t e

-- A connection that succeeds gives the stripped name, of 1 to 64 characters, was tried with no
-- password or one of 8 to 128 characters, and ended with a status that lists this network as active;
-- nothing was run behind that status.
pub connect_wifi_joined :
    (host : Host) (ssid password security name : String) (sent sent' : List Command)
    → connect_wifi host ssid password security sent ≡ (ok name, sent')
    → (name ≡ strip ssid)
      × (is_ssid name ≡ true)
      × (len password ≤ 128)
      × ((is_text password ≡ true) → 8 ≤ len password)
      × Seen host name sent'
unfolding connect_wifi
connect_wifi_joined host ssid password security name sent sent' h =
    elim (Bool-cases (is_ssid (strip ssid))) [
      | inr s ↦ let h' = rw (s, connect_wifi) at h in absurd (ground arith)
      | inl s ↦ elim (Bool-cases (ltb 128 (len password))) [
        | inl l ↦ let h' = rw (s, connect_wifi, l) at h in absurd (ground arith)
        | inr l ↦ elim (Bool-cases (is_text password && ltb (len password) 8)) [
          | inl p ↦ let h' = rw (s, connect_wifi, l, p) at h in absurd (ground arith)
          | inr p ↦
              let (same, look) =
                join-Seen host (strip ssid) password (key_management host security) name sent sent'
                  (ground arith) (rw (s, connect_wifi, l, p) at h) in
              (same, rw same s, ground arith, (λ t. ground arith), rw same look)
        ]
      ]
    ]
