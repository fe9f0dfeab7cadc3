-- ===== src/Discovery/Scan/Probed.antt =====
-- What a scan probes and finds.
use local_voice_agent.Prelude.{
  ℕ, suc, ◌≤◌, String, ◌≡◌, refl, sym, ap, ◌∙◌, subst, inl, inr, Bool, true, false, not, Option,
  none, some, List, [], ◌∷◌, arith, if◌then◌else◌, Bool-cases, Option-cases, nat_eq, string_eq,
  option_eq, contains, length, length-take-le, select, count, All, is_text, strip,
}
use local_voice_agent.Value.{ℤ, Value, Dict, as_dict, as_str, get, Runtime}
use local_voice_agent.Discovery.Identity.{
  Identity, Probe, answered, failed, stripped, identity_of, probe_identity, named_by, identity_with,
  or_value,
}
use local_voice_agent.Discovery.Scan.Targets.{
  IsHost, IsNarrowed, targets-IsHost, targets-own, narrow-IsNarrowed,
}
use local_voice_agent.Discovery.Scan.Sorted.{
  IsAscending, sort_devices-All, sort_devices-IsAscending, length-sort_devices,
}
use local_voice_agent.Discovery.Scan.{
  probe_network, scan_chosen, Network, Ipv4, Interfaces, Chosen, local_scan_network, at_least_one,
  hosts, narrow, is_own, targets, probe_all, with_device, ScanResult, found, discovery_error,
  discover_identity_devices,
}

-- The text of a stripped value is not blank.
stripped-text : (v : Value) (s : String) → stripped v ≡ some s → is_text s ≡ true
unfolding stripped
stripped-text v s h = elim (Option-cases (as_str v)) [
  | inl e ↦ absurd (ground arith)
  | inr (t, e) ↦ elim (Bool-cases (is_text (strip t))) [
    | inl f ↦ let same : strip t ≡ s = ground arith in subst (λ s. is_text s ≡ true) same f
    | inr f ↦ absurd (ground arith)
  ]
]

abbrev is_device : Option Identity → Bool
is_device none = false
is_device (some d) = true

module _ (runtime : Runtime) where
  -- A device as the probe of its own address gave it, with a name and a type
  abbrev pub Named : ℕ → Identity → Type 0
  Named ip d = (d.ip ≡ ip) × (is_text d.name ≡ true) × (is_text d.device_type ≡ true)

  identity_of-Named :
      (ip : ℕ) (payload : Dict) (d : Identity)
      → identity_of runtime ip payload ≡ some d
      → Named ip d
  unfolding identity_of
  identity_of-Named ip payload d h =
      elim (Option-cases (named_by runtime "device_name" "name" payload)) [
        | inl e ↦ absurd (ground arith)
        | inr (name, e) ↦ elim (Option-cases (named_by runtime "device_type" "type" payload)) [
          | inl f ↦ absurd (ground arith)
          | inr (kind, f) ↦
              let shape : identity_with runtime ip payload name kind ≡ d = ground arith in
              subst (Named ip) shape (
                refl,
                stripped-text
                    (or_value runtime.real_is_zero (get "device_name" payload) (get "name" payload))
                    name e,
                stripped-text
                    (or_value runtime.real_is_zero (get "device_type" payload) (get "type" payload))
                    kind f,
              )
        ]
      ]

  probe_identity-Named :
      (ip : ℕ) (p : Probe) (d : Identity) → probe_identity runtime ip p ≡ some d → Named ip d
  unfolding probe_identity
  probe_identity-Named ip failed d h = absurd (ground arith)
  probe_identity-Named ip (answered a) d h = elim (Option-cases a.json) [
    | inl e ↦ absurd (ground arith)
    | inr (v, e) ↦ elim (Option-cases (as_dict v)) [
      | inl f ↦ absurd (ground arith)
      | inr (payload, f) ↦ identity_of-Named ip payload d (ground arith)
    ]
  ]

  module _ (probe : ℕ → Probe) where
    -- The address was probed, and its answer is this device.
    abbrev pub Answered : List ℕ → Identity → Type 0
    Answered probed d =
        (contains d.ip probed ≡ true)
        × (probe_identity runtime d.ip (probe d.ip) ≡ some d)
        × (is_text d.name ≡ true)
        × (is_text d.device_type ≡ true)

    -- How many of these addresses answer as a device
    abbrev pub answering : List ℕ → ℕ
    answering probed = count (λ ip. is_device (probe_identity runtime ip (probe ip))) probed

    length-with_device :
        (o : Option Identity) (ds : List Identity)
        → length (with_device o ds) ≡ (if is_device o then suc (length ds) else length ds)
    length-with_device none ds = refl
    length-with_device (some d) ds = refl

    length-probe_all :
        (probed : List ℕ) → length (probe_all runtime probe probed) ≡ answering probed
    unfolding probe_all
    length-probe_all [] = refl
    length-probe_all (ip ∷ rest) =
        length-with_device (probe_identity runtime ip (probe ip)) (probe_all runtime probe rest)
        ∙ ap (λ n. if is_device (probe_identity runtime ip (probe ip)) then suc n else n)
            (length-probe_all rest)

    Answered-cons :
        (ip : ℕ) (rest : List ℕ) (ds : List Identity)
        → All (Answered rest) ds
        → All (Answered (ip ∷ rest)) ds
    Answered-cons ip rest [] a = tt
    Answered-cons ip rest (d ∷ ds) ((among, same, name, kind), a) =
        ((ground arith, same, name, kind), Answered-cons ip rest ds a)

    with_device-Answered :
        (ip : ℕ) (rest : List ℕ) (o : Option Identity) (ds : List Identity)
        → probe_identity runtime ip (probe ip) ≡ o
        → All (Answered (ip ∷ rest)) ds
        → All (Answered (ip ∷ rest)) (with_device o ds)
    with_device-Answered ip rest none ds e a = a
    with_device-Answered ip rest (some d) ds e a =
        let (own, name, kind) = probe_identity-Named ip (probe ip) d e in
        (
          (
            ground arith,
            subst (λ i. probe_identity runtime i (probe i) ≡ some d) (sym own) e,
            name,
            kind,
          ),
          a,
        )

    probe_all-Answered : (probed : List ℕ) → All (Answered probed) (probe_all runtime probe probed)
    unfolding probe_all
    probe_all-Answered [] = tt
    probe_all-Answered (ip ∷ rest) =
        with_device-Answered ip rest (probe_identity runtime ip (probe ip))
          (probe_all runtime probe rest) refl
          (Answered-cons ip rest (probe_all runtime probe rest) (probe_all-Answered rest))

  -- What a scan ends with: after an error nothing was probed; else every device stands by an answer
  abbrev pub Scanned :
      Ipv4 → String → ℤ → Option Interfaces → (ℕ → Probe) → ScanResult × List ℕ → Type 0
  Scanned ipv4 setting max_setting host probe (discovery_error, probed) = probed ≡ []
  Scanned ipv4 setting max_setting host probe (found devices, probed) =
      (chosen : Chosen) × (network : Network) × (local_scan_network ipv4 setting host ≡ some chosen)
      × IsNarrowed (at_least_one max_setting) chosen network
      × All (IsHost network) probed
      × All (λ ip. not (is_own chosen.local_ip ip) ≡ true) probed
      × (length probed ≤ at_least_one max_setting)
      × All (Answered probe probed) devices
      × (length devices ≡ answering probe probed)
      × IsAscending devices

  -- A scan that ends with an error has probed nothing. Else every probed address is a host of the
  -- chosen network, neither its first nor its last address unless it has at most two, or, if that
  -- network has more than `max_hosts` hosts, of the 256 addresses around the own address; none is the
  -- own address, and there are at most `max_hosts`. Every device found has a name and a type and is what the answer of its own
  -- address says, an address that was probed; there are as many as addresses that answer as a
  -- device, and they ascend by address.
  pub discover_identity_devices-Scanned :
      (ipv4 : Ipv4) (setting : String) (max_setting : ℤ) (host : Option Interfaces)
      (probe : ℕ → Probe)
      → Scanned ipv4 setting max_setting host probe
          (discover_identity_devices runtime ipv4 setting max_setting host probe)
  unfolding discover_identity_devices
  discover_identity_devices-Scanned ipv4 setting max_setting host probe =
      from (local_scan_network ipv4 setting host) refl
    where
      most : ℕ
      most = at_least_one max_setting

      within :
          (chosen : Chosen)
          → local_scan_network ipv4 setting host ≡ some chosen
          → (o : Option Network) → narrow most chosen ≡ o
          → Scanned ipv4 setting max_setting host probe (probe_network runtime probe most chosen o)
      within chosen e none f = refl
      within chosen e (some network) f =
          let probed = targets most chosen.local_ip network in
          let devices = probe_all runtime probe probed in
          (
            chosen,
            network,
            e,
            narrow-IsNarrowed most chosen network f,
            targets-IsHost most chosen.local_ip network,
            targets-own most chosen.local_ip network,
            length-take-le most (select (λ ip. not (is_own chosen.local_ip ip)) (hosts network)),
            sort_devices-All (Answered probe probed) devices (probe_all-Answered probe probed),
            length-sort_devices devices ∙ length-probe_all probe probed,
            sort_devices-IsAscending devices,
          )

      from :
          (o : Option Chosen)
          → local_scan_network ipv4 setting host ≡ o
          → Scanned ipv4 setting max_setting host probe (scan_chosen runtime probe most o)
      from none e = refl
      from (some chosen) e = within chosen e (narrow most chosen) refl
