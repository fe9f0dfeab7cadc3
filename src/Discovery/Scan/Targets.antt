-- ===== src/Discovery/Scan/Targets.antt =====
-- The addresses that a scan probes.
use local_voice_agent.Prelude.{
  ℕ, zero, suc, ◌+◌, ◌-◌, ◌≤◌, ◌<◌, ◌≡◌, ◌⊎◌, some, ltb, inl, inr, Bool, true, not, Option, List,
  [], ◌∷◌, arith, nat_beq→eq, Bool-cases, Option-cases, ◌*◌, ◌/◌, ◌==◌, nat_eq, string_eq,
  option_eq, take, select, All, All-select,
}
use local_voice_agent.Discovery.Scan.{Chosen, narrow, Network, interval, hosts, is_own, targets}

abbrev pub InNetwork : Network → ℕ → Type 0
InNetwork network ip =
    (network.network_address ≤ ip) × (ip < network.network_address + network.num_addresses)

interval-All :
    (low high a n : ℕ)
    → low ≤ a
    → (0 < n → a + n ≤ high)
    → All (λ ip. (low ≤ ip) × (ip < high)) (interval a n)
unfolding interval
interval-All low high a zero l h = tt
interval-All low high a (suc n) l h =
    let top : a + suc n ≤ high = h (omega arith) in
    ((l, omega arith), interval-All low high (suc a) n (omega arith) (λ p. omega arith))

-- An address of the network, and neither its first nor its last one, unless it has at most two
abbrev pub IsHost : Network → ℕ → Type 0
IsHost network ip =
    InNetwork network ip
    × ((network.num_addresses ≤ 2)
        ⊎ ((network.network_address < ip)
            × (suc ip < network.network_address + network.num_addresses)))

inner-IsHost :
    (network : Network) (ips : List ℕ)
    → All
        (λ ip.
          (suc network.network_address ≤ ip)
          × (ip < network.network_address + network.num_addresses - 1))
        ips
    → All (IsHost network) ips
inner-IsHost network [] a = tt
inner-IsHost network (ip ∷ ips) ((low, high), a) =
    (((omega arith, omega arith), inr (omega arith, omega arith)), inner-IsHost network ips a)

hosts-IsHost : (network : Network) → All (IsHost network) (hosts network)
unfolding hosts
hosts-IsHost network =
    let many =
      inner-IsHost network (interval (suc network.network_address) (network.num_addresses - 2)) (
        interval-All (suc network.network_address)
          (network.network_address + network.num_addresses - 1) (suc network.network_address)
          (network.num_addresses - 2) (omega arith) (λ p. omega arith)) in
    elim (Bool-cases (network.num_addresses == 1)) [
      | inl e ↦
          let one : network.num_addresses ≡ 1 = nat_beq→eq network.num_addresses 1 e in
          rw e (((omega arith, omega (arith, one)), inl (omega (arith, one))), tt)
      | inr e ↦ elim (Bool-cases (network.num_addresses == 2)) [
        | inl f ↦
            let two : network.num_addresses ≡ 2 = nat_beq→eq network.num_addresses 2 f in
            let few : network.num_addresses ≤ 2 = omega (arith, two) in
            rw (e, f)
              (
                ((omega arith, omega (arith, two)), inl few),
                (((omega arith, omega (arith, two)), inl few), tt),
              )
        | inr f ↦ rw (e, f) many
      ]
    ]

module _ {ℓ κ} {A : Type ℓ} where
  All-take : (P : A → Type κ) (n : ℕ) (xs : List A) → All P xs → All P (take n xs)
  All-take P zero xs a = tt
  All-take P (suc n) [] a = tt
  All-take P (suc n) (x ∷ xs) a = (a.0, All-take P n xs a.1)

module _ {ℓ} {A : Type ℓ} where
  select-All : (p : A → Bool) (xs : List A) → All (λ x. p x ≡ true) (select p xs)
  select-All p [] = tt
  select-All p (x ∷ xs) = elim (Bool-cases (p x)) [
    | inl e ↦ rw e (e, select-All p xs)
    | inr e ↦ rw e (select-All p xs)
  ]

pub targets-IsHost :
    (most : ℕ) (local_ip : Option ℕ) (network : Network)
    → All (IsHost network) (targets most local_ip network)
targets-IsHost most local_ip network =
    All-take (IsHost network) most (select (λ ip. not (is_own local_ip ip)) (hosts network)) (
      All-select (IsHost network) (λ ip. not (is_own local_ip ip)) (hosts network)
        (hosts-IsHost network))

pub targets-own :
    (most : ℕ) (local_ip : Option ℕ) (network : Network)
    → All (λ ip. not (is_own local_ip ip) ≡ true) (targets most local_ip network)
targets-own most local_ip network =
    All-take (λ ip. not (is_own local_ip ip) ≡ true) most
      (select (λ ip. not (is_own local_ip ip)) (hosts network))
      (select-All (λ ip. not (is_own local_ip ip)) (hosts network))

-- The network that is scanned: the chosen one if it has at most `most` hosts, else the 256 addresses
-- around the own address
abbrev pub IsNarrowed : ℕ → Chosen → Network → Type 0
IsNarrowed most chosen network =
    ((chosen.network.num_addresses ≤ most + 2) × (network ≡ chosen.network))
    ⊎ ((most + 2 < chosen.network.num_addresses)
        × (own : ℕ) × (chosen.local_ip ≡ some own)
        × (network ≡ record { network_address = own / 256 * 256; num_addresses = 256 }))

pub narrow-IsNarrowed :
    (most : ℕ) (chosen : Chosen) (network : Network)
    → narrow most chosen ≡ some network
    → IsNarrowed most chosen network
unfolding narrow
narrow-IsNarrowed most chosen network h =
    elim (Bool-cases (ltb most (chosen.network.num_addresses - 2))) [
      | inr e ↦ inl (ground arith, ground arith)
      | inl e ↦ elim (Option-cases chosen.local_ip) [
        | inl f ↦ absurd (ground arith)
        | inr (own, f) ↦ inr (ground arith, own, f, ground arith)
      ]
    ]
