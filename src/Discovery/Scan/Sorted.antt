-- ===== src/Discovery/Scan/Sorted.antt =====
-- The sorting of the devices by their address.
use local_voice_agent.Prelude.{
  ℕ, suc, ◌≤◌, ◌≡◌, refl, ap, ◌∙◌, inl, inr, List, [], ◌∷◌, arith, leb, if_ind, leb→le, Bool-cases,
  nat_eq, string_eq, option_eq, length, All,
}
use local_voice_agent.Discovery.Identity.{Identity}
use local_voice_agent.Discovery.Scan.{insert_device, sort_devices}

abbrev pub IsAscending : List Identity → Type 0
IsAscending [] = Unit
IsAscending (d ∷ rest) = All (λ (e : Identity). d.ip ≤ e.ip) rest × IsAscending rest

pub insert_device-All :
    (P : Identity → Type 0) (d : Identity) (ds : List Identity)
    → P d
    → All P ds
    → All P (insert_device d ds)
unfolding insert_device
insert_device-All P d [] p a = (p, tt)
insert_device-All P d (e ∷ rest) p a =
    if_ind (All P) (leb d.ip e.ip) (p, a) (a.0, insert_device-All P d rest p a.1)

pub sort_devices-All :
    (P : Identity → Type 0) (ds : List Identity) → All P ds → All P (sort_devices ds)
unfolding sort_devices
sort_devices-All P [] a = tt
sort_devices-All P (d ∷ rest) a =
    insert_device-All P d (sort_devices rest) a.0 (sort_devices-All P rest a.1)

All-later :
    (m n : ℕ) (ds : List Identity)
    → m ≤ n
    → All (λ (e : Identity). n ≤ e.ip) ds
    → All (λ (e : Identity). m ≤ e.ip) ds
All-later m n [] h a = tt
All-later m n (d ∷ rest) h a = (omega (arith, h, a.0), All-later m n rest h a.1)

insert_device-IsAscending :
    (d : Identity) (ds : List Identity) → IsAscending ds → IsAscending (insert_device d ds)
unfolding insert_device
insert_device-IsAscending d [] a = (tt, tt)
insert_device-IsAscending d (e ∷ rest) a = elim (Bool-cases (leb d.ip e.ip)) [
  | inl b ↦
      let low : d.ip ≤ e.ip = leb→le d.ip e.ip b in
      rw b ((low, All-later d.ip e.ip rest low a.0), a)
  | inr b ↦ rw b (
    insert_device-All (λ (f : Identity). e.ip ≤ f.ip) d rest (ground arith) a.0,
    insert_device-IsAscending d rest a.1,
  )
]

pub sort_devices-IsAscending : (ds : List Identity) → IsAscending (sort_devices ds)
unfolding sort_devices
sort_devices-IsAscending [] = tt
sort_devices-IsAscending (d ∷ rest) =
    insert_device-IsAscending d (sort_devices rest) (sort_devices-IsAscending rest)

length-insert_device :
    (d : Identity) (ds : List Identity) → length (insert_device d ds) ≡ suc (length ds)
unfolding insert_device
length-insert_device d [] = refl
length-insert_device d (e ∷ rest) = ground (arith, length-insert_device d rest)

pub length-sort_devices : (ds : List Identity) → length (sort_devices ds) ≡ length ds
unfolding sort_devices
length-sort_devices [] = refl
length-sort_devices (d ∷ rest) =
    length-insert_device d (sort_devices rest) ∙ ap suc (length-sort_devices rest)
