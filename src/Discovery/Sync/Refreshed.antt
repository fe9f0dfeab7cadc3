-- ===== src/Discovery/Sync/Refreshed.antt =====
-- What a refresh leaves behind.
use local_voice_agent.Prelude.{
  ℕ, ◌+◌, String, ◌≡◌, refl, ap, inl, inr, Bool, true, false, not, ◌&&◌, List, [], ◌∷◌, map, arith,
  if◌then◌else◌, Bool-cases, nat_eq, string_eq, option_eq, contains, count, is_text,
}
use local_voice_agent.Value.{Runtime}
use local_voice_agent.Models.{
  Time, is_ac, is_lg_tv, RemoteControl, RemoteButton, target_command_url, Db,
}
use local_voice_agent.Discovery.Sync.{
  Device, Counts, zero_counts, Verdict, is_missing, is_ambiguous, is_incompatible, is_updated,
  with_address, button_url, matching, check_device, judge, State, apply_verdict, row_after,
  sync_loop, sync_remote_ips,
}

-- Every remote with a device name was counted once.
abbrev total : Counts → ℕ
total c = c.updated + c.missing + c.ambiguous + c.incompatible

abbrev pub has_device_name : RemoteControl → Bool
has_device_name r = is_text r.device_name

total-apply_verdict :
    (r : RemoteControl) (v : Verdict) (s : State)
    → total (apply_verdict r v s).counts ≡ total s.counts + 1
unfolding apply_verdict
total-apply_verdict r is_missing s = omega arith
total-apply_verdict r is_ambiguous s = omega arith
total-apply_verdict r (is_incompatible row) s = omega arith
total-apply_verdict r (is_updated ip row) s = omega arith

total-sync_loop :
    (runtime : Runtime) (now : Time) (devices : List Device) (remotes : List RemoteControl)
    (s : State)
    → total (sync_loop runtime now devices remotes s).1.counts
      ≡ total s.counts + count has_device_name remotes
unfolding sync_loop
total-sync_loop runtime now devices [] s = omega arith
total-sync_loop runtime now devices (r ∷ remotes) s = elim (Bool-cases (is_text r.device_name)) [
  | inl t ↦
      let v = judge runtime now devices r in
      ground (
        arith,
        total-sync_loop runtime now devices remotes (apply_verdict r v s),
        total-apply_verdict r v s,
      )
  | inr t ↦ ground (arith, total-sync_loop runtime now devices remotes s)
]

-- The row of a remote after the refresh
abbrev pub refreshed : Runtime → Time → List Device → RemoteControl → RemoteControl
refreshed runtime now devices r =
    if is_text r.device_name then row_after r (judge runtime now devices r) else r

rows-sync_loop :
    (runtime : Runtime) (now : Time) (devices : List Device) (remotes : List RemoteControl)
    (s : State)
    → (sync_loop runtime now devices remotes s).0 ≡ map (refreshed runtime now devices) remotes
unfolding sync_loop
rows-sync_loop runtime now devices [] s = refl
rows-sync_loop runtime now devices (r ∷ remotes) s =
    ap (λ rows. refreshed runtime now devices r ∷ rows)
      (rows-sync_loop runtime now devices remotes _)

-- A refresh changes the remotes one by one, each by its own verdict and only if it has a device name,
-- and counts every remote with a device name exactly once: updated, missing, ambiguous or
-- incompatible.
pub sync_remote_ips_outcome :
    (runtime : Runtime) (now : Time) (devices : List Device) (db : Db)
    → let (counts, after) = sync_remote_ips runtime now devices db in
      (after.remotes ≡ map (refreshed runtime now devices) db.remotes)
      × (counts.updated + counts.missing + counts.ambiguous + counts.incompatible
          ≡ count has_device_name db.remotes)
unfolding sync_remote_ips
sync_remote_ips_outcome runtime now devices db =
    let s : State = record { counts = zero_counts; buttons = db.buttons } in
    (
      rows-sync_loop runtime now devices db.remotes s,
      omega (arith, total-sync_loop runtime now devices db.remotes s),
    )

check_device-updated :
    (now : Time) (d : Device) (r row : RemoteControl) (ip : String)
    → check_device now d r ≡ is_updated ip row
    → (ip ≡ d.ip)
      × (row ≡ with_address now d r)
      × ((is_ac r.device_type && not (contains "ac_control" d.capabilities)) ≡ false)
      × ((is_lg_tv r.device_type && not (contains "lg_tv_remote" d.capabilities)) ≡ false)
unfolding check_device
check_device-updated now d r row ip h =
    elim (Bool-cases (is_ac r.device_type && not (contains "ac_control" d.capabilities))) [
      | inl a ↦ absurd (ground arith)
      | inr a ↦
          elim (Bool-cases
            (is_lg_tv r.device_type && not (contains "lg_tv_remote" d.capabilities))) [
              | inl t ↦ absurd (ground arith)
              | inr t ↦ (ground arith, ground arith, a, t)
            ]
    ]

judge-updated :
    (runtime : Runtime) (now : Time) (devices : List Device) (r row : RemoteControl) (ip : String)
    → judge runtime now devices r ≡ is_updated ip row
    → (d : Device) × (matching runtime devices r ≡ d ∷ [])
      × (check_device now d r ≡ is_updated ip row)
unfolding judge
judge-updated runtime now devices r row ip h = go (matching runtime devices r) refl
  where
    go :
        (ds : List Device)
        → matching runtime devices r ≡ ds
        → (d : Device) × (matching runtime devices r ≡ d ∷ [])
          × (check_device now d r ≡ is_updated ip row)
    go [] e = absurd (ground arith)
    go (d ∷ []) e = (d, e, ground arith)
    go (d ∷ other ∷ more) e = absurd (ground arith)

-- A remote that is updated has exactly one device of its name, which has the capability that its
-- type needs; from then on a press of any of its buttons goes to that device's address.
pub sync_remote_ips_target :
    (runtime : Runtime) (now : Time) (devices : List Device) (r row : RemoteControl) (ip : String)
    (button : RemoteButton)
    → is_text r.device_name ≡ true
    → judge runtime now devices r ≡ is_updated ip row
    → is_text ip ≡ true
    → (d : Device) × (matching runtime devices r ≡ d ∷ [])
      × ((is_ac r.device_type && not (contains "ac_control" d.capabilities)) ≡ false)
      × ((is_lg_tv r.device_type && not (contains "lg_tv_remote" d.capabilities)) ≡ false)
      × (refreshed runtime now devices r ≡ row)
      × (target_command_url row button ≡ button_url d.ip)
unfolding target_command_url
sync_remote_ips_target runtime now devices r row ip button n h t =
    let (d, m, c) = judge-updated runtime now devices r row ip h in
    let (same, shape, a, l) = check_device-updated now d r row ip c in
    let there : is_text d.ip ≡ true = rw same at t in
    (d, m, a, l, rw (n, h) refl, rw (shape, n, there) refl)
