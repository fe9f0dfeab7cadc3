-- ===== src/Examples/Discovery.antt =====
-- A refresh of the addresses in a chalet with one controller.
use local_voice_agent.Prelude.{
  ◌+◌, ◌≡◌, refl, true, false, not, ◌&&◌, [], ◌∷◌, map, nat_eq, string_eq, option_eq, contains,
  count, strip,
}
use local_voice_agent.Models.{target_command_url}
use local_voice_agent.Discovery.Sync.{
  Device, is_updated, with_address, matching, judge, button_url, check_device, sync_remote_ips,
}
use local_voice_agent.Discovery.Sync.Refreshed.{
  refreshed, has_device_name, sync_remote_ips_outcome, sync_remote_ips_target,
}
use local_voice_agent.Examples.Data.{db, runtime, ac_remote}
use local_voice_agent.Examples.Remote.{volume_up}

abbrev found : Device
found = record { name = "ac-1"; ip = "10.0.0.6"; capabilities = "ac_control" ∷ [] }

ac_updated :
    judge runtime 50 (found ∷ []) ac_remote
    ≡ is_updated "10.0.0.6" (with_address 50 found ac_remote)
unfolding judge matching strip check_device
ac_updated = refl

sync_remote_ips_outcome_example :
    ((sync_remote_ips runtime 50 (found ∷ []) db).1.remotes
      ≡ map (refreshed runtime 50 (found ∷ [])) db.remotes)
    × (let c = (sync_remote_ips runtime 50 (found ∷ []) db).0 in
        c.updated + c.missing + c.ambiguous + c.incompatible ≡ count has_device_name db.remotes)
sync_remote_ips_outcome_example = sync_remote_ips_outcome runtime 50 (found ∷ []) db

sync_remote_ips_target_example :
    (d : Device) × (matching runtime (found ∷ []) ac_remote ≡ d ∷ [])
    × ((true && not (contains "ac_control" d.capabilities)) ≡ false)
    × ((false && not (contains "lg_tv_remote" d.capabilities)) ≡ false)
    × (refreshed runtime 50 (found ∷ []) ac_remote ≡ with_address 50 found ac_remote)
    × (target_command_url (with_address 50 found ac_remote) volume_up ≡ button_url d.ip)
sync_remote_ips_target_example =
    sync_remote_ips_target runtime 50 (found ∷ []) ac_remote (with_address 50 found ac_remote)
      "10.0.0.6" volume_up refl ac_updated refl
