-- ===== src/Discovery/Sync.antt =====
-- kiosk_agent/tasks.py: `sync_remote_ips`, with the discovered devices as an argument.
pub mod Refreshed
use local_voice_agent.Prelude.{
  ℕ, ◌+◌, ◌/◌, String, Bool, true, false, not, ◌&&◌, ◌||◌, Option, none, some, List, [], ◌∷◌,
  if◌then◌else◌, ◌==◌, nat_eq, string_eq, option_eq, contains, select, count, update, is_text,
  strip, concat,
}
use local_voice_agent.Value.{Runtime}
use local_voice_agent.Models.{Time, is_ac, is_lg_tv, RemoteControl, RemoteButton, ip_text, Db}

-- What the task reads of a discovered device
pub record Device : Type 0 where
  pub name : String
  pub ip : String
  pub capabilities : List String

pub record Counts : Type 0 where
  pub updated : ℕ
  pub updated_buttons : ℕ
  pub missing : ℕ
  pub ambiguous : ℕ
  pub incompatible : ℕ

abbrev pub zero_counts : Counts
zero_counts = record {
  updated = 0;
  updated_buttons = 0;
  missing = 0;
  ambiguous = 0;
  incompatible = 0;
}

-- What happens to one remote
pub data Verdict : Type 0 where
  is_missing : Verdict
  is_ambiguous : Verdict
  is_incompatible : RemoteControl → Verdict
  is_updated : String → RemoteControl → Verdict

abbrev is_some {ℓ} : {A : Type ℓ} → Option A → Bool
is_some none = false
is_some (some a) = true

-- An air conditioner whose device has no AC control loses its address.
abbrev pub without_address : RemoteControl → RemoteControl
without_address r = record r { device_ip = none; device_last_seen_at = none }

abbrev pub with_address : Time → Device → RemoteControl → RemoteControl
with_address now d r = record r {
  device_ip = some d.ip;
  device_last_seen_at = some now;
  controller_url = if is_lg_tv r.device_type then concat "http://" d.ip else r.controller_url;
}

abbrev pub button_url : String → String
button_url ip = concat "http://" (concat ip "/ir")

-- The texts that the code compares: stripped, then folded
abbrev pub name_key : Runtime → String → String
name_key runtime name = runtime.casefold (strip name)

-- `devices_by_name.get(…, [])`
unfoldable pub matching : Runtime → List Device → RemoteControl → List Device
matching runtime devices r =
    select (λ (d : Device). name_key runtime d.name == name_key runtime r.device_name) devices

unfoldable pub check_device : Time → Device → RemoteControl → Verdict
check_device now d r =
    if is_ac r.device_type && not (contains "ac_control" d.capabilities)
    then is_incompatible (
        if is_text (ip_text r.device_ip) || is_some r.device_last_seen_at
        then without_address r
        else r)
    else if is_lg_tv r.device_type && not (contains "lg_tv_remote" d.capabilities)
    then is_incompatible r
    else is_updated d.ip (with_address now d r)

-- The body of the loop, for one remote
unfoldable pub judge : Runtime → Time → List Device → RemoteControl → Verdict
unfolding matching check_device
judge runtime now devices r = elim (matching runtime devices r) [
  | [] ↦ is_missing
  | d ∷ [] ↦ check_device now d r
  | d ∷ other ∷ more ↦ is_ambiguous
]

abbrev pub is_button_of : ℕ → RemoteButton → Bool
is_button_of remote b = b.remote == remote

-- `remote.buttons.update(command_url=…)`
abbrev pub set_buttons : ℕ → String → List RemoteButton → List RemoteButton
set_buttons remote ip buttons =
    update (is_button_of remote) (λ b. record b { command_url = button_url ip }) buttons

pub record State : Type 0 where
  pub counts : Counts
  pub buttons : List RemoteButton

-- The counters and the buttons after one remote
apply_verdict : RemoteControl → Verdict → State → State
apply_verdict r is_missing s =
    let c = s.counts in record s { counts = record c { missing = c.missing + 1 } }
apply_verdict r is_ambiguous s =
    let c = s.counts in record s { counts = record c { ambiguous = c.ambiguous + 1 } }
apply_verdict r (is_incompatible row) s =
    let c = s.counts in record s { counts = record c { incompatible = c.incompatible + 1 } }
apply_verdict r (is_updated ip row) s =
    let c = s.counts in
    record {
      counts = record c {
        updated = c.updated + 1;
        updated_buttons = c.updated_buttons + count (is_button_of r.pk) s.buttons;
      };
      buttons = set_buttons r.pk ip s.buttons;
    }

-- The row that a verdict saves
abbrev pub row_after : RemoteControl → Verdict → RemoteControl
row_after r is_missing = r
row_after r is_ambiguous = r
row_after r (is_incompatible row) = row
row_after r (is_updated ip row) = row

-- The loop over the remotes that have a device name
unfoldable pub sync_loop :
    Runtime → Time → List Device → List RemoteControl → State → List RemoteControl × State
unfolding judge apply_verdict
sync_loop runtime now devices [] s = ([], s)
sync_loop runtime now devices (r ∷ remotes) s =
    let v = judge runtime now devices r in
    let next = if is_text r.device_name then apply_verdict r v s else s in
    let (rows, final) = sync_loop runtime now devices remotes next in
    ((if is_text r.device_name then row_after r v else r) ∷ rows, final)

-- `sync_remote_ips`
unfoldable pub sync_remote_ips : Runtime → Time → List Device → Db → Counts × Db
unfolding sync_loop
sync_remote_ips runtime now devices db =
    let (rows, final) =
      sync_loop runtime now devices db.remotes
        (record { counts = zero_counts; buttons = db.buttons }) in
    (final.counts, record db { remotes = rows; buttons = final.buttons })

-- `sync_remote_ips_task`: a failed discovery (`none`) changes nothing.
unfoldable pub sync_remote_ips_task : Runtime → Time → Option (List Device) → Db → Counts × Db
sync_remote_ips_task runtime now none db = (zero_counts, db)
sync_remote_ips_task runtime now (some devices) db = sync_remote_ips runtime now devices db
