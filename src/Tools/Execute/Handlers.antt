-- ===== src/Tools/Execute/Handlers.antt =====
-- What each handler writes.
use local_voice_agent.Prelude.{
  ℕ, code, String, ◌≡◌, refl, ap, inl, inr, Bool, true, false, not, ◌&&◌, ◌||◌, some, List, [], ◌∷◌,
  if_ind, Option-cases, nat_eq, string_eq, option_eq, contains, select, first, any,
}
use local_voice_agent.Value.{Dict, Runtime}
use local_voice_agent.Models.{Uuid, DeviceType, is_ac, RemoteControl, AcState, Db}
use local_voice_agent.Ac.Validate.{ac_error, attribute_error, Result, ok, err}
use local_voice_agent.Ac.Http.{Request, Controller}
use local_voice_agent.Ac.Control.{create_state, save_state, commit, set_ac_state}
use local_voice_agent.Ac.Control.Stored.{set_ac_state_cases}
use local_voice_agent.Remote.Press.{
  Pressed, done, refused, PressResult, Ready, load_pressable_button,
}
use local_voice_agent.Remote.Press.Audited.{press_remote_button_audited}
use local_voice_agent.Remote.Tv.{TvResult, tv_error, TvRequest}
use local_voice_agent.Tools.Input.{
  ToolInput, property_info, staff_request, emergency_contact, list_remotes, press_button, lg_tv,
  air_conditioner,
}
use local_voice_agent.Tools.Reply.{Outside, HandlerRun, stay_matches, is_empty}
use local_voice_agent.Tools.Local.{staff_request_local, add_request, enqueue_forwarding}
use local_voice_agent.Tools.Listing.{
  list_remote, list_remotes_from, list_remote_controls, is_voice_remote,
}
use local_voice_agent.Tools.Press.{
  press_refused, valid_confirmation_token, press_ready, confirm_and_press, press_remote_button_tool,
  is_voice_tv, tv_outcome, control_lg_tv,
}
use local_voice_agent.Tools.Air.{
  given, ac_outcome, change_device, is_voice_ac, set_air_conditioner, audit_ac_control,
}
use local_voice_agent.Tools.Execute.{run_handler}
use local_voice_agent.Tools.Execute.Kept.{
  Same, Kept, Same-refl, Same-trans, Same-tables, Kept-Same, Kept-audit, Kept-refl,
}

create_state-Same : (device : ℕ) (db : Db) → Same db (create_state device db)
unfolding create_state
create_state-Same device db =
    if_ind (Same db) (any _ db.ac_states) (Same-refl db) (Same-tables db _ _ _)

save_state-Same : (state : AcState) (db : Db) → Same db (save_state state db)
unfolding save_state
save_state-Same state db =
    if_ind (Same db) (any _ db.ac_states) (Same-tables db _ _ _) (Same-tables db _ _ _)

list_remote-Same :
    (runtime : Runtime) (r : RemoteControl) (db : Db) → Same db (list_remote runtime r db).1
unfolding list_remote
list_remote-Same runtime r db = go r.device_type refl
  where
    go : (t : DeviceType) → r.device_type ≡ t → Same db (list_remote runtime r db).1
    go DeviceType.raw e = rw (e, list_remote) (Same-refl db)
    go DeviceType.lg_tv e = rw (e, list_remote) (Same-refl db)
    go DeviceType.ac e = rw (e, list_remote) (create_state-Same r.pk db)

list_remotes_from-Same :
    (runtime : Runtime) (rs : List RemoteControl) (db : Db)
    → Same db (list_remotes_from runtime rs db).1
unfolding list_remotes_from
list_remotes_from-Same runtime [] db = Same-refl db
list_remotes_from-Same runtime (r ∷ rs) db =
    let after = (list_remote runtime r db).1 in
    Same-trans db after _ (list_remote-Same runtime r db) (list_remotes_from-Same runtime rs after)

module _ (stay request : Uuid) (db : Db) where
  list_remote_controls-Kept :
      (runtime : Runtime) → Kept stay db (list_remote_controls runtime stay db).1
  unfolding list_remote_controls
  list_remote_controls-Kept runtime =
      if_ind (λ (r : HandlerRun). Kept stay db r.1) (not (stay_matches stay db)) (Kept-refl stay db)
        (Kept-Same stay db _
          (list_remotes_from-Same runtime (select is_voice_remote db.remotes) db))

  staff_request_local-Kept :
      (queue_accepts : ℕ → Bool) (service details urgency : String)
      → Kept stay db (staff_request_local queue_accepts service details urgency stay request db).1
  unfolding staff_request_local add_request enqueue_forwarding
  staff_request_local-Kept queue_accepts service details urgency =
      if_ind (λ (r : HandlerRun). Kept stay db r.1) (not (stay_matches stay db)) (Kept-refl stay db)
        (if_ind (λ (r : HandlerRun). Kept stay db r.1)
          (not (is_empty db.config.enabled_services || contains service db.config.enabled_services))
          (Kept-refl stay db)
          (if_ind (Kept stay db) (queue_accepts db.next_staff_request)
            (Kept-audit stay _ _ _ db _ (Same-tables db _ _ _))
            (Kept-audit stay _ _ _ db _ (Same-tables db _ _ _))))

  tv_outcome-Kept :
      (device : RemoteControl) (command : String) (r : TvResult Dict × List TvRequest)
      → Kept stay db (tv_outcome device command stay request db r).1
  unfolding tv_outcome
  tv_outcome-Kept device command (tv_error code, sent) = Kept-audit stay _ _ _ db db (Same-refl db)
  tv_outcome-Kept device command (TvResult.ok d, sent) = Kept-audit stay _ _ _ db db (Same-refl db)

  control_lg_tv-Kept :
      (outside : Outside) (device_id : ℕ) (command : String)
      → Kept stay db (control_lg_tv outside.tv_controller device_id command stay request db).1
  unfolding control_lg_tv
  control_lg_tv-Kept outside device_id command =
      if_ind (λ (r : HandlerRun). Kept stay db r.1) (not (stay_matches stay db)) (Kept-refl stay db)
        (elim (Option-cases (first (is_voice_tv device_id) db.remotes)) [
          | inl e ↦ rw e (Kept-refl stay db)
          | inr (device, e) ↦ rw e (tv_outcome-Kept device command _)
        ])

  commit-Same : (r : Result AcState × List Request) → Same db (commit db r).1
  unfolding commit
  commit-Same (ok state, sent) = save_state-Same state db
  commit-Same (err e, sent) = Same-refl db

  set_ac_state-Same :
      (runtime : Runtime) (controller : Controller) (device_id : ℕ) (changes : Dict) (id : String)
      → Same db (set_ac_state runtime controller device_id changes id db).1
  set_ac_state-Same runtime controller device_id changes id =
      set_ac_state_cases runtime controller (λ r. Same db r.1) device_id changes id db
        (λ e. Same-refl db) λ device f a u. commit-Same _

  ac_outcome-Kept :
      (device : RemoteControl) (changes : Dict) (r : (Result AcState × List Request) × Db)
      → Same db r.1
      → Kept stay db (ac_outcome stay request device changes r).1
  unfolding ac_outcome audit_ac_control
  ac_outcome-Kept device changes ((err attribute_error, sent), after) s = Kept-Same stay db after s
  ac_outcome-Kept device changes ((err (ac_error code http), sent), after) s =
      Kept-audit stay _ _ _ db after s
  ac_outcome-Kept device changes ((ok state, sent), after) s = Kept-audit stay _ _ _ db after s

  change_device-Kept :
      (outside : Outside) (device : RemoteControl) (changes : Dict) (blocked : List String)
      → Kept stay db
          (change_device outside.world.runtime outside.ac_controller outside.uuid_text device
            changes blocked stay request db).1
  unfolding change_device
  change_device-Kept outside device changes (f ∷ fs) = Kept-refl stay db
  change_device-Kept outside device changes [] =
      ac_outcome-Kept device changes _ (set_ac_state-Same _ _ device.pk changes _)

  set_air_conditioner-Kept :
      (outside : Outside) (device_id : ℕ) (state : Dict)
      → Kept stay db
          (set_air_conditioner outside.world.runtime outside.ac_controller outside.uuid_text
            device_id state stay request db).1
  unfolding set_air_conditioner
  set_air_conditioner-Kept outside device_id state =
      if_ind (λ (r : HandlerRun). Kept stay db r.1) (not (stay_matches stay db)) (Kept-refl stay db)
        (elim (Option-cases (first (is_voice_ac device_id) db.remotes)) [
          | inl e ↦ rw e (Kept-refl stay db)
          | inr (device, e) ↦ rw e (change_device-Kept outside device (given state) _)
        ])

  press_ready-Kept :
      (outside : Outside) (ready : Ready)
      → Kept stay db (press_ready outside ready stay request db).1
  unfolding press_ready
  press_ready-Kept outside ready =
      elim (press_remote_button_audited outside.world ready.button.pk "voice" (some stay)
        (some request) false true db) [
          | inl (s, d, e) ↦ rw d (Kept-refl stay db)
          | inr (found, l, s, inl (v, details, e)) ↦
              rw (ap (λ (r : Pressed PressResult × Db). r.1) e)
                (Kept-audit stay _ _ _ db db (Same-refl db))
          | inr (found, l, s, inr (inl (code, http, details, e))) ↦
              rw (ap (λ (r : Pressed PressResult × Db). r.1) e)
                (Kept-audit stay _ _ _ db db (Same-refl db))
          | inr (found, l, s, inr (inr e)) ↦
              rw (ap (λ (r : Pressed PressResult × Db). r.1) e) (Kept-refl stay db)
        ]

  confirm_and_press-Kept :
      (outside : Outside) (ready : Ready) (token : String)
      → Kept stay db (confirm_and_press outside ready token stay request db).1
  unfolding confirm_and_press
  confirm_and_press-Kept outside ready token =
      if_ind (λ (r : HandlerRun). Kept stay db r.1) (is_ac ready.remote.device_type)
        (Kept-refl stay db)
        (if_ind (λ (r : HandlerRun). Kept stay db r.1)
          (ready.button.requires_confirmation
            && not (valid_confirmation_token outside token ready.button.pk stay request))
          (Kept-refl stay db) (press_ready-Kept outside ready))

  press_remote_button_tool-Kept :
      (outside : Outside) (button_id : ℕ) (token : String)
      → Kept stay db (press_remote_button_tool outside button_id token stay request db).1
  unfolding press_remote_button_tool
  press_remote_button_tool-Kept outside button_id token =
      if_ind (λ (r : HandlerRun). Kept stay db r.1) (not (stay_matches stay db)) (Kept-refl stay db)
        (go (load_pressable_button outside.world button_id false true db))
    where
      go :
          (l : Pressed Ready)
          → Kept stay db
              (elim l as (λ _. HandlerRun) [
                | refused e ↦ ((press_refused outside e, []), db)
                | done ready ↦ confirm_and_press outside ready token stay request db
              ]).1
      go (refused e) = Kept-refl stay db
      go (done ready) = confirm_and_press-Kept outside ready token

  pub run_handler-Kept :
      (outside : Outside) (input : ToolInput)
      → Kept stay db (run_handler outside input stay request db).1
  unfolding run_handler
  run_handler-Kept outside (property_info topic) = Kept-refl stay db
  run_handler-Kept outside (staff_request service details urgency) =
      staff_request_local-Kept outside.queue_accepts service details urgency
  run_handler-Kept outside (emergency_contact reason) = Kept-refl stay db
  run_handler-Kept outside list_remotes = list_remote_controls-Kept outside.world.runtime
  run_handler-Kept outside (press_button button_id token) =
      press_remote_button_tool-Kept outside button_id token
  run_handler-Kept outside (lg_tv device_id command) = control_lg_tv-Kept outside device_id command
  run_handler-Kept outside (air_conditioner device_id state) =
      set_air_conditioner-Kept outside device_id state
