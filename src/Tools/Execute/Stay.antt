-- ===== src/Tools/Execute/Stay.antt =====
-- A tool that is called for another stay than the current one.
use local_voice_agent.Prelude.{
  String, ◌≡◌, refl, inl, inr, false, [], Option-cases, nat_eq, string_eq, option_eq,
}
use local_voice_agent.Models.{Uuid, Db}
use local_voice_agent.Tools.Input.{
  ToolInput, property_info, staff_request, emergency_contact, list_remotes, press_button, lg_tv,
  air_conditioner, tool_of, validate_json,
}
use local_voice_agent.Tools.Reply.{Outside, stay_matches}
use local_voice_agent.Tools.Local.{staff_request_local}
use local_voice_agent.Tools.Listing.{list_remote_controls}
use local_voice_agent.Tools.Press.{press_remote_button_tool, control_lg_tv}
use local_voice_agent.Tools.Air.{set_air_conditioner}
use local_voice_agent.Tools.Execute.{run_handler, execute_tool}

module _ (outside : Outside) (stay request : Uuid) (db : Db)
    (other : stay_matches stay db ≡ false) where
  run_handler-other :
      (input : ToolInput)
      → let r = run_handler outside input stay request db in (r.0.1 ≡ []) × (r.1 ≡ db)
  unfolding run_handler staff_request_local list_remote_controls press_remote_button_tool
      control_lg_tv set_air_conditioner
  run_handler-other (property_info topic) = (refl, refl)
  run_handler-other (staff_request service details urgency) = rw other (refl, refl)
  run_handler-other (emergency_contact reason) = (refl, refl)
  run_handler-other list_remotes = rw other (refl, refl)
  run_handler-other (press_button button_id token) = rw other (refl, refl)
  run_handler-other (lg_tv device_id command) = rw other (refl, refl)
  run_handler-other (air_conditioner device_id state) = rw other (refl, refl)

  -- A tool that is called for another stay than the current one, with whatever name and arguments,
  -- sends nothing to any device and writes nothing.
  pub execute_tool_other_stay :
      (name raw_arguments : String)
      → let r = execute_tool outside name raw_arguments stay request db in (r.0.1 ≡ []) × (r.1 ≡ db)
  unfolding execute_tool
  execute_tool_other_stay name raw_arguments = elim (Option-cases (tool_of name)) [
    | inl e ↦ rw (e, execute_tool) (refl, refl)
    | inr (tool, e) ↦ elim (Option-cases (validate_json outside.pydantic tool raw_arguments)) [
      | inl v ↦ rw (e, execute_tool, v) (refl, refl)
      | inr (input, v) ↦ rw (e, execute_tool, v) (run_handler-other input)
    ]
  ]
