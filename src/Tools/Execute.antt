-- ===== src/Tools/Execute.antt =====
-- kiosk_agent/core/tools.py: `execute_tool`.
pub mod Kept
mod Handlers
pub mod Runner
pub mod Stay
pub mod Escape
use local_voice_agent.Prelude.{
  code, String, Bool, true, false, Option, none, some, List, [], ◌∷◌, nat_eq, string_eq, option_eq,
}
use local_voice_agent.Value.{bool, str, dict, Dict, fields}
use local_voice_agent.Models.{Uuid, Db}
use local_voice_agent.Tools.Runner.{ToolReply}
use local_voice_agent.Tools.Input.{
  Tool, ToolInput, property_info, staff_request, emergency_contact, list_remotes, press_button,
  lg_tv, air_conditioner, tool_of, validate_json,
}
use local_voice_agent.Tools.Reply.{Outside, Handled, replied, raised, Sent, HandlerRun, quiet}
use local_voice_agent.Tools.Local.{property_information, emergency_contact_of, staff_request_local}
use local_voice_agent.Tools.Listing.{list_remote_controls}
use local_voice_agent.Tools.Press.{press_remote_button_tool, control_lg_tv}
use local_voice_agent.Tools.Air.{set_air_conditioner}

module _ (outside : Outside) where
  -- `TOOL_HANDLERS[name]`, by the constructor of the input
  unfoldable pub run_handler : ToolInput → (stay request : Uuid) → Db → HandlerRun
  unfolding property_information emergency_contact_of staff_request_local list_remote_controls
      press_remote_button_tool control_lg_tv set_air_conditioner
  run_handler (property_info topic) stay request db =
      quiet (property_information outside.world.runtime topic stay db) db
  run_handler (staff_request service details urgency) stay request db =
      staff_request_local outside.queue_accepts service details urgency stay request db
  run_handler (emergency_contact reason) stay request db = quiet (emergency_contact_of stay db) db
  run_handler list_remotes stay request db = list_remote_controls outside.world.runtime stay db
  run_handler (press_button button_id token) stay request db =
      press_remote_button_tool outside button_id token stay request db
  run_handler (lg_tv device_id command) stay request db =
      control_lg_tv outside.tv_controller device_id command stay request db
  run_handler (air_conditioner device_id state) stay request db =
      set_air_conditioner outside.world.runtime outside.ac_controller outside.uuid_text device_id
        state stay request db

  reply : Bool → Dict → ToolReply
  reply ok d = record { content = outside.dumps (("ok", bool ok) ∷ d); ok = ok }

  failure : String → ToolReply
  unfolding reply
  failure code = reply false (("error", str code) ∷ [])

  finished : Handled → ToolReply
  unfolding reply failure
  finished (replied result) = reply true (("result", dict (fields result)) ∷ [])
  finished raised = failure "tool_execution_failed"

  -- The clause for a `ValidationError`: `none` where its details are no JSON, so that `json.dumps`
  -- raises a `TypeError`
  invalid : Tool → String → Option ToolReply
  unfolding reply
  invalid tool raw_arguments = elim (outside.validation_errors tool raw_arguments) [
    | none ↦ none
    | some details ↦
        some (reply false (("error", str "validation_error") ∷ ("details", details) ∷ []))
  ]

  -- `execute_tool`: its JSON text, or `none` for an exception; what was sent; and the database
  unfoldable pub execute_tool :
      (name raw_arguments : String) (stay request : Uuid) → Db → (Option ToolReply × List Sent) × Db
  unfolding validate_json run_handler finished failure invalid
  execute_tool name raw_arguments stay request db = elim (tool_of name) [
    | none ↦ ((some (failure "unknown_tool"), []), db)
    | some tool ↦ elim (validate_json outside.pydantic tool raw_arguments) [
      | none ↦ ((invalid tool raw_arguments, []), db)
      | some input ↦
          let ((handled, sent), after) = run_handler input stay request db in
          ((some (finished handled), sent), after)
    ]
  ]
