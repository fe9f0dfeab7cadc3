-- ===== src/Tools/Execute/Runner.antt =====
-- What `execute_tool` writes, and so the tools as their callers take them.
use local_voice_agent.Prelude.{String, inl, inr, Option-cases, nat_eq, string_eq, option_eq}
use local_voice_agent.Models.{Uuid, Db}
use local_voice_agent.Tools.Runner.{ToolRunner}
use local_voice_agent.Tools.Input.{tool_of, validate_json}
use local_voice_agent.Tools.Reply.{Outside}
use local_voice_agent.Tools.Execute.{execute_tool}
use local_voice_agent.Tools.Execute.Kept.{Kept, Kept-refl}
use local_voice_agent.Tools.Execute.Handlers.{run_handler-Kept}

module _ (stay request : Uuid) (db : Db) where
  -- Whatever tool the model calls with whatever arguments, also where it raises, the transcript, the
  -- counter of the messages, the sessions, the chalet with its stay, the remotes and their buttons
  -- are those from before, and the audit log has at most one row more, which is of the calling stay.
  pub execute_tool-Kept :
      (outside : Outside) (name raw_arguments : String)
      → Kept stay db (execute_tool outside name raw_arguments stay request db).1
  unfolding execute_tool
  execute_tool-Kept outside name raw_arguments = elim (Option-cases (tool_of name)) [
    | inl e ↦ rw (e, execute_tool) (Kept-refl stay db)
    | inr (tool, e) ↦ elim (Option-cases (validate_json outside.pydantic tool raw_arguments)) [
      | inl v ↦ rw (e, execute_tool, v) (Kept-refl stay db)
      | inr (input, v) ↦ rw (e, execute_tool, v) (run_handler-Kept stay request db outside input)
    ]
  ]

-- `execute_tool` as the callers take it
unfoldable pub tool_runner : Outside → ToolRunner
unfolding execute_tool
tool_runner outside = record {
  execute = λ name arguments stay request db.
      let ((reply, sent), after) = execute_tool outside name arguments stay request db in
      (reply, after);
  messages-execute = λ name arguments stay request db.
      (execute_tool-Kept stay request db outside name arguments).messages;
  next_message-execute = λ name arguments stay request db.
      (execute_tool-Kept stay request db outside name arguments).next_message;
  sessions-execute = λ name arguments stay request db.
      (execute_tool-Kept stay request db outside name arguments).sessions;
  config-execute = λ name arguments stay request db.
      (execute_tool-Kept stay request db outside name arguments).config;
}
