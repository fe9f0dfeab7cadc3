-- ===== src/Tools/Runner.antt =====
-- `execute_tool` as its callers see it: the names of the tools, and one run of a tool.
use local_voice_agent.Prelude.{
  Option, String, ◌≡◌, Bool, List, [], ◌∷◌, nat_eq, string_eq, option_eq,
}
use local_voice_agent.Models.{Uuid, Db}

-- The keys of `TOOL_MODELS`
abbrev pub tool_names : List String
tool_names =
    "get_property_information" ∷ "request_property_staff" ∷ "get_emergency_contact"
    ∷ "list_remote_controls" ∷ "press_remote_button" ∷ "control_lg_tv" ∷ "set_air_conditioner" ∷ []

-- The JSON text that `execute_tool` returns, and the `ok` of the object in it
pub record ToolReply : Type 0 where
  pub content : String
  pub ok : Bool

-- What the callers rely on: a tool leaves the transcript, the stay and the sessions alone, also
-- where it raises (`none`).
pub record ToolRunner : Type 0 where
  pub execute : (name arguments : String) (stay request : Uuid) → Db → Option ToolReply × Db
  pub messages-execute :
      (name arguments : String) (stay request : Uuid) (db : Db)
      → (execute name arguments stay request db).1.messages ≡ db.messages
  pub next_message-execute :
      (name arguments : String) (stay request : Uuid) (db : Db)
      → (execute name arguments stay request db).1.next_message ≡ db.next_message
  pub sessions-execute :
      (name arguments : String) (stay request : Uuid) (db : Db)
      → (execute name arguments stay request db).1.sessions ≡ db.sessions
  pub config-execute :
      (name arguments : String) (stay request : Uuid) (db : Db)
      → (execute name arguments stay request db).1.config ≡ db.config
