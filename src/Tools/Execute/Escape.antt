-- ===== src/Tools/Execute/Escape.antt =====
-- The exceptions that leave `execute_tool`.
use local_voice_agent.Prelude.{
  String, ◌≡◌, refl, ◌↔◌, inl, inr, none, some, arith, Option-cases, nat_eq, string_eq, option_eq,
}
use local_voice_agent.Models.{Uuid, Db}
use local_voice_agent.Tools.Input.{Tool, tool_of, validate_json}
use local_voice_agent.Tools.Reply.{Outside}
use local_voice_agent.Tools.Execute.{execute_tool, invalid}

module _ (outside : Outside) (name raw_arguments : String) (stay request : Uuid) (db : Db) where
  -- `execute_tool` gives its caller a JSON text, for an unknown name and for a handler that raises
  -- too, but for one case: an exception leaves it if and only if the arguments of a known tool are
  -- refused by its model with errors whose details are no JSON.
  pub execute_tool_escapes :
      ((execute_tool outside name raw_arguments stay request db).0.0 ≡ none) ↔ (
        (tool : Tool) × (tool_of name ≡ some tool)
        × (validate_json outside.pydantic tool raw_arguments ≡ none)
        × (outside.validation_errors tool raw_arguments ≡ none))
  unfolding execute_tool invalid
  execute_tool_escapes = (
    (λ h. elim (Option-cases (tool_of name)) [
      | inl e ↦ let h' = rw (e, execute_tool) at h in absurd (ground arith)
      | inr (tool, e) ↦ elim (Option-cases (validate_json outside.pydantic tool raw_arguments)) [
        | inr (input, v) ↦ let h' = rw (e, execute_tool, v) at h in absurd (ground arith)
        | inl v ↦ elim (Option-cases (outside.validation_errors tool raw_arguments)) [
          | inl z ↦ (tool, e, v, z)
          | inr (details, z) ↦
              let h' = rw (e, execute_tool, v, invalid, z) at h in absurd (ground arith)
        ]
      ]
    ]),
    λ (tool, e, v, z). rw (e, execute_tool, v, invalid, z) refl,
  )
