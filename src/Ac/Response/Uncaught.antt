-- ===== src/Ac/Response/Uncaught.antt =====
-- The `AttributeError` that the reading of an answer lets out.
use local_voice_agent.Prelude.{
  ◌≢◌, none, ◌↔◌, Bool-cases, ℕ, ◌≡◌, inl, inr, Bool, true, false, some, arith, Option-cases,
  nat_eq, string_eq, option_eq,
}
use local_voice_agent.Value.{Value, Dict, as_dict, as_natural, get, Runtime}
use local_voice_agent.Models.{RemoteControl}
use local_voice_agent.Ac.Validate.{Result-cases, err, attribute_error, validate_state_values}
use local_voice_agent.Ac.Validate.Laws.{validate_state_values_lem}
use local_voice_agent.Ac.Http.{Response}
use local_voice_agent.Ac.Response.{
  rejected, is_success, parse_state, parse_payload, parse_json, parse_esp32_response,
}

-- The validation raises its own error only.
validate-caught :
    (require_all : Bool) (values : Dict)
    → validate_state_values require_all values ≢ err attribute_error
validate-caught require_all values h = ground (arith, validate_state_values_lem require_all values)

parse_state-caught :
    (payload : Dict) (version : ℕ) → parse_state payload version ≢ err attribute_error
unfolding parse_state
parse_state-caught payload version h = elim (Option-cases (as_dict (get "state" payload))) [
  | inl e ↦ ground arith
  | inr (d, e) ↦ elim (Result-cases (validate_state_values true d)) [
    | inl (values, v) ↦ ground arith
    | inr (x, v) ↦ validate-caught true d (ground arith)
  ]
]

parse_payload-caught :
    (runtime : Runtime) (payload : Dict) (device : RemoteControl)
    → parse_payload runtime payload device ≢ err attribute_error
unfolding parse_payload
parse_payload-caught runtime payload device h =
    elim (Option-cases (as_natural (get "state_version" payload))) [
      | inl e ↦ ground arith
      | inr (version, e) ↦ parse_state-caught payload version (ground arith)
    ]

parse_json-caught :
    (runtime : Runtime) (v : Value) (device : RemoteControl) (require_success : Bool)
    → parse_json runtime v device require_success ≢ err attribute_error
unfolding parse_json
parse_json-caught runtime v device require_success h = elim (Option-cases (as_dict v)) [
  | inl e ↦ ground arith
  | inr (payload, e) ↦ parse_payload-caught runtime payload device (ground arith)
]

-- The exception that no handler catches is raised exactly for a status that is no success with a
-- body that is JSON and not an object.
pub parse_esp32_response_uncaught :
    (runtime : Runtime) (r : Response) (device : RemoteControl) (require_success : Bool)
    → (parse_esp32_response runtime r device require_success ≡ err attribute_error) ↔ (
        (is_success r.status_code ≡ false) × ((v : Value) × (r.json ≡ some v) × (as_dict v ≡ none)))
unfolding parse_esp32_response rejected
parse_esp32_response_uncaught runtime r device require_success = elim (Option-cases r.json) [
  | inl e ↦ (λ h. absurd (ground arith), λ (s, (v, j, n)). absurd (ground arith))
  | inr (v, e) ↦ elim (Bool-cases (is_success r.status_code)) [
    | inl s ↦ (
      λ h. absurd (parse_json-caught runtime v device require_success (ground arith)),
      λ (t, (w, j, n)). absurd (ground arith),
    )
    | inr s ↦ (
      λ h. (s, (v, e, ground arith)),
      λ (t, (w, j, n)). let same : v ≡ w = ground arith in ground arith,
    )
  ]
]
