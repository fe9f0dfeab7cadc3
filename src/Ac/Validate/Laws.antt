-- ===== src/Ac/Validate/Laws.antt =====
-- What the validation of a state accepts.
use local_voice_agent.Prelude.{
  ◌≡◌, refl, Bool, true, false, ◌&&◌, [], ◌∷◌, arith, if◌then◌else◌, nat_eq, string_eq, option_eq,
  all,
}
use local_voice_agent.Value.{Dict}
use local_voice_agent.Ac.Validate.{
  ok, fail, invalid_state, invalid_response, is_valid_value, normalize, has_unknown, has_missing,
  validate_state_values,
}

abbrev pub all_valid : Dict → Bool
all_valid values = all (λ (f, v). is_valid_value f v) values

normalize_lem :
    (values : Dict)
    → normalize values ≡ (if all_valid values then ok values else fail invalid_state)
unfolding normalize
normalize_lem [] = refl
normalize_lem ((f, v) ∷ values) = ground (arith, normalize_lem values)

-- A state is accepted unchanged if it names known fields only, names all of them where that is
-- required, and every value fits its field; each failure has its code, tested in this order.
pub validate_state_values_lem :
    (require_all : Bool) (values : Dict)
    → validate_state_values require_all values ≡ (
        if has_unknown values
        then fail invalid_state
        else if require_all && has_missing values
        then fail invalid_response
        else if all_valid values
        then ok values
        else fail invalid_state)
unfolding validate_state_values
validate_state_values_lem require_all values = ground (arith, normalize_lem values)

pub validate-ok :
    (require_all : Bool) (values d : Dict)
    → validate_state_values require_all values ≡ ok d
    → (d ≡ values)
      × (has_unknown values ≡ false)
      × (all_valid values ≡ true)
      × ((require_all && has_missing values) ≡ false)
validate-ok require_all values d h = ground (arith, validate_state_values_lem require_all values)
