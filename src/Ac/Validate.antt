-- ===== src/Ac/Validate.antt =====
-- `ACControlError` and `_validate_state_values`.
pub mod Laws
use local_voice_agent.Prelude.{
  inl, inr, ◌⊎◌, ◌≡◌, refl, ℕ, code, String, Bool, true, false, not, ◌&&◌, Option, none, List, [],
  ◌∷◌, leb, if◌then◌else◌, ◌==◌, nat_eq, string_eq, option_eq, contains, any,
}
use local_voice_agent.Value.{pos, Value, int, str, Dict, is_bool, has_key}
use local_voice_agent.Ac.Protocol.{ac_state_fields, boolean_fields}

pub data Code : Type 0 where
  invalid_state invalid_response unconfigured controller_error stale_response : Code
  not_found wrong_type timeout network_error invalid_source ambiguous_device : Code

-- The exceptions of the module: `ACControlError` with its code and `http_status`, and an
-- `AttributeError` that no handler of the module catches.
pub data Error : Type 0 where
  ac_error : Code → Option ℕ → Error
  attribute_error : Error

pub data Result {ℓ} (A : Type ℓ) : Type ℓ where
  ok : A → Result A
  err : Error → Result A

infixl 5 ◌>>=◌
abbrev pub ◌>>=◌ {ℓ κ} : {A : Type ℓ} {B : Type κ} → Result A → (A → Result B) → Result B
ok a >>= f = f a
err e >>= f = err e

abbrev pub fail {ℓ} : {A : Type ℓ} → Code → Result A
fail code = err (ac_error code none)

-- `ACState.Mode.values`
abbrev pub modes : List String
modes = "auto" ∷ "cool" ∷ "heat" ∷ "dry" ∷ "fan" ∷ []

-- `ACState.Fan.values`
abbrev pub fans : List String
fans = "auto" ∷ "low" ∷ "medium" ∷ "high" ∷ []

abbrev pub is_one_of : List String → Value → Bool
is_one_of names (str s) = contains s names
is_one_of names _ = false

abbrev pub is_temperature : Value → Bool
is_temperature (int (pos n)) = leb 16 n && leb n 32
is_temperature _ = false

-- The checks of the loop, for one item
unfoldable pub is_valid_value : String → Value → Bool
is_valid_value f v =
    if contains f boolean_fields
    then is_bool v
    else if f == "temperature"
    then is_temperature v
    else if f == "mode"
    then is_one_of modes v
    else if f == "fan"
    then is_one_of fans v
    else true

-- The loop that builds `normalized`
unfoldable pub normalize : Dict → Result Dict
normalize [] = ok []
normalize ((f, v) ∷ values) =
    let rest = normalize values in
    if is_valid_value f v then (rest >>= λ d. ok ((f, v) ∷ d)) else fail invalid_state

unfoldable pub has_unknown : Dict → Bool
has_unknown values = any (λ (f, v). not (contains f ac_state_fields)) values

unfoldable pub has_missing : Dict → Bool
has_missing values = any (λ f. not (has_key f values)) ac_state_fields

-- `_validate_state_values(values, require_all=…)`
unfoldable pub validate_state_values : Bool → Dict → Result Dict
unfolding normalize has_unknown has_missing
validate_state_values require_all values =
    if has_unknown values
    then fail invalid_state
    else if require_all && has_missing values
    then fail invalid_response
    else normalize values

pub Result-cases {ℓ} :
    {A : Type ℓ} (r : Result A) → ((a : A) × (r ≡ ok a)) ⊎ ((e : Error) × (r ≡ err e))
Result-cases (ok a) = inl (a, refl)
Result-cases (err e) = inr (e, refl)
