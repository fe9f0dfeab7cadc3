-- ===== src/Ac/Response/Laws.antt =====
-- What the reading of an answer guarantees, and the attributes that a confirmed state leaves behind.
use local_voice_agent.Prelude.{
  ℕ, String, ◌≡◌, refl, subst, inl, inr, Bool, true, false, not, some, List, [], ◌∷◌, arith, eq_iff,
  Option-cases, nat_eq, string_eq, option_eq, any, All,
}
use local_voice_agent.Value.{
  Value, null, bool, int, real, str, list, dict, Dict, items-NodupKeys, as_dict, as_natural,
  has_key, NodupKeys, has_key-lookup, get_or-lookup, lookup, get_or, get, Runtime,
}
use local_voice_agent.Models.{RemoteControl}
use local_voice_agent.Ac.Protocol.{ac_state_fields}
use local_voice_agent.Ac.Validate.{Result-cases, ok, has_missing, validate_state_values}
use local_voice_agent.Ac.Validate.Laws.{all_valid, validate-ok}
use local_voice_agent.Ac.Http.{Response}
use local_voice_agent.Ac.Response.{
  Confirmed, set_attr, set_attrs, parse_state, parse_payload, parse_json, parse_esp32_response,
}

-- A field that a state names has the value that it gives; the others keep theirs.
pub set_attrs-get_or :
    (values : Dict) (attrs : String → Value) (f : String)
    → NodupKeys values
    → set_attrs values attrs f ≡ get_or f (attrs f) values
unfolding set_attrs get_or lookup
set_attrs-get_or [] attrs f n = refl
set_attrs-get_or ((g, v) ∷ values) attrs f n = ground (
  arith,
  eq_iff g f,
  set_attrs-get_or values (set_attr g v attrs) f n.1,
  has_key-lookup g values n.0,
)

-- A complete state: a `dict` that has every field, each with a value that fits.
pub record IsComplete (values : Dict) : Type 0 where
  pub nodup : NodupKeys values
  pub complete : has_missing values ≡ false
  pub valid : all_valid values ≡ true

as_dict-NodupKeys : (v : Value) (d : Dict) → as_dict v ≡ some d → NodupKeys d
as_dict-NodupKeys (dict fs) d h = subst NodupKeys (ground arith) (items-NodupKeys fs)
as_dict-NodupKeys null d h = absurd (ground arith)
as_dict-NodupKeys (bool b) d h = absurd (ground arith)
as_dict-NodupKeys (int n) d h = absurd (ground arith)
as_dict-NodupKeys (real r) d h = absurd (ground arith)
as_dict-NodupKeys (str r) d h = absurd (ground arith)
as_dict-NodupKeys (list r) d h = absurd (ground arith)

pub validate-IsComplete :
    (v : Value) (d values : Dict)
    → as_dict v ≡ some d
    → validate_state_values true d ≡ ok values
    → IsComplete values
validate-IsComplete v d values e h =
    let (same, known, valid, complete) = validate-ok true d values h in
    record {
      nodup = rw same (as_dict-NodupKeys v d e);
      complete = rw same complete;
      valid = rw same valid;
    }

parse_state-IsComplete :
    (payload : Dict) (version : ℕ) (confirmed : Confirmed)
    → parse_state payload version ≡ ok confirmed
    → IsComplete confirmed.state
unfolding parse_state
parse_state-IsComplete payload version confirmed h =
    elim (Option-cases (as_dict (get "state" payload))) [
      | inl e ↦ absurd (ground arith)
      | inr (d, e) ↦ elim (Result-cases (validate_state_values true d)) [
        | inr (x, v) ↦ absurd (ground arith)
        | inl (values, v) ↦
            subst IsComplete (ground arith) (validate-IsComplete (get "state" payload) d values e v)
      ]
    ]

parse_payload-IsComplete :
    (runtime : Runtime) (payload : Dict) (device : RemoteControl) (confirmed : Confirmed)
    → parse_payload runtime payload device ≡ ok confirmed
    → IsComplete confirmed.state
unfolding parse_payload
parse_payload-IsComplete runtime payload device confirmed h =
    elim (Option-cases (as_natural (get "state_version" payload))) [
      | inl e ↦ absurd (ground arith)
      | inr (version, e) ↦ parse_state-IsComplete payload version confirmed (ground arith)
    ]

parse_json-IsComplete :
    (runtime : Runtime) (v : Value) (device : RemoteControl) (require_success : Bool)
    (confirmed : Confirmed)
    → parse_json runtime v device require_success ≡ ok confirmed
    → IsComplete confirmed.state
unfolding parse_json
parse_json-IsComplete runtime v device require_success confirmed h =
    elim (Option-cases (as_dict v)) [
      | inl e ↦ absurd (ground arith)
      | inr (payload, e) ↦ parse_payload-IsComplete runtime payload device confirmed (ground arith)
    ]

-- Whatever is accepted as an answer holds a complete state.
pub parse_esp32_response-IsComplete :
    (runtime : Runtime) (r : Response) (device : RemoteControl) (require_success : Bool)
    (confirmed : Confirmed)
    → parse_esp32_response runtime r device require_success ≡ ok confirmed
    → IsComplete confirmed.state
unfolding parse_esp32_response
parse_esp32_response-IsComplete runtime r device require_success confirmed h =
    elim (Option-cases r.json) [
      | inl e ↦ absurd (ground arith)
      | inr (v, e) ↦ parse_json-IsComplete runtime v device require_success confirmed (ground arith)
    ]

lookup-All :
    (attrs : String → Value) (values : Dict) (names : List String)
    → NodupKeys values
    → any (λ f. not (has_key f values)) names ≡ false
    → All (λ f. lookup f values ≡ some (set_attrs values attrs f)) names
lookup-All attrs values [] n h = tt
lookup-All attrs values (f ∷ names) n h = (
  ground (arith, set_attrs-get_or values attrs f n, get_or-lookup f (attrs f) values),
  lookup-All attrs values names n (ground arith),
)

-- After a complete state was applied, each of the twelve fields has the value that it gives.
pub set_attrs-IsComplete :
    (attrs : String → Value) (values : Dict)
    → IsComplete values
    → All (λ f. lookup f values ≡ some (set_attrs values attrs f)) ac_state_fields
unfolding has_missing
set_attrs-IsComplete attrs values c = lookup-All attrs values ac_state_fields c.nodup c.complete
