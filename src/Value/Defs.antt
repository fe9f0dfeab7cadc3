-- ===== src/Value/Defs.antt =====
-- JSON values as Python sees them, and the tests that the handlers make on them.
use local_voice_agent.Prelude.{
  ℕ, String, Bool, true, false, Option, none, some, List, [], ◌∷◌, is_text, nat_beq, not,
}

-- `negsuc n` is -(n + 1).
pub data ℤ : Type 0 where
  pos : ℕ → ℤ
  negsuc : ℕ → ℤ

-- `real` keeps the literal of a float.
mutual
  pub data Value : Type 0 where
    null : Value
    bool : Bool → Value
    int : ℤ → Value
    real : String → Value
    str : String → Value
    list : Values → Value
    dict : Fields → Value

  pub data Values : Type 0 where
    nil : Values
    cons : Value → Values → Values

  pub data Fields : Type 0 where
    end : Fields
    field : String → Value → Fields → Fields

abbrev pub Dict : Type 0
Dict = List (String × Value)

abbrev pub elements : Values → List Value
elements nil = []
elements (cons v vs) = v ∷ elements vs

-- The dictionary literal with these items.
abbrev pub fields : Dict → Fields
fields [] = end
fields ((k, v) ∷ d) = field k v (fields d)

-- `isinstance(v, str)`
abbrev pub as_str : Value → Option String
as_str (str s) = some s
as_str _ = none

-- `isinstance(v, bool)`
abbrev pub is_bool : Value → Bool
is_bool (bool b) = true
is_bool _ = false

-- an `int` that is no `bool` and is not negative
abbrev pub as_natural : Value → Option ℕ
as_natural (int (pos n)) = some n
as_natural _ = none

-- `v is True`
abbrev pub is_true : Value → Bool
is_true (bool b) = b
is_true _ = false

-- `v is False`
abbrev pub is_false : Value → Bool
is_false (bool b) = not b
is_false _ = false

-- `bool(v)`, where `real_is_zero` reads the literal of a float
abbrev pub truthy : (String → Bool) → Value → Bool
truthy real_is_zero null = false
truthy real_is_zero (bool b) = b
truthy real_is_zero (int (pos n)) = not (nat_beq n 0)
truthy real_is_zero (int (negsuc n)) = true
truthy real_is_zero (real s) = not (real_is_zero s)
truthy real_is_zero (str s) = is_text s
truthy real_is_zero (list nil) = false
truthy real_is_zero (list (cons v vs)) = true
truthy real_is_zero (dict end) = false
truthy real_is_zero (dict (field k v fs)) = true
