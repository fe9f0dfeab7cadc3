-- ===== src/Value/Items.antt =====
-- Python's `dict` as an association list in insertion order.
use local_voice_agent.Prelude.{
  String, Bool, true, false, Option, none, some, [], ◌∷◌, ◌≡◌, refl, ◌==◌, string_eq, eq_iff, arith,
  if◌then◌else◌, ◌||◌,
}
use local_voice_agent.Value.Defs.{Value, null, Dict, dict, Fields, end, field}

-- `d.get(k)` with `None` kept apart from a missing key
unfoldable pub lookup : String → Dict → Option Value
lookup k [] = none
lookup k ((j, v) ∷ d) = if j == k then some v else lookup k d

-- `d.get(k, default)`
unfoldable pub get_or : String → Value → Dict → Value
unfolding lookup
get_or k default d = elim (lookup k d) [ none ↦ default | some v ↦ v ]

-- `d.get(k)`
unfoldable pub get : String → Dict → Value
unfolding get_or
get k d = get_or k null d

-- `k in d`
abbrev pub has_key : String → Dict → Bool
has_key k [] = false
has_key k ((j, v) ∷ d) = j == k || has_key k d

-- `d[k] = v`
unfoldable pub put : String → Value → Dict → Dict
put k v [] = (k, v) ∷ []
put k v ((j, w) ∷ d) = if j == k then (k, v) ∷ d else (j, w) ∷ put k v d

-- `{**d, **changes}`
unfoldable pub merge : Dict → Dict → Dict
unfolding put
merge d [] = d
merge d ((k, v) ∷ changes) = merge (put k v d) changes

-- `d.pop(k, None)`
unfoldable pub without : String → Dict → Dict
without k [] = []
without k ((j, v) ∷ d) = let rest = without k d in if j == k then rest else (j, v) ∷ rest

-- The `dict` of a JSON object: a repeated key keeps its place and takes its last value.
unfoldable pub items_from : Fields → Dict → Dict
unfolding put
items_from end d = d
items_from (field k v fs) d = items_from fs (put k v d)

unfoldable pub items : Fields → Dict
unfolding items_from
items fs = items_from fs []

-- `isinstance(v, dict)`, with the items
abbrev pub as_dict : Value → Option Dict
as_dict (dict fs) = some (items fs)
as_dict _ = none

-- Every key stands once, as in any `dict`.
abbrev pub NodupKeys : Dict → Type 0
NodupKeys [] = Unit
NodupKeys ((k, v) ∷ d) = (has_key k d ≡ false) × NodupKeys d

pub lookup-put :
    (k j : String) (v : Value) (d : Dict)
    → lookup j (put k v d) ≡ (if k == j then some v else lookup j d)
unfolding lookup put
lookup-put k j v [] = refl
lookup-put k j v ((i, w) ∷ d) =
    ground (arith, eq_iff k j, eq_iff i k, eq_iff i j, lookup-put k j v d)

pub has_key-lookup : (k : String) (d : Dict) → has_key k d ≡ false → lookup k d ≡ none
unfolding lookup
has_key-lookup k [] h = refl
has_key-lookup k ((j, v) ∷ d) h = ground (arith, has_key-lookup k d)

pub lookup-has_key : (k : String) (v : Value) (d : Dict) → lookup k d ≡ some v → has_key k d ≡ true
unfolding lookup
lookup-has_key k v [] h = ground arith
lookup-has_key k v ((j, w) ∷ d) h = ground (arith, lookup-has_key k v d)

has_key-put :
    (k j : String) (v : Value) (d : Dict) → has_key j (put k v d) ≡ (k == j || has_key j d)
unfolding put
has_key-put k j v [] = refl
has_key-put k j v ((i, w) ∷ d) =
    ground (arith, eq_iff k j, eq_iff i k, eq_iff i j, has_key-put k j v d)

pub put-NodupKeys : (k : String) (v : Value) (d : Dict) → NodupKeys d → NodupKeys (put k v d)
unfolding put
put-NodupKeys k v [] n = (refl, tt)
put-NodupKeys k v ((i, w) ∷ d) n =
    ground (arith, eq_iff i k, eq_iff k i, put-NodupKeys k v d n.1, has_key-put k i v d)

items_from-NodupKeys : (fs : Fields) (d : Dict) → NodupKeys d → NodupKeys (items_from fs d)
unfolding items_from
items_from-NodupKeys end d n = n
items_from-NodupKeys (field k v fs) d n =
    items_from-NodupKeys fs (put k v d) (put-NodupKeys k v d n)

pub items-NodupKeys : (fs : Fields) → NodupKeys (items fs)
unfolding items
items-NodupKeys fs = items_from-NodupKeys fs [] tt

-- A key that is there decides `get`.
pub get_or-lookup :
    (k : String) (default : Value) (d : Dict)
    → has_key k d ≡ true
    → lookup k d ≡ some (get_or k default d)
unfolding get_or
get_or-lookup k default [] h = absurd (ground arith)
get_or-lookup k default ((j, v) ∷ d) h = ground (arith, get_or-lookup k default d)
