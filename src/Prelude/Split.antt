-- ===== src/Prelude/Split.antt =====
-- Python's `splitlines`, `split`, `partition`, `join` and `replace`.
use Prim.Native.Nat.{ℕ, zero, suc}
use Prim.Native.Char.{Char, code}
use Prim.Native.String.{String, [], ◌∷◌}
use mathlib.Core.Bool.{Bool, true, false, ◌&&◌, ◌||◌}
use mathlib.Core.List.{List, [] as none_left, ◌∷◌ as cons}
use local_voice_agent.Prelude.Tests.{leb, if◌then◌else◌}
use local_voice_agent.Prelude.Equality.{◌==◌, nat_eq}
use local_voice_agent.Prelude.Text.{concat}

-- A character in front of the first part
unfoldable pub push : Char → List String → List String
push c none_left = cons (c ∷ []) none_left
push c (cons part parts) = cons (c ∷ part) parts

-- The line boundaries of `str.splitlines`
abbrev is_newline : Char → Bool
is_newline ch =
    let c = code ch in
    (leb 10 c && leb c 13) || (leb 28 c && leb c 30) || c == 0x85 || c == 0x2028 || c == 0x2029

abbrev starts_with_lf : String → Bool
starts_with_lf [] = false
starts_with_lf (c ∷ s) = code c == 10

-- `s.splitlines()`: CR LF is one boundary.
unfoldable pub splitlines : String → List String
unfolding push
splitlines [] = none_left
splitlines (c ∷ s) =
    let rest = splitlines s in
    if code c == 13 && starts_with_lf s
    then rest
    else if is_newline c
    then cons [] rest
    else push c rest

-- `s.split(":")`
unfoldable pub split_colons : String → List String
unfolding push
split_colons [] = cons [] none_left
split_colons (c ∷ s) =
    let rest = split_colons s in if code c == 58 then cons [] rest else push c rest

-- `s.split(":", n)`
unfoldable pub split_colons_at_most : ℕ → String → List String
unfolding push
split_colons_at_most zero s = cons s none_left
split_colons_at_most (suc n) [] = cons [] none_left
split_colons_at_most (suc n) (c ∷ s) = elim (code c == 58) [
  | true ↦ cons [] (split_colons_at_most n s)
  | false ↦ push c (split_colons_at_most (suc n) s)
]

-- `s.partition(":")[2]`
unfoldable pub after_colon : String → String
after_colon [] = []
after_colon (c ∷ s) = let rest = after_colon s in if code c == 58 then s else rest

-- `":".join(parts)`
unfoldable pub join_colons : List String → String
unfolding concat
join_colons none_left = []
join_colons (cons part none_left) = part
join_colons (cons part (cons next parts)) = concat part (concat ":" (join_colons (cons next parts)))
