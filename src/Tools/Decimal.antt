-- ===== src/Tools/Decimal.antt =====
-- Python's `f"{n:06d}"`.
use Prim.Native.Nat.{ℕ, zero, suc, ◌+◌, ◌/◌, ◌%◌}
use Prim.Native.Char.{Char}
use Prim.Native.String.{String, [], ◌∷◌}
use mathlib.Core.Path.{◌≡◌, refl}
use local_voice_agent.Prelude.{if◌then◌else◌, ◌==◌, nat_eq}

-- The character of a digit
unfoldable pub digit : ℕ → Char
digit n =
    if n == 0
    then "0"
    else if n == 1
    then "1"
    else if n == 2
    then "2"
    else if n == 3
    then "3"
    else if n == 4
    then "4"
    else if n == 5
    then "5"
    else if n == 6
    then "6"
    else if n == 7
    then "7"
    else if n == 8
    then "8"
    else "9"

-- At least `width` digits before `out`; a number below the fuel is printed whole.
unfoldable pub digits : (fuel width n : ℕ) → String → String
digits zero width n out = out
digits (suc fuel) zero zero out = out
digits (suc fuel) zero (suc n) out = digits fuel 0 (suc n / 10) (digit (suc n % 10) ∷ out)
digits (suc fuel) (suc width) n out = digits fuel width (n / 10) (digit (n % 10) ∷ out)

unfoldable pub padded : ℕ → String
unfolding digits
padded n = digits (n + 6) 6 n []

padded_42 : padded 42 ≡ "000042"
unfolding padded digits digit
padded_42 = refl

padded_long : padded 12345678 ≡ "12345678"
unfolding padded digits digit
padded_long = refl
