-- ===== src/Prelude/Text.antt =====
-- Python's operations on `str`: a text is a list of characters.
use Prim.Native.Nat.{ℕ, zero, suc, ◌≤◌}
use Prim.Native.Char.{Char, code}
use Prim.Native.String.{String, [], ◌∷◌}
use mathlib.Core.Path.{◌≡◌, refl}
use mathlib.Core.Bool.{Bool, true, false, ◌&&◌, ◌||◌}
use native.Mathlib.Omega.{arith}
use local_voice_agent.Prelude.Tests.{leb, if◌then◌else◌}
use local_voice_agent.Prelude.Equality.{◌==◌, nat_eq, string_eq}

-- `len(s)`: characters, not bytes
abbrev pub len : String → ℕ
len [] = 0
len (c ∷ s) = suc (len s)

-- `s[:n]`
abbrev pub prefix : ℕ → String → String
prefix zero s = []
prefix (suc n) [] = []
prefix (suc n) (c ∷ s) = c ∷ prefix n s

pub len-prefix-le : (n : ℕ) (s : String) → len (prefix n s) ≤ n
len-prefix-le zero s = omega arith
len-prefix-le (suc n) [] = omega arith
len-prefix-le (suc n) (c ∷ s) = omega (arith, len-prefix-le n s)

-- `bool(s)`
abbrev pub is_text : String → Bool
is_text [] = false
is_text (c ∷ s) = true

-- `str.isspace` of one character
abbrev pub is_space : Char → Bool
is_space ch =
    let c = code ch in
    (leb 9 c && leb c 13)
    || (leb 28 c && leb c 32)
    || c == 0x85
    || c == 0xa0
    || c == 0x1680
    || (leb 0x2000 c && leb c 0x200a)
    || c == 0x2028
    || c == 0x2029
    || c == 0x202f
    || c == 0x205f
    || c == 0x3000

-- `s.lstrip()`
unfoldable pub lstrip : String → String
lstrip [] = []
lstrip (c ∷ s) = if is_space c then lstrip s else c ∷ s

-- `s.rstrip()`
unfoldable pub rstrip : String → String
rstrip [] = []
rstrip (c ∷ s) =
    let rest = rstrip s in if is_text rest then c ∷ rest else if is_space c then [] else c ∷ []

-- `s.strip()`
unfoldable pub strip : String → String
unfolding lstrip rstrip
strip s = rstrip (lstrip s)

-- `s or default`
abbrev pub or_text : String → String → String
or_text [] d = d
or_text (c ∷ s) d = c ∷ s

-- `s + t`
unfoldable pub concat : String → String → String
concat [] t = t
concat (c ∷ s) t = c ∷ concat s t

-- `needle in s`
unfoldable pub has_text : String → String → Bool
has_text needle [] = needle == ""
has_text needle (c ∷ s) = prefix (len needle) (c ∷ s) == needle || has_text needle s

-- `s.isascii()`
abbrev pub is_ascii : String → Bool
is_ascii [] = true
is_ascii (c ∷ s) = leb (code c) 127 && is_ascii s

pub blank_text : (s : String) → is_text s ≡ false → s ≡ ""
blank_text [] h = refl
blank_text (c ∷ s) h = absurd (ground arith)
