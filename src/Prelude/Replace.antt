-- ===== src/Prelude/Replace.antt =====
-- Python's `replace` of one character.
use Prim.Native.Nat.{ℕ}
use Prim.Native.Char.{code}
use Prim.Native.String.{String, [], ◌∷◌}
use local_voice_agent.Prelude.Tests.{if◌then◌else◌}
use local_voice_agent.Prelude.Equality.{◌==◌, nat_eq}
use local_voice_agent.Prelude.Text.{concat}

-- `s.replace(c, text)`, for the character with this number
unfoldable pub replace_char : ℕ → String → String → String
unfolding concat
replace_char n text [] = []
replace_char n text (c ∷ s) =
    let rest = replace_char n text s in if code c == n then concat text rest else c ∷ rest
