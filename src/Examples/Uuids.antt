-- ===== src/Examples/Uuids.antt =====
-- Texts of uuids for the examples: as many letters as the number of the uuid.
use Prim.Native.Nat.{ℕ, zero, suc}
use Prim.Native.String.{String, [], ◌∷◌}
use mathlib.Core.Path.{◌≡◌, refl, sym, ◌∙◌, ap}
use local_voice_agent.Prelude.{len}

abbrev pub unary : ℕ → String
unary zero = []
unary (suc n) = "i" ∷ unary n

len-unary : (n : ℕ) → len (unary n) ≡ n
len-unary zero = refl
len-unary (suc n) = ap suc (len-unary n)

pub unary-injective : (a b : ℕ) → unary a ≡ unary b → a ≡ b
unary-injective a b h = sym (len-unary a) ∙ ap len h ∙ len-unary b
