-- ===== src/Voice/Spaces.antt =====
-- The spaces of a text, and what `rfind_space` finds.
use Prim.Native.Nat.{ℕ, zero, suc, ◌≤◌, ◌<◌}
use Prim.Native.Char.{code}
use Prim.Native.String.{String, [], ◌∷◌}
use mathlib.Core.Path.{◌≡◌, refl}
use local_voice_agent.Prelude.{
  Bool, true, false, none, some, Option-cases, inl, inr, arith, ◌==◌, nat_eq,
}
use local_voice_agent.Voice.Chars.{suffix, rfind_space}

abbrev starts_with_space : String → Bool
starts_with_space [] = false
starts_with_space (c ∷ s) = code c == 32

-- The character at this place is a space.
abbrev pub space_at : ℕ → String → Bool
space_at k s = starts_with_space (suffix k s)

pub rfind_space-space_at :
    (limit i : ℕ) (s : String) → rfind_space limit s ≡ some i → space_at i s ≡ true
unfolding rfind_space
rfind_space-space_at limit i [] h = absurd (ground arith)
rfind_space-space_at zero zero (c ∷ s) h = ground arith
rfind_space-space_at zero (suc i) (c ∷ s) h = absurd (ground arith)
rfind_space-space_at (suc limit) zero (c ∷ s) h = elim (Option-cases (rfind_space limit s)) [
  | inl e ↦ ground arith
  | inr (k, e) ↦ absurd (ground arith)
]
rfind_space-space_at (suc limit) (suc i) (c ∷ s) h = elim (Option-cases (rfind_space limit s)) [
  | inl e ↦ absurd (ground arith)
  | inr (k, e) ↦ rfind_space-space_at limit i s (ground arith)
]

pub rfind_space-none :
    (limit j : ℕ) (s : String) → rfind_space limit s ≡ none → j ≤ limit → space_at j s ≡ false
unfolding rfind_space
rfind_space-none limit zero [] h l = refl
rfind_space-none limit (suc j) [] h l = refl
rfind_space-none zero zero (c ∷ s) h l = ground arith
rfind_space-none zero (suc j) (c ∷ s) h l = absurd (omega (arith, l))
rfind_space-none (suc limit) zero (c ∷ s) h l = elim (Option-cases (rfind_space limit s)) [
  | inl e ↦ ground arith
  | inr (k, e) ↦ absurd (ground arith)
]
rfind_space-none (suc limit) (suc j) (c ∷ s) h l = elim (Option-cases (rfind_space limit s)) [
  | inl e ↦ rfind_space-none limit j s e (omega (arith, l))
  | inr (k, e) ↦ absurd (ground arith)
]

pub rfind_space-last :
    (limit i j : ℕ) (s : String)
    → rfind_space limit s ≡ some i
    → i < j
    → j ≤ limit
    → space_at j s ≡ false
unfolding rfind_space
rfind_space-last limit i j [] h m l = absurd (ground arith)
rfind_space-last zero i j (c ∷ s) h m l = absurd (omega (arith, m, l))
rfind_space-last (suc limit) i zero (c ∷ s) h m l = absurd (omega (arith, m))
rfind_space-last (suc limit) zero (suc j) (c ∷ s) h m l =
    elim (Option-cases (rfind_space limit s)) [
      | inl e ↦ rfind_space-none limit j s e (omega (arith, l))
      | inr (k, e) ↦ absurd (ground arith)
    ]
rfind_space-last (suc limit) (suc i) (suc j) (c ∷ s) h m l =
    elim (Option-cases (rfind_space limit s)) [
      | inl e ↦ absurd (ground arith)
      | inr (k, e) ↦
          rfind_space-last limit i j s (ground arith) (omega (arith, m)) (omega (arith, l))
    ]
