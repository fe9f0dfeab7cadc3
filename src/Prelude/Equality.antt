-- ===== src/Prelude/Equality.antt =====
-- Python's `==` and `in`, for every type with a Boolean equality.
use Prim.Native.Nat.{ℕ}
use Prim.Native.String.{String}
use mathlib.Core.Path.{◌≡◌, refl}
use mathlib.Core.Logic.{◌↔◌}
use mathlib.Core.Bool.{Bool, true, false, ◌||◌}
use mathlib.Core.Option.{Option, none, some}
use mathlib.Core.List.{List, [], ◌∷◌}
use native.Mathlib.Omega.{arith}
use text.Mathlib.Text.{◌==◌ as str_beq}
use text.Mathlib.TextEquality.{eq_iff}
use local_voice_agent.Prelude.Tests.{nat_beq}

-- A type whose `==` decides equality: a Python value of it has an `__eq__` that compares the content.
pub record Eq {ℓ} (V : Type ℓ) : Type ℓ where
  pub equals : V → V → Bool
  pub equals_iff : (v w : V) → (equals v w ≡ true) ↔ (v ≡ w)

pub nat_beq_iff : (a b : ℕ) → (nat_beq a b ≡ true) ↔ (a ≡ b)
nat_beq_iff a b = ground arith

instance abbrev pub string_eq : Eq String
string_eq = record { equals = str_beq; equals_iff = eq_iff }

instance abbrev pub nat_eq : Eq ℕ
nat_eq = record { equals = nat_beq; equals_iff = nat_beq_iff }

-- Python's `v == w`
abbrev pub ◌==◌ {ℓ} : {V : Type ℓ} ⦃eq : Eq V⦄ → V → V → Bool
◌==◌ ⦃eq⦄ v w = eq.equals v w

infix 50 ◌==◌
module _ {ℓ} {A : Type ℓ} ⦃e : Eq A⦄ where
  pub beq_refl : (a : A) → (a == a) ≡ true
  beq_refl a = (e.equals_iff a a).1 refl

  -- `a in xs`
  abbrev pub contains : A → List A → Bool
  contains a [] = false
  contains a (x ∷ xs) = a == x || contains a xs

  abbrev pub option_beq : Option A → Option A → Bool
  option_beq none none = true
  option_beq (some a) (some b) = a == b
  option_beq _ _ = false

  pub option_beq_iff : (a b : Option A) → (option_beq a b ≡ true) ↔ (a ≡ b)
  option_beq_iff none none = ground arith
  option_beq_iff (some a) (some b) = ground (arith, e.equals_iff a b)
  option_beq_iff none (some b) = ground arith
  option_beq_iff (some a) none = ground arith

  instance abbrev pub option_eq : Eq (Option A)
  option_eq = record { equals = option_beq; equals_iff = option_beq_iff }
