-- ===== src/Prelude/Lists.antt =====
-- Lists measured by native numbers, and the query-set operations of the ORM over lists of rows.
use Prim.Native.Nat.{ℕ, zero, suc, ◌+◌, ◌≤◌}
use mathlib.Core.Path.{◌≡◌, refl, ap}
use mathlib.Core.Bool.{Bool, true, false, ◌&&◌, ◌||◌}
use mathlib.Core.List.{List, [], ◌∷◌, ◌++◌}
use mathlib.Core.Option.{Option, none, some}
use native.Mathlib.Omega.{arith}
use local_voice_agent.Prelude.Tests.{if◌then◌else◌, if_ind}

module _ {ℓ} {A : Type ℓ} where
  abbrev pub length : List A → ℕ
  length [] = 0
  length (x ∷ xs) = suc (length xs)

  abbrev pub take : ℕ → List A → List A
  take zero xs = []
  take (suc n) [] = []
  take (suc n) (x ∷ xs) = x ∷ take n xs

  pub length-take-le : (n : ℕ) (xs : List A) → length (take n xs) ≤ n
  length-take-le zero xs = omega arith
  length-take-le (suc n) [] = omega arith
  length-take-le (suc n) (x ∷ xs) = omega (arith, length-take-le n xs)

  pub length-append : (xs ys : List A) → length (xs ++ ys) ≡ length xs + length ys
  length-append [] ys = omega arith
  length-append (x ∷ xs) ys = omega (arith, length-append xs ys)

  -- `.filter(p)`
  abbrev pub select : (A → Bool) → List A → List A
  select p [] = []
  select p (x ∷ xs) = if p x then x ∷ select p xs else select p xs

  -- `.filter(p).first()`, the rows being kept in the order of the query
  abbrev pub first : (A → Bool) → List A → Option A
  first p [] = none
  first p (x ∷ xs) = if p x then some x else first p xs

  -- `.filter(p).count()`
  abbrev pub count : (A → Bool) → List A → ℕ
  count p [] = 0
  count p (x ∷ xs) = if p x then suc (count p xs) else count p xs

  -- `.filter(p).exists()`, and Python's `any`
  abbrev pub any : (A → Bool) → List A → Bool
  any p [] = false
  any p (x ∷ xs) = p x || any p xs

  -- Python's `all`
  abbrev pub all : (A → Bool) → List A → Bool
  all p [] = true
  all p (x ∷ xs) = p x && all p xs

  -- `.filter(p).update(f)`
  abbrev pub update : (A → Bool) → (A → A) → List A → List A
  update p f [] = []
  update p f (x ∷ xs) = (if p x then f x else x) ∷ update p f xs

  abbrev pub All {κ} : (A → Type κ) → List A → Type κ
  All P [] = Unit
  All P (x ∷ xs) = P x × All P xs

module _ {ℓ} {A : Type ℓ} where
  pub count-append : (p : A → Bool) (xs ys : List A) → count p (xs ++ ys) ≡ count p xs + count p ys
  count-append p [] ys = omega arith
  count-append p (x ∷ xs) ys = ground (arith, count-append p xs ys)

  pub length-update : (p : A → Bool) (f : A → A) (xs : List A) → length (update p f xs) ≡ length xs
  length-update p f [] = refl
  length-update p f (x ∷ xs) = ap suc (length-update p f xs)

  pub count-length-le : (p : A → Bool) (xs : List A) → count p xs ≤ length xs
  count-length-le p [] = omega arith
  count-length-le p (x ∷ xs) = ground (arith, count-length-le p xs)

  -- An update that lets no row into `q` does not raise the number of rows in `q`.
  pub count-update-le :
      (q p : A → Bool) (f : A → A) (xs : List A)
      → ((x : A) → p x ≡ true → q (f x) ≡ true → q x ≡ true)
      → count q (update p f xs) ≤ count q xs
  count-update-le q p f [] h = omega arith
  count-update-le q p f (x ∷ xs) h = ground (arith, h x, count-update-le q p f xs h)

  -- An update that keeps every row in or out of `q` keeps their number.
  pub count-update-eq :
      (q p : A → Bool) (f : A → A) (xs : List A)
      → ((x : A) → p x ≡ true → q (f x) ≡ q x)
      → count q (update p f xs) ≡ count q xs
  count-update-eq q p f [] h = refl
  count-update-eq q p f (x ∷ xs) h = ground (arith, h x, count-update-eq q p f xs h)

  pub count-select-le : (q p : A → Bool) (xs : List A) → count q (select p xs) ≤ count q xs
  count-select-le q p [] = omega arith
  count-select-le q p (x ∷ xs) = ground (arith, count-select-le q p xs)

  pub any-count : (p : A → Bool) (xs : List A) → any p xs ≡ false → count p xs ≡ 0
  any-count p [] h = refl
  any-count p (x ∷ xs) h = ground (arith, any-count p xs)

  pub count_mono :
      (p q : A → Bool) (xs : List A) → ((x : A) → p x ≡ true → q x ≡ true) → count p xs ≤ count q xs
  count_mono p q [] h = omega arith
  count_mono p q (x ∷ xs) h = ground (arith, h x, count_mono p q xs h)

  pub All-append {κ} :
      (P : A → Type κ) (front back : List A) → All P front → All P back → All P (front ++ back)
  All-append P [] back hf hb = hb
  All-append P (a ∷ front) back (pa, hf) hb = (pa, All-append P front back hf hb)

  pub All-update {κ} :
      (P : A → Type κ) (p : A → Bool) (f : A → A) (xs : List A)
      → ((x : A) → P x → P (f x))
      → All P xs
      → All P (update p f xs)
  All-update P p f [] h a = tt
  All-update P p f (x ∷ xs) h a = (if_ind P (p x) (h x a.0) a.0, All-update P p f xs h a.1)

  pub All-select {κ} :
      (P : A → Type κ) (p : A → Bool) (xs : List A) → All P xs → All P (select p xs)
  All-select P p [] a = tt
  All-select P p (x ∷ xs) a =
      if_ind (All P) (p x) (a.0, All-select P p xs a.1) (All-select P p xs a.1)
