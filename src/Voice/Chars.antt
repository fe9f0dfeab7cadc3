-- ===== src/Voice/Chars.antt =====
-- kiosk_agent/voice/text.py: the operations on characters.
use Prim.Native.Nat.{ℕ, zero, suc, ◌-◌, ◌≤◌}
use Prim.Native.Char.{Char, code}
use Prim.Native.String.{String, [], ◌∷◌}
use mathlib.Core.Path.{◌≡◌, refl, sym, ap, ◌∙◌}
use mathlib.Core.List.{List, [] as no_parts, ◌∷◌ as cons}
use local_voice_agent.Prelude.{
  Bool, true, false, ◌||◌, Option, none, some, arith, if◌then◌else◌, ◌==◌, nat_eq, len, prefix,
  is_text, is_space, lstrip, rstrip, strip, concat, push, Bool-cases, Option-cases, inl, inr,
}

-- `s[n:]`
abbrev pub suffix : ℕ → String → String
suffix zero s = s
suffix (suc n) [] = []
suffix (suc n) (c ∷ s) = suffix n s

-- `s.rfind(" ", 0, limit + 1)`
unfoldable pub rfind_space : ℕ → String → Option ℕ
rfind_space limit [] = none
rfind_space zero (c ∷ s) = if code c == 32 then some 0 else none
rfind_space (suc limit) (c ∷ s) = elim (rfind_space limit s) [
  | some i ↦ some (suc i)
  | none ↦ if code c == 32 then some 0 else none
]

-- A full stop, an exclamation or question mark, or the Arabic question mark or semicolon
abbrev is_terminator : Char → Bool
is_terminator ch = let c = code ch in c == 46 || c == 33 || c == 63 || c == 0x61f || c == 0x61b

-- Behind a terminator, in the blanks of a boundary, or elsewhere
pub data Place : Type 0 where
  behind boundary elsewhere : Place

abbrev pub place_of : Char → Place
place_of c = if is_terminator c then behind else elsewhere

-- `re.split` at the blanks behind a terminator
unfoldable pub split_sentences : Place → String → List String
unfolding push
split_sentences place [] = cons [] no_parts
split_sentences behind (c ∷ s) =
    let after = split_sentences boundary s in
    let rest = split_sentences (place_of c) s in if is_space c then cons [] after else push c rest
split_sentences boundary (c ∷ s) =
    let after = split_sentences boundary s in
    let rest = split_sentences (place_of c) s in if is_space c then after else push c rest
split_sentences elsewhere (c ∷ s) = push c (split_sentences (place_of c) s)

-- The characters that are no blanks
unfoldable pub letters : String → String
letters [] = []
letters (c ∷ s) = let rest = letters s in if is_space c then rest else c ∷ rest

unfoldable pub all_letters : List String → String
unfolding concat letters
all_letters no_parts = []
all_letters (cons s ss) = concat (letters s) (all_letters ss)

pub concat_assoc : (a b c : String) → concat (concat a b) c ≡ concat a (concat b c)
unfolding concat
concat_assoc [] b c = refl
concat_assoc (x ∷ a) b c = ap (λ s. x ∷ s) (concat_assoc a b c)

pub concat-nil : (a : String) → concat a [] ≡ a
unfolding concat
concat-nil [] = refl
concat-nil (x ∷ a) = ap (λ s. x ∷ s) (concat-nil a)

letters-lstrip : (s : String) → letters (lstrip s) ≡ letters s
unfolding letters lstrip
letters-lstrip [] = refl
letters-lstrip (c ∷ s) = elim (Bool-cases (is_space c)) [
  | inl e ↦ rw (e, lstrip, letters) (letters-lstrip s)
  | inr e ↦ let kept : lstrip (c ∷ s) ≡ c ∷ s = rw (e, lstrip) refl in ap letters kept
]

pub letters-blank : (s : String) → is_text s ≡ false → letters s ≡ ""
unfolding letters
letters-blank [] h = refl
letters-blank (c ∷ s) h = absurd (ground arith)

letters-rstrip_cons :
    (c : Char) (s r : String)
    → rstrip s ≡ r
    → letters (rstrip s) ≡ letters s
    → letters (rstrip (c ∷ s)) ≡ letters (c ∷ s)
unfolding letters rstrip
letters-rstrip_cons c s (d ∷ r) e h =
    rw (e, rstrip) (ap (λ (t : String). if is_space c then t else c ∷ t) (ap letters (sym e) ∙ h))
letters-rstrip_cons c s [] e h = elim (Bool-cases (is_space c)) [
  | inl b ↦ rw (e, rstrip, b, letters) (ap letters (sym e) ∙ h)
  | inr b ↦
      let kept : rstrip (c ∷ s) ≡ c ∷ [] = rw (e, rstrip, b) refl in
      ap letters kept
      ∙ ap (λ (t : String). if is_space c then t else c ∷ t) (ap letters (sym e) ∙ h)
]

letters-rstrip : (s : String) → letters (rstrip s) ≡ letters s
letters-rstrip [] = unfold letters rstrip in refl
letters-rstrip (c ∷ s) = letters-rstrip_cons c s (rstrip s) refl (letters-rstrip s)

pub letters-strip : (s : String) → letters (strip s) ≡ letters s
unfolding strip
letters-strip s = letters-rstrip (lstrip s) ∙ letters-lstrip s

pub letters-prefix-suffix :
    (n : ℕ) (s : String) → concat (letters (prefix n s)) (letters (suffix n s)) ≡ letters s
unfolding letters concat
letters-prefix-suffix zero s = refl
letters-prefix-suffix (suc n) [] = refl
letters-prefix-suffix (suc n) (c ∷ s) = elim (Bool-cases (is_space c)) [
  | inl e ↦ rw (e, letters) (letters-prefix-suffix n s)
  | inr e ↦ rw (e, letters) (ap (λ (t : String). c ∷ t) (letters-prefix-suffix n s))
]

len-lstrip-le : (s : String) → len (lstrip s) ≤ len s
unfolding lstrip
len-lstrip-le [] = omega arith
len-lstrip-le (c ∷ s) = elim (Bool-cases (is_space c)) [
  | inl e ↦ rw (e, lstrip) (omega (arith, len-lstrip-le s))
  | inr e ↦ rw (e, lstrip) (omega arith)
]

len-rstrip-le : (s : String) → len (rstrip s) ≤ len s
unfolding rstrip
len-rstrip-le [] = omega arith
len-rstrip-le (c ∷ s) = ground (arith, len-rstrip-le s)

pub len-strip-le : (s : String) → len (strip s) ≤ len s
unfolding strip
len-strip-le s = omega (arith, len-rstrip-le (lstrip s), len-lstrip-le s)

pub len-suffix : (n : ℕ) (s : String) → len (suffix n s) ≡ len s - n
len-suffix zero s = omega arith
len-suffix (suc n) [] = omega arith
len-suffix (suc n) (c ∷ s) = omega (arith, len-suffix n s)

pub rfind_space-le : (limit i : ℕ) (s : String) → rfind_space limit s ≡ some i → i ≤ limit
unfolding rfind_space
rfind_space-le limit i [] h = absurd (ground arith)
rfind_space-le zero i (c ∷ s) h = ground arith
rfind_space-le (suc limit) i (c ∷ s) h = elim (Option-cases (rfind_space limit s)) [
  | inl e ↦ ground arith
  | inr (j, e) ↦ ground (arith, rfind_space-le limit j s e)
]

all_letters-push :
    (c : Char) (parts : List String)
    → is_space c ≡ false
    → all_letters (push c parts) ≡ c ∷ all_letters parts
unfolding all_letters push letters concat
all_letters-push c no_parts h = rw (h) refl
all_letters-push c (cons s ss) h = rw (h) refl

all_letters-push-space :
    (c : Char) (parts : List String)
    → is_space c ≡ true
    → all_letters (push c parts) ≡ all_letters parts
unfolding all_letters push letters concat
all_letters-push-space c no_parts h = rw (h) refl
all_letters-push-space c (cons s ss) h = rw (h) refl

-- The split loses blanks only.
pub all_letters-split_sentences :
    (place : Place) (s : String) → all_letters (split_sentences place s) ≡ letters s
unfolding split_sentences all_letters letters
all_letters-split_sentences behind [] = refl
all_letters-split_sentences boundary [] = refl
all_letters-split_sentences elsewhere [] = refl
all_letters-split_sentences behind (c ∷ s) = elim (Bool-cases (is_space c)) [
  | inl e ↦ rw (e, split_sentences, letters) (all_letters-split_sentences boundary s)
  | inr e ↦
      rw (e, split_sentences, letters)
        (all_letters-push c _ e
          ∙ ap (λ (t : String). c ∷ t) (all_letters-split_sentences (place_of c) s))
]
all_letters-split_sentences boundary (c ∷ s) = elim (Bool-cases (is_space c)) [
  | inl e ↦ rw (e, split_sentences, letters) (all_letters-split_sentences boundary s)
  | inr e ↦
      rw (e, split_sentences, letters)
        (all_letters-push c _ e
          ∙ ap (λ (t : String). c ∷ t) (all_letters-split_sentences (place_of c) s))
]
all_letters-split_sentences elsewhere (c ∷ s) = elim (Bool-cases (is_space c)) [
  | inl e ↦
      rw (e, letters) (all_letters-push-space c _ e ∙ all_letters-split_sentences (place_of c) s)
  | inr e ↦
      rw (e, letters)
        (all_letters-push c _ e
          ∙ ap (λ (t : String). c ∷ t) (all_letters-split_sentences (place_of c) s))
]
