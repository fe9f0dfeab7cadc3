-- ===== src/Voice/Text/Cuts.antt =====
-- Where a sentence is cut.
use local_voice_agent.Prelude.{
  ℕ, ◌≤◌, ◌<◌, String, ◌≡◌, refl, sym, subst, inl, inr, true, false, List, [], ◌∷◌, ◌++◌, arith,
  nat_beq→eq, Bool-cases, Option-cases, ◌==◌, nat_eq, string_eq, option_eq, len, prefix, strip,
}
use local_voice_agent.Voice.Chars.{suffix, rfind_space, rfind_space-le}
use local_voice_agent.Voice.Spaces.{
  space_at, rfind_space-space_at, rfind_space-none, rfind_space-last,
}
use local_voice_agent.Voice.Text.{split_at, last_chunk}

-- How a sentence is cut: whole if it fits; else at a space within the limit, the last one there; else,
-- where no space stands within the limit, in the word, behind as many characters as the limit.
pub data Cuts (max_chars : ℕ) : String → List String → Type 0 where
  whole : (s : String) → len s ≤ max_chars → Cuts max_chars s (last_chunk s)
  at_space :
      (k : ℕ) (s : String) (rest : List String)
      → max_chars < len s
      → 0 < k
      → k ≤ max_chars
      → space_at k s ≡ true
      → ((j : ℕ) → k < j → j ≤ max_chars → space_at j s ≡ false)
      → Cuts max_chars (strip (suffix k s)) rest
      → Cuts max_chars s (strip (prefix k s) ∷ rest)
  in_word :
      (s : String) (rest : List String)
      → max_chars < len s
      → ((j : ℕ) → 0 < j → j ≤ max_chars → space_at j s ≡ false)
      → Cuts max_chars (strip (suffix max_chars s)) rest
      → Cuts max_chars s (strip (prefix max_chars s) ∷ rest)

-- The chunks of several sentences, one sentence behind the other
pub data CutsAll (max_chars : ℕ) : List String → List String → Type 0 where
  no_sentence : CutsAll max_chars [] []
  sentence :
      (s : String) (ss front back : List String)
      → Cuts max_chars s front
      → CutsAll max_chars ss back
      → CutsAll max_chars (s ∷ ss) (front ++ back)

-- The place where the loop cuts a sentence that is too long
pub cut-Cuts :
    (max_chars : ℕ) (s : String) (rest : List String)
    → max_chars < len s
    → Cuts max_chars (strip (suffix (split_at max_chars s) s)) rest
    → Cuts max_chars s (strip (prefix (split_at max_chars s) s) ∷ rest)
unfolding split_at
cut-Cuts max_chars s rest long = elim (Option-cases (rfind_space max_chars s)) [
  | inl e ↦
      let k : split_at max_chars s ≡ max_chars = rw (split_at, e) refl in
      subst CutAt (sym k) (λ c. in_word s rest long (λ j p l. rfind_space-none max_chars j s e l) c)
  | inr (i, e) ↦ elim (Bool-cases (i == 0)) [
    | inl z ↦
        let zero_at : i ≡ 0 = nat_beq→eq i 0 z in
        let k : split_at max_chars s ≡ max_chars = rw (split_at, e, z) refl in
        subst CutAt (sym k) (λ c.
          in_word s rest long
            (λ j p l. rfind_space-last max_chars i j s e (omega (arith, zero_at, p)) l) c)
    | inr z ↦
        let k : split_at max_chars s ≡ i = rw (split_at, e, z) refl in
        subst CutAt (sym k) (λ c.
          at_space i s rest long (ground arith) (rfind_space-le max_chars i s e)
            (rfind_space-space_at max_chars i s e) (λ j m l. rfind_space-last max_chars i j s e m l)
            c)
  ]
]
  where
    CutAt : ℕ → Type 0
    CutAt k =
        Cuts max_chars (strip (suffix k s)) rest → Cuts max_chars s (strip (prefix k s) ∷ rest)
