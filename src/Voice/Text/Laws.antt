-- ===== src/Voice/Text/Laws.antt =====
-- What the chunks of a text are, and that the loop ends.
use local_voice_agent.Prelude.{
  ℕ, zero, suc, ◌≤◌, ◌<◌, String, ◌≡◌, refl, sym, ap, ◌∙◌, inl, inr, true, false, some, List, [],
  ◌∷◌, ◌++◌, arith, ltb, Bool-cases, Option-cases, ◌==◌, nat_eq, string_eq, option_eq, length, take,
  length-take-le, All, All-append, len, prefix, len-prefix-le, is_text, strip, concat,
}
use local_voice_agent.Voice.Chars.{
  suffix, rfind_space, rfind_space-le, elsewhere, split_sentences, letters, letters-blank,
  all_letters, concat_assoc, concat-nil, letters-strip, letters-prefix-suffix, len-strip-le,
  len-suffix, all_letters-split_sentences,
}
use local_voice_agent.Voice.Text.Cuts.{Cuts, whole, CutsAll, no_sentence, sentence, cut-Cuts}
use local_voice_agent.Voice.Text.{
  split_at, last_chunk, cut, cut_all, stripped, or_whole, max_chunks, all_chunks, limited,
  split_spoken_text,
}

-- The chunks of a text: none is longer than the limit, and together they have its letters.
abbrev pub AreChunks : ℕ → String → List String → Type 0
AreChunks max_chars text chunks =
    All (λ s. len s ≤ max_chars) chunks × (all_letters chunks ≡ letters text)

split_at-bounds :
    (max_chars : ℕ) (s : String)
    → 0 < max_chars
    → (0 < split_at max_chars s) × (split_at max_chars s ≤ max_chars)
unfolding split_at
split_at-bounds max_chars s h = elim (Option-cases (rfind_space max_chars s)) [
  | inl e ↦ rw (e, split_at) (h, omega arith)
  | inr (i, e) ↦ elim (Bool-cases (i == 0)) [
    | inl z ↦ rw (e, split_at, z) (h, omega arith)
    | inr z ↦
        let low : 0 < i = ground arith in rw (e, split_at, z) (low, rfind_space-le max_chars i s e)
  ]
]

last-AreChunks :
    (max_chars : ℕ) (s : String)
    → ltb max_chars (len s) ≡ false
    → AreChunks max_chars s (last_chunk s)
unfolding all_letters letters
last-AreChunks max_chars s h = elim (Bool-cases (is_text s)) [
  | inl t ↦ rw t ((ground arith, tt), concat-nil (letters s))
  | inr t ↦ rw t (tt, sym (letters-blank s t))
]

module _ (max_chars : ℕ) (positive : 0 < max_chars) where
  -- A round of the loop leaves fewer characters.
  rest-shorter :
      (s : String)
      → ltb max_chars (len s) ≡ true
      → len (strip (suffix (split_at max_chars s) s)) < len s
  rest-shorter s l =
      let k = split_at max_chars s in
      let (low, high) = split_at-bounds max_chars s positive in
      ground (arith, len-strip-le (suffix k s), len-suffix k s)

  cut-AreChunks :
      (fuel : ℕ) (s : String)
      → len s ≤ fuel
      → (chunks : List String) × (cut fuel max_chars s ≡ some chunks)
        × AreChunks max_chars s chunks
        × Cuts max_chars s chunks
  unfolding cut all_letters
  cut-AreChunks zero s h = elim (Bool-cases (ltb max_chars (len s))) [
    | inl l ↦ absurd (ground arith)
    | inr l ↦ (last_chunk s, rw (l, cut) refl, last-AreChunks max_chars s l, whole s (ground arith))
  ]
  cut-AreChunks (suc fuel) s h = elim (Bool-cases (ltb max_chars (len s))) [
    | inr l ↦ (last_chunk s, rw (l, cut) refl, last-AreChunks max_chars s l, whole s (ground arith))
    | inl l ↦
        let k = split_at max_chars s in
        let (low, high) = split_at-bounds max_chars s positive in
        let (chunks, e, (a, same), cuts) =
          cut-AreChunks fuel (strip (suffix k s)) (omega (arith, rest-shorter s l, h)) in
        (
          strip (prefix k s) ∷ chunks,
          rw (l, cut, e) refl,
          (
            (omega (arith, len-strip-le (prefix k s), len-prefix-le k s, high), a),
            rw (letters-strip (prefix k s), same, letters-strip (suffix k s))
                (letters-prefix-suffix k s),
          ),
          cut-Cuts max_chars s chunks (ground arith) cuts,
        )
  ]

  all_letters-append :
      (xs ys : List String) → all_letters (xs ++ ys) ≡ concat (all_letters xs) (all_letters ys)
  unfolding all_letters concat
  all_letters-append [] ys = refl
  all_letters-append (x ∷ xs) ys =
      ap (concat (letters x)) (all_letters-append xs ys)
      ∙ sym (concat_assoc (letters x) (all_letters xs) (all_letters ys))

  cut_all-Chunks :
      (ss : List String)
      → (chunks : List String) × (cut_all max_chars ss ≡ some chunks)
        × All (λ s. len s ≤ max_chars) chunks
        × (all_letters chunks ≡ all_letters ss)
        × CutsAll max_chars ss chunks
  unfolding cut_all all_letters
  cut_all-Chunks [] = ([], refl, tt, refl, no_sentence)
  cut_all-Chunks (s ∷ ss) =
      let (front, e, (a, same), cuts) = cut-AreChunks (len s) s (omega arith) in
      let (back, f, b, also, others) = cut_all-Chunks ss in
      (
        front ++ back,
        rw (e, f) refl,
        All-append (λ t. len t ≤ max_chars) front back a b,
        all_letters-append front back ∙ rw (same, also) refl,
        sentence s ss front back cuts others,
      )

  all_letters-stripped : (ss : List String) → all_letters (stripped ss) ≡ all_letters ss
  unfolding stripped all_letters
  all_letters-stripped [] = refl
  all_letters-stripped (s ∷ ss) = elim (Bool-cases (is_text (strip s))) [
    | inl t ↦ rw (t, stripped, letters-strip s, all_letters-stripped ss) refl
    | inr t ↦
        let blank : letters s ≡ "" = sym (letters-strip s) ∙ letters-blank (strip s) t in
        rw (t, stripped, all_letters-stripped ss, blank) refl
  ]

  all_letters-or_whole :
      (text : String) (ss : List String)
      → all_letters ss ≡ letters text
      → all_letters (or_whole text ss) ≡ letters text
  unfolding all_letters
  all_letters-or_whole text [] h = concat-nil (letters text)
  all_letters-or_whole text (s ∷ ss) h = h

  All-take : (P : String → Type 0) (k : ℕ) (ss : List String) → All P ss → All P (take k ss)
  All-take P zero ss a = tt
  All-take P (suc k) [] a = tt
  All-take P (suc k) (s ∷ ss) (p, a) = (p, All-take P k ss a)

  -- With a positive limit the loop ends for every text. There are at most eight chunks, none longer
  -- than the limit, and they are the first eight of chunks that together have every character of the
  -- text that is no blank, in order. These are the chunks of the sentences: a sentence that is too long
  -- is cut at the last space within the limit, and inside a word only where no space stands within
  -- the limit.
  pub split_spoken_text_ends :
      (text : String)
      → (chunks all_of_them : List String) × (split_spoken_text max_chars text ≡ some chunks)
        × (chunks ≡ take 8 all_of_them)
        × All (λ s. len s ≤ max_chars) chunks
        × (length chunks ≤ 8)
        × (all_letters all_of_them ≡ letters text)
        × CutsAll max_chars (or_whole text (stripped (split_sentences elsewhere text))) all_of_them
  unfolding split_spoken_text all_chunks
  split_spoken_text_ends text =
      let parts = split_sentences elsewhere text in
      let (chunks, e, a, same, cuts) = cut_all-Chunks (or_whole text (stripped parts)) in
      (
        take max_chunks chunks,
        chunks,
        ap limited e,
        refl,
        All-take (λ s. len s ≤ max_chars) max_chunks chunks a,
        length-take-le max_chunks chunks,
        same
            ∙ all_letters-or_whole text (stripped parts)
                (all_letters-stripped parts ∙ all_letters-split_sentences elsewhere text),
        cuts,
      )
