-- ===== src/Voice/Text.antt =====
-- kiosk_agent/voice/text.py: `split_spoken_text`.
pub mod Laws
pub mod Cuts
use local_voice_agent.Prelude.{
  ℕ, zero, suc, ◌+◌, String, Option, none, some, List, [], ◌∷◌, ◌++◌, ltb, if◌then◌else◌, ◌==◌,
  nat_eq, string_eq, option_eq, take, len, prefix, is_text, strip,
}
use local_voice_agent.Voice.Chars.{suffix, rfind_space, elsewhere, split_sentences}

-- `split_at if split_at > 0 else max_chars`
unfoldable pub split_at : ℕ → String → ℕ
unfolding rfind_space
split_at max_chars s = elim (rfind_space max_chars s) [
  | none ↦ max_chars
  | some i ↦ if i == 0 then max_chars else i
]

-- A blank rest is no chunk.
abbrev pub last_chunk : String → List String
last_chunk s = if is_text s then s ∷ [] else []

abbrev pub with_chunk : String → Option (List String) → Option (List String)
with_chunk chunk none = none
with_chunk chunk (some chunks) = some (chunk ∷ chunks)

-- The `while` loop over one sentence, `none` where the fuel is used up
unfoldable pub cut : (fuel : ℕ) → ℕ → String → Option (List String)
unfolding split_at strip
cut zero max_chars s = if ltb max_chars (len s) then none else some (last_chunk s)
cut (suc fuel) max_chars s =
    let k = split_at max_chars s in
    let rest = cut fuel max_chars (strip (suffix k s)) in
    if ltb max_chars (len s) then with_chunk (strip (prefix k s)) rest else some (last_chunk s)

abbrev pub with_chunks : Option (List String) → Option (List String) → Option (List String)
with_chunks none rest = none
with_chunks (some chunks) none = none
with_chunks (some chunks) (some rest) = some (chunks ++ rest)

-- The loop over the sentences
unfoldable pub cut_all : ℕ → List String → Option (List String)
unfolding cut
cut_all max_chars [] = some []
cut_all max_chars (s ∷ ss) = with_chunks (cut (len s) max_chars s) (cut_all max_chars ss)

-- The stripped parts that are not blank
unfoldable pub stripped : List String → List String
unfolding strip
stripped [] = []
stripped (s ∷ ss) = let rest = stripped ss in if is_text (strip s) then strip s ∷ rest else rest

-- `sentences or [text]`
abbrev pub or_whole : String → List String → List String
or_whole text [] = text ∷ []
or_whole text (s ∷ ss) = s ∷ ss

abbrev pub max_chunks : ℕ
max_chunks = 8

-- The chunks before the limit
unfoldable pub all_chunks : ℕ → String → Option (List String)
unfolding cut_all stripped split_sentences
all_chunks max_chars text =
    cut_all max_chars (or_whole text (stripped (split_sentences elsewhere text)))

abbrev pub limited : Option (List String) → Option (List String)
limited none = none
limited (some chunks) = some (take max_chunks chunks)

-- `split_spoken_text`: the fuel of the loop over a sentence is the sentence's length.
unfoldable pub split_spoken_text : ℕ → String → Option (List String)
unfolding all_chunks
split_spoken_text max_chars text = limited (all_chunks max_chars text)
