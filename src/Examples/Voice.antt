-- ===== src/Examples/Voice.antt =====
-- A text of two sentences, spoken in chunks of at most twelve characters.
use local_voice_agent.Prelude.{
  ◌≤◌, String, ◌≡◌, refl, some, List, [], ◌∷◌, arith, nat_eq, string_eq, option_eq, length, take,
  All, len, strip, push,
}
use local_voice_agent.Voice.Chars.{elsewhere, rfind_space, split_sentences, letters, all_letters}
use local_voice_agent.Voice.Text.{
  or_whole, split_at, cut, cut_all, stripped, all_chunks, split_spoken_text,
}
use local_voice_agent.Voice.Text.Cuts.{CutsAll}
use local_voice_agent.Voice.Text.Laws.{split_spoken_text_ends}

chunked :
    split_spoken_text 12 "The pool opens at nine. Enjoy!"
    ≡ some ("The pool" ∷ "opens at" ∷ "nine." ∷ "Enjoy!" ∷ [])
unfolding split_spoken_text all_chunks cut_all cut stripped split_at rfind_space split_sentences
    strip push
chunked = refl

split_spoken_text_ends_example :
    (chunks all_of_them : List String) × (split_spoken_text 12 "The pool opens at nine. Enjoy!"
      ≡ some chunks)
    × (chunks ≡ take 8 all_of_them)
    × All (λ s. len s ≤ 12) chunks
    × (length chunks ≤ 8)
    × (all_letters all_of_them ≡ letters "The pool opens at nine. Enjoy!")
    × CutsAll 12
        (or_whole "The pool opens at nine. Enjoy!"
          (stripped (split_sentences elsewhere "The pool opens at nine. Enjoy!")))
        all_of_them
split_spoken_text_ends_example =
    split_spoken_text_ends 12 (omega arith) "The pool opens at nine. Enjoy!"

-- A word that is longer than the limit is cut.
long_word_cut : split_spoken_text 4 "swimming pool" ≡ some ("swim" ∷ "ming" ∷ "pool" ∷ [])
unfolding split_spoken_text all_chunks cut_all cut stripped split_at rfind_space split_sentences
    strip push
long_word_cut = refl
