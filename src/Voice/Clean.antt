-- ===== src/Voice/Clean.antt =====
-- kiosk_agent/voice/text.py: `clean_spoken_text`.
use Prim.Native.Char.{Char, code}
use Prim.Native.String.{String, [], ◌∷◌}
use local_voice_agent.Prelude.{
  Bool, true, false, ◌||◌, ◌&&◌, if◌then◌else◌, ◌==◌, nat_eq, leb, is_space, strip, ◌≡◌, refl,
}

-- `_EMOJI_PATTERN`
abbrev is_emoji : Char → Bool
is_emoji ch =
    let c = code ch in
    (leb 0x1f1e0 c && leb c 0x1f1ff)
    || (leb 0x1f300 c && leb c 0x1faff)
    || (leb 0x2700 c && leb c 0x27bf)
    || (leb 0x2600 c && leb c 0x26ff)

-- ``[*_#`\[\]{}<>]``
abbrev is_markup : Char → Bool
is_markup ch =
    let c = code ch in
    c == 42
    || c == 95
    || c == 35
    || c == 96
    || c == 91
    || c == 93
    || c == 123
    || c == 125
    || c == 60
    || c == 62

-- `re.sub` of a class of characters by nothing
unfoldable pub remove : (Char → Bool) → String → String
remove p [] = []
remove p (c ∷ s) = let rest = remove p s in if p c then rest else c ∷ rest

-- `re.sub(r"\s+", " ", s)`, where `inside` says that a run of blanks goes on
unfoldable pub collapse : (inside : Bool) → String → String
collapse inside [] = []
collapse inside (c ∷ s) =
    let more = collapse true s in
    let rest = collapse false s in
    if is_space c then (if inside then more else " " ∷ more) else c ∷ rest

-- `clean_spoken_text`
unfoldable pub clean_spoken_text : String → String
unfolding remove collapse strip
clean_spoken_text text = strip (collapse false (remove is_markup (remove is_emoji text)))

cleaned : clean_spoken_text " **Hello**  [you]\n" ≡ "Hello you"
unfolding clean_spoken_text remove collapse strip
cleaned = refl
