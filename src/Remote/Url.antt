-- ===== src/Remote/Url.antt =====
-- `urllib.parse.urlsplit`, as far as the validation of a URL uses it.
use Prim.Native.String.{[], ◌∷◌}
use local_voice_agent.Prelude.{
  ◌+◌, Char, code, String, Bool, true, false, ◌&&◌, ◌||◌, leb, if◌then◌else◌, is_text, ◌==◌, nat_eq,
}

-- A letter of ASCII, whatever its case
abbrev is_letter : Char → Bool
is_letter ch = let c = code ch in (leb 65 c && leb c 90) || (leb 97 c && leb c 122)

abbrev is_digit : Char → Bool
is_digit ch = let c = code ch in leb 48 c && leb c 57

-- `urllib.parse.scheme_chars`: letters, digits, `+`, `-` and `.`
abbrev is_scheme_char : Char → Bool
is_scheme_char ch = is_letter ch || is_digit ch || code ch == 43 || code ch == 45 || code ch == 46

-- The text before the first character that satisfies the test, and the text from it on
span : (Char → Bool) → String → String × String
span stop [] = ([], [])
span stop (c ∷ s) = let rest = span stop s in if stop c then ([], c ∷ s) else (c ∷ rest.0, rest.1)

all_chars : (Char → Bool) → String → Bool
all_chars p [] = true
all_chars p (c ∷ s) = p c && all_chars p s

-- `lower()` of an ASCII character is this small letter.
abbrev lowers_to : Char → Char → Bool
lowers_to ch small =
    code ch == code small || (leb 65 (code ch) && leb (code ch) 90 && code ch + 32 == code small)

unfoldable pub lower_is : String → String → Bool
lower_is [] [] = true
lower_is (c ∷ s) (d ∷ t) = lowers_to c d && lower_is s t
lower_is _ _ = false

-- `urlsplit` drops tabs, carriage returns and line feeds anywhere.
remove_unsafe : String → String
remove_unsafe [] = []
remove_unsafe (c ∷ s) =
    let rest = remove_unsafe s in
    if code c == 9 || code c == 10 || code c == 13 then rest else c ∷ rest

-- It drops control characters and blanks in front.
lstrip_controls : String → String
lstrip_controls [] = []
lstrip_controls (c ∷ s) = if leb (code c) 32 then lstrip_controls s else c ∷ s

abbrev starts_with_letter : String → Bool
starts_with_letter [] = false
starts_with_letter (c ∷ s) = is_letter c

-- The scheme and what follows its colon; no scheme leaves the text as it is.
abbrev split_scheme : String × String → String → String × String
split_scheme (name, []) url = ([], url)
split_scheme (name, colon ∷ rest) url =
    if starts_with_letter name && all_chars is_scheme_char name then (name, rest) else ([], url)

-- The authority, which two slashes introduce and `/`, `?` or `#` ends
abbrev split_netloc : String → String
split_netloc (a ∷ b ∷ s) =
    if code a == 47 && code b == 47
    then (span (λ c. code c == 47 || code c == 63 || code c == 35) s).0
    else []
split_netloc _ = []

-- `scheme` and `netloc` of `urlsplit`
unfoldable pub urlsplit : String → String × String
unfolding span all_chars remove_unsafe lstrip_controls
urlsplit text =
    let url = remove_unsafe (lstrip_controls text) in
    let (scheme, rest) = split_scheme (span (λ c. code c == 58) url) url in
    (scheme, split_netloc rest)

-- `s.rstrip("/")`
unfoldable pub rstrip_slashes : String → String
rstrip_slashes [] = []
rstrip_slashes (c ∷ s) =
    let rest = rstrip_slashes s in
    if code c == 47 then (if is_text rest then c ∷ rest else []) else c ∷ rest
