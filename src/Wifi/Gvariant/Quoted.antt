-- ===== src/Wifi/Gvariant/Quoted.antt =====
-- A quoted text reads back as what was quoted, whatever stands behind it.
use Prim.Native.String.{[], ◌∷◌}
use mathlib.Core.Path.{◌≡◌, refl, ap, ◌∙◌}
use text.Mathlib.TextEquality.{Char-path}
use local_voice_agent.Prelude.{
  Char, code, String, Bool, true, false, ◌||◌, Option, none, some, if◌then◌else◌, ◌==◌, nat_eq,
  concat, replace_char, inl, inr, Bool-cases, nat_beq→eq,
}
use local_voice_agent.Wifi.Gvariant.{gvariant_str}

abbrev prepend : Char → Option (String × String) → Option (String × String)
prepend c none = none
prepend c (some (text, rest)) = some (c ∷ text, rest)

-- A text of the GVariant format up to its closing quote, with what stands behind it. Of the escapes
-- only those of a quote and of a backslash are read; `escaped` is the state behind a backslash.
unfoldable pub read_text : (escaped : Bool) → String → Option (String × String)
read_text escaped [] = none
read_text true (c ∷ s) =
    let rest = read_text false s in if code c == 39 || code c == 92 then prepend c rest else none
read_text false (c ∷ s) =
    let rest = read_text false s in
    let behind = read_text true s in
    if code c == 39 then some ([], s) else if code c == 92 then behind else prepend c rest

-- A text in single quotes, and what stands behind it
unfoldable pub read_quoted : String → Option (String × String)
unfolding read_text
read_quoted [] = none
read_quoted (c ∷ s) = if code c == 39 then read_text false s else none

concat_assoc : (a b c : String) → concat (concat a b) c ≡ concat a (concat b c)
unfolding concat
concat_assoc [] b c = refl
concat_assoc (x ∷ a) b c = ap (λ s. x ∷ s) (concat_assoc a b c)

read-escaped :
    (value rest : String)
    → read_text false
        (concat (replace_char 39 "\\'" (replace_char 92 "\\\\" value)) (concat "'" rest))
      ≡ some (value, rest)
unfolding read_text replace_char concat
read-escaped [] rest = refl
read-escaped (c ∷ value) rest = elim (Bool-cases (code c == 92)) [
  | inl b ↦
      let same : c ≡ "\\" = Char-path c "\\" (nat_beq→eq (code c) 92 b) in
      rw same (rw (read-escaped value rest) refl)
  | inr b ↦ elim (Bool-cases (code c == 39)) [
    | inl q ↦
        let same : c ≡ "'" = Char-path c "'" (nat_beq→eq (code c) 39 q) in
        rw same (rw (read-escaped value rest) refl)
    | inr q ↦ rw (b, replace_char, q, read_text, q, b, read-escaped value rest) refl
  ]
]

-- A quoted name or password is read back exactly, and what follows it is left as it is, so no
-- character of it can end the text early or change the settings behind it.
pub read-gvariant_str :
    (value rest : String) → read_quoted (concat (gvariant_str value) rest) ≡ some (value, rest)
unfolding read_quoted gvariant_str concat
read-gvariant_str value rest =
    ap (read_text false)
      (concat_assoc (replace_char 39 "\\'" (replace_char 92 "\\\\" value)) "'" rest)
    ∙ read-escaped value rest
