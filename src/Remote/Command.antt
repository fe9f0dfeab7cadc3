-- ===== src/Remote/Command.antt =====
-- kiosk_agent/remote_control.py: `validate_command_url` and `validate_ir_command`.
pub mod Bounds
use local_voice_agent.Remote.Url.{urlsplit, lower_is}
use local_voice_agent.Prelude.{
  ℕ, suc, String, Bool, true, false, not, ◌&&◌, ◌||◌, Option, none, some, List, [], ◌∷◌, ltb, leb,
  if◌then◌else◌, ◌==◌, nat_eq, string_eq, option_eq, len, is_text, strip,
}
use local_voice_agent.Value.{Value, list, Values, nil, cons, as_natural}

-- Why a URL is refused; `value_error` is the exception of `urlsplit` itself.
pub data UrlError : Type 0 where
  blank too_long wrong_scheme no_host value_error : UrlError

pub data UrlResult : Type 0 where
  url_ok : String → UrlResult
  url_error : UrlError → UrlResult

-- `validate_command_url`, where `refuses` says whether `urlsplit` raises for the authority (its
-- brackets, or characters that normalise to a delimiter)
unfoldable pub validate_command_url : (String → Bool) → String → UrlResult
unfolding strip urlsplit lower_is
validate_command_url refuses url =
    let raw = strip url in
    let (scheme, netloc) = urlsplit raw in
    if not (is_text raw)
    then url_error blank
    else if ltb 500 (len raw)
    then url_error too_long
    else if refuses netloc
    then url_error value_error
    else if not (lower_is scheme "http") && not (lower_is scheme "https")
    then url_error wrong_scheme
    else if not (is_text netloc)
    then url_error no_host
    else url_ok raw

pub record IrCommand : Type 0 where
  pub id : ℕ
  pub frequency : ℕ
  pub raw : List ℕ

-- The timings of a JSON array of positive integers
unfoldable pub timings : Values → Option (List ℕ)
timings nil = some []
timings (cons v vs) =
    let rest = timings vs in
    elim (as_natural v) [
      | none ↦ none
      | some n ↦ elim rest [ none ↦ none | some ns ↦ if n == 0 then none else some (n ∷ ns) ]
    ]

abbrev pub as_values : Value → Option Values
as_values (list vs) = some vs
as_values _ = none

abbrev is_nil : Values → Bool
is_nil nil = true
is_nil (cons v vs) = false

-- `len` of a JSON array
abbrev pub values_length : Values → ℕ
values_length nil = 0
values_length (cons v vs) = suc (values_length vs)

-- `validate_ir_command`: `none` is a `ValidationError`.
unfoldable pub validate_ir_command : Value → Value → Value → Option IrCommand
unfolding timings
validate_ir_command ir_id frequency raw = elim (as_natural ir_id) [
  | none ↦ none
  | some i ↦ elim (as_natural frequency) [
    | none ↦ none
    | some f ↦ if not (leb 1 f && leb f 1000) then none else elim (as_values raw) [
      | none ↦ none
      | some vs ↦ if is_nil vs || ltb 4096 (values_length vs) then none else elim (timings vs) [
        | none ↦ none
        | some ts ↦ some (record { id = i; frequency = f; raw = ts })
      ]
    ]
  ]
]
