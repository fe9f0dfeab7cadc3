-- ===== src/Remote/Reply.antt =====
-- kiosk_agent/remote_control.py: `_parse_controller_payload`.
use local_voice_agent.Prelude.{
  String, Bool, true, false, ◌&&◌, none, some, List, [], ◌∷◌, ltb, leb, if◌then◌else◌, nat_eq,
  string_eq, option_eq, contains, or_text, concat,
}
use local_voice_agent.Value.{
  ℤ, pos, negsuc, Value, null, bool, int, real, str, list, dict, Dict, as_dict, get, Runtime,
  to_str, to_str_or_empty,
}

-- `int(v)`: an integer, a `TypeError` or `ValueError`, or the `OverflowError` of an infinity
pub data IntOf : Type 0 where
  whole : ℤ → IntOf
  no_int : IntOf
  overflow : IntOf

-- What the reading of a controller's answer takes from Python: `int` of a text and of a float
pub record Numbers : Type 0 where
  pub int_of_text : String → IntOf
  pub int_of_real : String → IntOf

abbrev pub int_of : Numbers → Value → IntOf
int_of numbers null = no_int
int_of numbers (bool true) = whole (pos 1)
int_of numbers (bool false) = whole (pos 0)
int_of numbers (int n) = whole n
int_of numbers (real r) = numbers.int_of_real r
int_of numbers (str s) = numbers.int_of_text s
int_of numbers (list vs) = no_int
int_of numbers (dict fs) = no_int

abbrev is_success_code : ℤ → Bool
is_success_code (pos n) = leb 200 n && ltb n 300
is_success_code (negsuc n) = false

abbrev is_null : Value → Bool
is_null null = true
is_null _ = false

-- The pair that the function returns, or the exception that it lets out
pub data Verdict : Type 0 where
  success : String → Verdict
  failure : String → Verdict
  overflow_error : Verdict

abbrev success_words : List String
success_words = "success" ∷ "ok" ∷ "true" ∷ "1" ∷ []

abbrev failure_words : List String
failure_words = "error" ∷ "fail" ∷ "failed" ∷ "false" ∷ []

by_code : Runtime → Numbers → String → Value → Verdict
by_code runtime numbers status http_code =
    if is_null http_code
    then success (or_text status "success")
    else elim (int_of numbers http_code) [
      | whole n ↦
          if is_success_code n
          then success "success"
          else failure (concat "httpCode_" (to_str runtime http_code))
      | no_int ↦ success (or_text status "success")
      | overflow ↦ overflow_error
    ]

parse_dict : Runtime → Numbers → Dict → Verdict
unfolding by_code get
parse_dict runtime numbers [] = success "success"
parse_dict runtime numbers (item ∷ rest) =
    let payload = item ∷ rest in
    let status = runtime.lower (to_str_or_empty runtime (get "status" payload)) in
    if contains status success_words
    then success "success"
    else if contains status failure_words
    then failure status
    else by_code runtime numbers status (get "httpCode" payload)

-- `_parse_controller_payload`
unfoldable pub parse_controller_payload : Runtime → Numbers → Value → Verdict
unfolding parse_dict
parse_controller_payload runtime numbers v = elim (as_dict v) [
  | none ↦ success "success"
  | some d ↦ parse_dict runtime numbers d
]
