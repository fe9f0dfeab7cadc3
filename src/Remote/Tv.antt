-- ===== src/Remote/Tv.antt =====
-- kiosk_agent/tv_remote.py: the controller of an LG television.
pub mod Sent
use local_voice_agent.Prelude.{
  ◌/◌, String, not, Option, none, some, List, [], ◌∷◌, if◌then◌else◌, ◌==◌, nat_eq, string_eq,
  option_eq, is_text, concat,
}
use local_voice_agent.Value.{Dict, as_dict, is_true, get}
use local_voice_agent.Remote.Url.{rstrip_slashes}
use local_voice_agent.Ac.Http.{
  Method, get_method, post_method, Outcome, response, timed_out, http_error,
}

-- `COMMAND_ENDPOINTS`
abbrev pub command_endpoints : List (String × String)
command_endpoints =
    ("POWER", "/api/ir/power")
    ∷ ("VOL_UP", "/api/ir/volume/up")
    ∷ ("VOL_DOWN", "/api/ir/volume/down")
    ∷ ("MUTE", "/api/ir/mute")
    ∷ ("CH_UP", "/api/ir/channel/up")
    ∷ ("CH_DOWN", "/api/ir/channel/down")
    ∷ ("INPUT", "/api/ir/input")
    ∷ ("HOME", "/api/ir/home")
    ∷ ("SETTINGS", "/api/ir/settings")
    ∷ ("UP", "/api/ir/navigation/up")
    ∷ ("DOWN", "/api/ir/navigation/down")
    ∷ ("LEFT", "/api/ir/navigation/left")
    ∷ ("RIGHT", "/api/ir/navigation/right")
    ∷ ("OK", "/api/ir/navigation/ok")
    ∷ ("BACK", "/api/ir/back")
    ∷ ("EXIT", "/api/ir/exit")
    ∷ ("0", "/api/ir/number/0")
    ∷ ("1", "/api/ir/number/1")
    ∷ ("2", "/api/ir/number/2")
    ∷ ("3", "/api/ir/number/3")
    ∷ ("4", "/api/ir/number/4")
    ∷ ("5", "/api/ir/number/5")
    ∷ ("6", "/api/ir/number/6")
    ∷ ("7", "/api/ir/number/7")
    ∷ ("8", "/api/ir/number/8")
    ∷ ("9", "/api/ir/number/9")
    ∷ []

unfoldable pub find_endpoint : String → List (String × String) → Option String
find_endpoint command [] = none
find_endpoint command ((name, path) ∷ rest) =
    let found = find_endpoint command rest in if name == command then some path else found

-- The codes of `TVRemoteError`
pub data TvCode : Type 0 where
  not_configured timeout offline controller_error invalid_response invalid_command : TvCode

pub data TvResult {ℓ} (A : Type ℓ) : Type ℓ where
  ok : A → TvResult A
  tv_error : TvCode → TvResult A

-- What is sent: the method and the URL
abbrev pub TvRequest : Type 0
TvRequest = Method × String

-- `f"{base_url.rstrip('/')}{path}"`
unfoldable pub endpoint : String → String → String
unfolding rstrip_slashes
endpoint base_url path = concat (rstrip_slashes base_url) path

unfoldable pub read_answer : Outcome → TvResult Dict
read_answer timed_out = tv_error timeout
read_answer http_error = tv_error offline
read_answer (response r) =
    if not (r.status_code == 200) then tv_error controller_error else elim r.json [
      | none ↦ tv_error invalid_response
      | some v ↦ elim (as_dict v) [ none ↦ tv_error invalid_response | some d ↦ ok d ]
    ]

module _ (controller : TvRequest → Outcome) where
  -- `_request`: the payload, and what was sent
  request : Method → String → String → TvResult Dict × List TvRequest
  unfolding read_answer endpoint
  request method base_url path =
      if not (is_text base_url)
      then (tv_error not_configured, [])
      else let sent : TvRequest = (method, endpoint base_url path) in
        (read_answer (controller sent), sent ∷ [])

  confirmed : TvResult Dict × List TvRequest → TvResult Dict × List TvRequest
  unfolding get
  confirmed (tv_error e, sent) = (tv_error e, sent)
  confirmed (ok d, sent) =
      if is_true (get "success" d) then (ok d, sent) else (tv_error controller_error, sent)

  -- `send_command`
  unfoldable pub send_command : String → String → TvResult Dict × List TvRequest
  unfolding find_endpoint request confirmed
  send_command base_url command = elim (find_endpoint command command_endpoints) [
    | none ↦ (tv_error invalid_command, [])
    | some path ↦ confirmed (request post_method base_url path)
  ]

  -- `get_status`
  unfoldable pub get_status : String → TvResult Dict × List TvRequest
  unfolding request
  get_status base_url = request get_method base_url "/api/status"
