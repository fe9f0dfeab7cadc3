-- ===== src/Permissions.antt =====
-- kiosk_agent/permissions.py: who may use the endpoints.
pub mod Granted
use local_voice_agent.Prelude.{
  String, Bool, true, false, not, ◌&&◌, ◌||◌, Option, none, some, List, [], ◌∷◌, if◌then◌else◌,
  ◌==◌, nat_eq, string_eq, option_eq, contains, is_text,
}
use local_voice_agent.Value.{str, Dict}
use local_voice_agent.Prelude.{is_ascii}
use local_voice_agent.Tools.Reply.{Signing}

-- The parts of a request that the permission reads; `origin` is the `Origin` header or else the
-- `Referer`, and blank where neither is given.
pub record HttpRequest : Type 0 where
  pub method : String
  pub kiosk_key : String
  pub origin : String
  pub scheme : String
  pub host : String
  pub cookie : String

-- `urlsplit`: the scheme and the authority, `none` for a `ValueError`
abbrev pub UrlSplit : Type 0
UrlSplit = String → Option (String × String)

-- What the permission takes from outside: the settings, `signing.loads` with the salt of the cookie and
-- the age of a session, and `urlsplit`
pub record Site : Type 0 where
  pub api_key : String
  pub signing : Signing
  pub urlsplit : UrlSplit

-- `payload == {"scope": "kiosk"}`
abbrev pub is_kiosk_scope : Dict → Bool
is_kiosk_scope ((k, str s) ∷ []) = k == "scope" && s == "kiosk"
is_kiosk_scope _ = false

-- `valid_kiosk_cookie`
unfoldable pub valid_kiosk_cookie : Signing → String → Bool
valid_kiosk_cookie signing value =
    if not (is_text value)
    then false
    else elim (signing.loads value) [ none ↦ false | some payload ↦ is_kiosk_scope payload ]

-- `create_kiosk_cookie`
unfoldable pub create_kiosk_cookie : Signing → String
create_kiosk_cookie signing = signing.dumps (("scope", str "kiosk") ∷ [])

abbrev pub safe_methods : List String
safe_methods = "GET" ∷ "HEAD" ∷ "OPTIONS" ∷ "TRACE" ∷ []

-- The answer, or the exception of `urlsplit` or of `compare_digest`
pub data Decision : Type 0 where
  granted denied value_error type_error : Decision

abbrev pub decision : Bool → Decision
decision true = granted
decision false = denied

-- The test of the origin of a request that may change something
unfoldable pub from_here : UrlSplit → HttpRequest → Option Bool
from_here urlsplit r =
    if contains r.method safe_methods || not (is_text r.origin)
    then some true
    else elim (urlsplit r.origin) [
      | none ↦ none
      | some (scheme, netloc) ↦ some (scheme == r.scheme && netloc == r.host)
    ]

-- The part without the key
unfoldable pub by_cookie : Site → HttpRequest → Decision
unfolding valid_kiosk_cookie from_here
by_cookie site r = elim (from_here site.urlsplit r) [
  | none ↦ value_error
  | some here ↦ if here then decision (valid_kiosk_cookie site.signing r.cookie) else denied
]

-- `OptionalKioskKeyPermission.has_permission`; `secrets.compare_digest` takes texts of ASCII only.
unfoldable pub has_permission : Site → HttpRequest → Decision
unfolding by_cookie
has_permission site r =
    if not (is_text site.api_key && is_text r.kiosk_key)
    then by_cookie site r
    else if not (is_ascii r.kiosk_key && is_ascii site.api_key)
    then type_error
    else if r.kiosk_key == site.api_key
    then granted
    else by_cookie site r
