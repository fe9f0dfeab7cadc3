-- ===== src/Examples/Permissions.antt =====
-- The page of the kiosk with its cookie.
use local_voice_agent.Prelude.{
  ◌≡◌, refl, ◌⊎◌, true, none, some, if◌then◌else◌, ◌==◌, nat_eq, string_eq, option_eq, is_text,
}
use local_voice_agent.Permissions.{
  HttpRequest, Site, valid_kiosk_cookie, granted, from_here, by_cookie, has_permission,
}
use local_voice_agent.Permissions.Granted.{kiosk_scope, HasSession, has_permission_granted}

abbrev site : Site
site = record {
  api_key = "k-1";
  signing = record {
    dumps = λ d. "signed";
    loads = λ s. if s == "signed" then some kiosk_scope else none;
  };
  urlsplit = λ s. some ("http", "kiosk.local");
}

abbrev post : HttpRequest
post = record {
  method = "POST";
  kiosk_key = "";
  origin = "http://kiosk.local/";
  scheme = "http";
  host = "kiosk.local";
  cookie = "signed";
}

post_granted : has_permission site post ≡ granted
unfolding has_permission by_cookie from_here valid_kiosk_cookie
post_granted = refl

has_permission_granted_example :
    ((is_text "k-1" ≡ true) × (post.kiosk_key ≡ site.api_key)) ⊎ HasSession site post
has_permission_granted_example = has_permission_granted site post post_granted
