-- ===== src/Staff/Saas.antt =====
-- kiosk_agent/integrations/saas.py.
use local_voice_agent.Prelude.{
  has_text, ℕ, String, Bool, not, ◌&&◌, ◌||◌, ltb, leb, if◌then◌else◌, nat_eq, string_eq, option_eq,
  is_text, or_text, strip,
}
use local_voice_agent.Value.{Value, Runtime}
use local_voice_agent.Value.{Runtime}
use local_voice_agent.Models.{ChaletConfig}

-- The settings of the environment
pub record Environment : Type 0 where
  pub url : String
  pub token : String
  pub tenant : String
  pub enabled : Bool

pub record SaasConfig : Type 0 where
  pub url : String
  pub token : String
  pub tenant : String
  pub enabled : Bool

-- `_is_placeholder_url`
unfoldable pub is_placeholder_url : Runtime → String → Bool
unfolding strip has_text
is_placeholder_url runtime url =
    let lowered = runtime.lower (strip url) in
    not (is_text lowered)
    || has_text "localhost" lowered
    || has_text "127.0.0.1" lowered
    || has_text "example.com" lowered

-- `_resolve_config`, less the timeout: a real address in the database comes first, otherwise the
-- environment's.
unfoldable pub resolve_config : Runtime → Environment → ChaletConfig → SaasConfig
unfolding strip is_placeholder_url
resolve_config runtime env config =
    let db_url = strip config.saas_integration_url in
    let db_token = strip config.saas_integration_token in
    let db_tenant = strip config.saas_tenant_subdomain in
    let enabled = config.saas_enabled || env.enabled in
    if is_placeholder_url runtime db_url
    then record {
      url = strip env.url;
      token = or_text (strip env.token) db_token;
      tenant = or_text (strip env.tenant) db_tenant;
      enabled = enabled;
    }
    else record {
      url = or_text db_url (strip env.url);
      token = or_text db_token (strip env.token);
      tenant = or_text db_tenant (strip env.tenant);
      enabled = enabled;
    }

-- The answer of the service: its status, its body as JSON or as `{"raw": …}`, and the text of the
-- error that a status which is no success makes; or the text of the exception
pub data SaasAnswer : Type 0 where
  answered : ℕ → Value → String → SaasAnswer
  failed : String → SaasAnswer

-- The four shapes of the dictionary that `forward_request_to_saas` returns
pub data ForwardResult : Type 0 where
  not_configured : ForwardResult
  forwarded : ℕ → Value → ForwardResult
  rejected : ℕ → String → ForwardResult
  exception : String → ForwardResult

-- `forward_request_to_saas`, with the service as a function of the settings
unfoldable pub forward_request_to_saas : SaasConfig → (SaasConfig → SaasAnswer) → ForwardResult
forward_request_to_saas config service =
    if not config.enabled || not (is_text config.url)
    then not_configured
    else elim (service config) [
      | failed error ↦ exception error
      | answered status body error ↦
          if leb 200 status && ltb status 300 then forwarded status body else rejected status error
    ]
