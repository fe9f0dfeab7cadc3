-- ===== src/Remote/Tv/Sent.antt =====
-- What a command of the television sends.
use local_voice_agent.Prelude.{
  String, ◌≡◌, inl, inr, true, some, List, [], ◌∷◌, arith, Bool-cases, Option-cases, nat_eq,
  string_eq, option_eq, is_text,
}
use local_voice_agent.Value.{Dict, is_true, get}
use local_voice_agent.Ac.Http.{post_method, Outcome}
use local_voice_agent.Remote.Tv.{
  command_endpoints, find_endpoint, TvResult, ok, tv_error, TvRequest, endpoint, read_answer,
  request, confirmed, send_command,
}

module _ (controller : TvRequest → Outcome) where
  confirmed-ok :
      (r : TvResult Dict × List TvRequest) (d : Dict) (sent : List TvRequest)
      → confirmed controller r ≡ (ok d, sent)
      → (r ≡ (ok d, sent)) × (is_true (get "success" d) ≡ true)
  unfolding confirmed
  confirmed-ok (tv_error e, s) d sent h = absurd (ground arith)
  confirmed-ok (ok b, s) d sent h = elim (Bool-cases (is_true (get "success" b))) [
    | inr t ↦ absurd (ground arith)
    | inl t ↦ let same : b ≡ d = ground arith in (ground arith, rw same at t)
  ]

  -- A command that succeeds is one of the table, was sent as one POST to its endpoint of a controller
  -- that is configured, and the controller's answer to it confirms it.
  pub send_command_confirmed :
      (base_url command : String) (d : Dict) (sent : List TvRequest)
      → send_command controller base_url command ≡ (ok d, sent)
      → (path : String) × (find_endpoint command command_endpoints ≡ some path)
        × (is_text base_url ≡ true)
        × (sent ≡ (post_method, endpoint base_url path) ∷ [])
        × (read_answer (controller (post_method, endpoint base_url path)) ≡ ok d)
        × (is_true (get "success" d) ≡ true)
  unfolding send_command request
  send_command_confirmed base_url command d sent h =
      elim (Option-cases (find_endpoint command command_endpoints)) [
        | inl e ↦ absurd (ground arith)
        | inr (path, e) ↦
            let (r, t) =
              confirmed-ok (request controller post_method base_url path) d sent (ground arith) in
            elim (Bool-cases (is_text base_url)) [
              | inr b ↦ absurd (ground arith)
              | inl b ↦ (path, e, b, ground arith, ground arith, t)
            ]
      ]
