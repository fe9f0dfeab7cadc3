-- ===== src/Ac/Http.antt =====
-- The requests to a controller and its answers. The controller is not part of the program: it is
-- any function from the requests that it has received to its answer to the last of them.
use local_voice_agent.Prelude.{
  ℕ, code, String, ◌≡◌, refl, Option, List, [], ◌∷◌, ◌++◌, arith, nat_eq, string_eq, option_eq,
}
use local_voice_agent.Value.{Value, Dict}
use local_voice_agent.Ac.Validate.{Code, Result, ok, err, fail, timeout, network_error}

pub data Method : Type 0 where
  get_method post_method : Method

pub record Request : Type 0 where
  pub method : Method
  pub url : String
  pub body : Dict

-- `json` is `none` where the body is no JSON.
pub record Response : Type 0 where
  pub status_code : ℕ
  pub json : Option Value

pub data Outcome : Type 0 where
  response : Response → Outcome
  timed_out : Outcome
  http_error : Outcome

abbrev pub Controller : Type 0
Controller = List Request → Outcome

-- An exchange gives its result and every request that was sent.
abbrev pub Net : Type 0 → Type 0
Net A = List Request → Result A × List Request

module _ {A : Type 0} where
  pub pure : A → Net A
  pure a sent = (ok a, sent)

  pub lift : Result A → Net A
  lift r sent = (r, sent)

  pub raise : Code → Net A
  raise code sent = (fail code, sent)

module _ {A B : Type 0} where
  abbrev pub continue : Result A → (A → Net B) → Net B
  continue (ok a) f sent = f a sent
  continue (err e) f sent = (err e, sent)

  infixl 5 ◌>>=◌
  unfoldable pub ◌>>=◌ : Net A → (A → Net B) → Net B
  unfolding pure lift raise
  ◌>>=◌ m f sent = let (r, sent') = m sent in continue r f sent'

abbrev pub received : Outcome → Result Response
received (response r) = ok r
received timed_out = fail timeout
received http_error = fail network_error

-- One request. The two `except` clauses of the exchange turn a failure into its error.
unfoldable pub send : Controller → Request → Net Response
send controller request sent =
    let sent' = sent ++ request ∷ [] in (received (controller sent'), sent')

-- A chain that succeeds has succeeded step by step.
pub >>=-eq-ok :
    {A B : Type 0} (m : Net A) (f : A → Net B) (sent : List Request) {b : B} {sent' : List Request}
    → (m >>= f) sent ≡ (ok b, sent')
    → (a : A) × (between : List Request) × (m sent ≡ (ok a, between))
      × (f a between ≡ (ok b, sent'))
unfolding ◌>>=◌
>>=-eq-ok {A} {B} m f sent {b} {sent'} h = go (m sent) refl
  where
    go :
        (r : Result A × List Request)
        → m sent ≡ r
        → (a : A) × (between : List Request) × (m sent ≡ (ok a, between))
          × (f a between ≡ (ok b, sent'))
    go (ok a, between) e = (a, between, e, ground arith)
    go (err x, between) e = absurd (ground arith)
