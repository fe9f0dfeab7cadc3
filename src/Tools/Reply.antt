-- ===== src/Tools/Reply.antt =====
-- What the handlers of the tools return, and what they take from outside.
use local_voice_agent.Prelude.{
  ℕ, String, Bool, true, false, Option, List, [], ◌∷◌, ◌==◌, nat_eq, string_eq, option_eq,
}
use local_voice_agent.Value.{Value, bool, str, Values, nil, cons, Dict}
use local_voice_agent.Models.{Uuid, Db}
use local_voice_agent.Ac.Http.{Controller, Outcome, Request}
use local_voice_agent.Remote.Command.{IrCommand}
use local_voice_agent.Remote.Press.{World}
use local_voice_agent.Remote.Tv.{TvRequest}
use local_voice_agent.Tools.Input.{Pydantic, Tool}

-- `django.core.signing` with its salt and maximal age
pub record Signing : Type 0 where
  pub dumps : Dict → String
  pub loads : String → Option Dict

-- Everything outside of the program that a tool reaches
pub record Outside : Type 0 where
  pub world : World
  pub ac_controller : Controller
  pub tv_controller : TvRequest → Outcome
  pub pydantic : Pydantic
  pub signing : Signing
  pub uuid_text : Uuid → String
  pub queue_accepts : ℕ → Bool
  pub dumps : Dict → String
  pub validation_errors : Tool → String → Option Value

-- The dictionary that a handler returns, or that it raises
pub data Handled : Type 0 where
  replied : Dict → Handled
  raised : Handled

-- What a handler sends to a device: a command with its URL, or a request
pub data Sent : Type 0 where
  ir_command : String × IrCommand → Sent
  tv_command : TvRequest → Sent
  ac_command : Request → Sent

-- What a handler returns, what it has sent, and the database
abbrev pub HandlerRun : Type 0
HandlerRun = (Handled × List Sent) × Db

-- A handler that sends nothing
abbrev pub quiet : Dict → Db → HandlerRun
quiet d db = ((replied d, []), db)

-- `_current_stay_matches`
abbrev pub stay_matches : Uuid → Db → Bool
stay_matches stay db = db.config.current_stay_id == stay

abbrev pub is_empty {ℓ} : {A : Type ℓ} → List A → Bool
is_empty [] = true
is_empty (a ∷ rest) = false

abbrev pub list_value : List Value → Values
list_value [] = nil
list_value (v ∷ vs) = cons v (list_value vs)

abbrev pub refusal : String → String → Dict
refusal key reason = (key, bool false) ∷ ("reason", str reason) ∷ []
