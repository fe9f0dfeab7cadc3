-- ===== src/Ac/Control/Exchange.antt =====
-- What the requests to the ESP32 amount to.
use local_voice_agent.Prelude.{
  ◌≤◌, String, ◌≡◌, List, [], arith, nat_eq, string_eq, option_eq, length,
}
use local_voice_agent.Value.{Dict, Runtime}
use local_voice_agent.Models.{RemoteControl, AcState}
use local_voice_agent.Ac.Validate.{ok}
use local_voice_agent.Ac.Http.{Request, Response, response, Controller}
use local_voice_agent.Ac.Response.{apply_confirmed_state}
use local_voice_agent.Ac.Control.{exchange}

module _ (runtime : Runtime) (controller : Controller) (device : RemoteControl) where
  pub exchange-ok :
      (url : String) (payload : Dict) (state state' : AcState) (r : Response) (sent : List Request)
      → exchange runtime controller device url payload state [] ≡ (ok (state', r), sent)
      → (controller sent ≡ response r)
        × (state.state_version ≤ state'.state_version)
        × (length sent ≤ 3)
  unfolding exchange apply_confirmed_state
  exchange-ok url payload state state' r sent h = ground arith

  pub length-exchange :
      (url : String) (payload : Dict) (state : AcState)
      → length (exchange runtime controller device url payload state []).1 ≤ 3
  unfolding exchange
  length-exchange url payload state = ground arith
