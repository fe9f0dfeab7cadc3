-- ===== src/System/Safety.antt =====
-- What holds after any sequence of steps.
use local_voice_agent.Prelude.{ℕ, All, nat_eq, string_eq, option_eq}
use local_voice_agent.Models.{Uuid, Db}
use local_voice_agent.Value.{Dict}
use local_voice_agent.Chat.Reset.{reset}
use local_voice_agent.Chat.Sound.{Sound, IsLate, reset-IsLate}
use local_voice_agent.System.{Reach, here, later}
use local_voice_agent.System.Invariant.{Step-Sound}

Reach-Sound : {start db : Db} → Reach start db → Sound start → Sound db
Reach-Sound here s = s
Reach-Sound (later r step) s = Step-Sound step (Reach-Sound r s)

-- However the transactions of the page, the worker and the tools interleave, also where a reset
-- comes between the check of the stay and the row of `_save_message`: if the chat was in order at the
-- start, then every message of the guest is of the current stay, at most one request of the guest
-- waits for its answer, and a reset leaves no message of the guest and none of the stay that ends:
-- what may be left are answers and tool results of other stays.
pub system_safe :
    {start db : Db}
    → Reach start db
    → Sound start
    → Sound db
      × ((fresh : Uuid) (details : ℕ → Uuid → Dict)
          → All (IsLate db.config.current_stay_id) (reset fresh details db).0.messages)
system_safe {db} r s =
    let sound = Reach-Sound r s in (sound, λ fresh details. reset-IsLate fresh details db sound)
