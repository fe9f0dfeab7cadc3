-- ===== src/Examples/System.antt =====
-- A stay in which a guest's request is claimed and the stay ends.
use local_voice_agent.Prelude.{
  ℕ, ◌+◌, ◌≡◌, refl, some, [], ◌∷◌, ◌++◌, arith, nat_eq, string_eq, option_eq, All,
}
use local_voice_agent.Models.{Uuid, Role, Status, KioskMessage, Db}
use local_voice_agent.Value.{Dict}
use local_voice_agent.Chat.Store.{create_message}
use local_voice_agent.Chat.Sound.{Sound, IsLate}
use local_voice_agent.Chat.Reset.{reset}
use local_voice_agent.System.{here, later, resetting, saving}
use local_voice_agent.System.Safety.{system_safe}
use local_voice_agent.Examples.Data.{guest_message, db}

db-Sound : Sound db
db-Sound = record { of_stay = (refl, tt); single = omega arith }

-- An answer of the first stay, checked before the reset and written after it
abbrev late : KioskMessage
late = record (guest_message 0 7 Status.complete 0) { role = Role.assistant; content = "Hello" }

abbrev new_stay : Db
new_stay = (reset 2 (λ n fresh. []) db).0

abbrev late_row : KioskMessage
late_row = record late { pk = new_stay.next_message; created_at = 30 }

abbrev with_late : Db
with_late = record new_stay {
  messages = new_stay.messages ++ late_row ∷ [];
  next_message = new_stay.next_message + 1;
}

late_saved : create_message 30 late new_stay ≡ some (late_row, with_late)
unfolding create_message reset
late_saved = refl

system_safe_example :
    Sound with_late
    × ((fresh : Uuid) (details : ℕ → Uuid → Dict)
        → All (IsLate with_late.config.current_stay_id) (reset fresh details with_late).0.messages)
system_safe_example =
    system_safe
      (later (later here (resetting 2 (λ n fresh. [])))
        (saving 30 late late_row with_late refl late_saved))
      db-Sound

-- The next reset leaves the late answer.
late_stays : (reset 3 (λ n fresh. []) with_late).0.messages ≡ late_row ∷ []
unfolding reset
late_stays = refl
