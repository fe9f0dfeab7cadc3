-- ===== src/Chat/Reset.antt =====
-- kiosk_agent/views.py: `ResetView.post`, the end of a stay.
pub mod Ends
use local_voice_agent.Prelude.{
  ℕ, Bool, not, ◌&&◌, none, ◌==◌, nat_eq, string_eq, option_eq, select, count, update,
}
use local_voice_agent.Value.{Dict}
use local_voice_agent.Models.{
  Uuid, KioskMessage, Event, SessionState, is_active_state, RealtimeSession, Db,
}
use local_voice_agent.Channel.{Published, Payload}
use local_voice_agent.Chat.Store.{audit}

abbrev pub set_state : SessionState → RealtimeSession → RealtimeSession
set_state state s = record s { state = state }

abbrev pub is_live_of : Uuid → RealtimeSession → Bool
is_live_of stay s = s.stay_id == stay && is_active_state s.state

-- `fresh` is the stay id that `uuid4` draws. The event goes out after the commit. The texts of the
-- two audit details are left to `details`.
unfoldable pub reset : Uuid → (ℕ → Uuid → Dict) → Db → Db × Published
reset fresh details db =
    let old_stay = db.config.current_stay_id in
    let deleted = count (λ (m : KioskMessage). m.stay_id == old_stay) db.messages in
    (
      audit old_stay none Event.stay_reset (details deleted fresh) (record db {
        config = record db.config { current_stay_id = fresh };
        sessions = update (is_live_of old_stay) (set_state SessionState.reset) db.sessions;
        messages = select (λ m. not (m.stay_id == old_stay)) db.messages;
      }),
      record { stay_id = old_stay; request_id = none; payload = Payload.reset fresh },
    )
