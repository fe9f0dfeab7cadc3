-- ===== src/Chat/Reset/Ends.antt =====
-- What is left of a stay after its reset.
use local_voice_agent.Prelude.{
  ℕ, ◌≡◌, refl, ◌≢◌, not, none, List, [], ◌∷◌, arith, ◌==◌, nat_eq, string_eq, option_eq, select,
  first, count, update,
}
use local_voice_agent.Value.{Dict}
use local_voice_agent.Models.{Time, Uuid, KioskMessage, SessionState, RealtimeSession, Db}
use local_voice_agent.Chat.Reset.{set_state, is_live_of, reset}
use local_voice_agent.Realtime.Session.{
  invalid, invalid_session, is_open_session, validated_realtime_session,
}

no_live :
    (stay session : Uuid) (sessions : List RealtimeSession)
    → first
        (is_open_session session stay)
        (update (is_live_of stay) (set_state SessionState.reset) sessions)
      ≡ none
no_live stay session [] = refl
no_live stay session (s ∷ sessions) = ground (arith, no_live stay session sessions)

no_message :
    (stay : Uuid) (rows : List KioskMessage)
    → count (λ (m : KioskMessage). m.stay_id == stay) (select (λ m. not (m.stay_id == stay)) rows)
      ≡ 0
no_message stay [] = refl
no_message stay (m ∷ rows) = ground (arith, no_message stay rows)

others :
    (old stay : Uuid) (rows : List KioskMessage)
    → stay ≢ old
    → select (λ (m : KioskMessage). m.stay_id == stay) (select (λ m. not (m.stay_id == old)) rows)
      ≡ select (λ m. m.stay_id == stay) rows
others old stay [] h = refl
others old stay (m ∷ rows) h = ground (arith, others old stay rows h)

-- A reset deletes every message of the stay and turns away every Realtime session of it, at any
-- time and with nothing written; the messages of another stay are all kept.
pub reset_ends_stay :
    (fresh : Uuid) (details : ℕ → Uuid → Dict) (db : Db) (now : Time) (ttl : ℕ)
    (session stay : Uuid)
    → stay ≢ db.config.current_stay_id
    → (count
          (λ (m : KioskMessage). m.stay_id == db.config.current_stay_id)
          (reset fresh details db).0.messages
        ≡ 0)
      × (validated_realtime_session now ttl session db.config.current_stay_id
            (reset fresh details db).0
          ≡ ((reset fresh details db).0, invalid invalid_session))
      × (select (λ m. m.stay_id == stay) (reset fresh details db).0.messages
          ≡ select (λ m. m.stay_id == stay) db.messages)
unfolding reset validated_realtime_session
reset_ends_stay fresh details db now ttl session stay h = (
  no_message db.config.current_stay_id db.messages,
  rw (no_live db.config.current_stay_id session db.sessions, validated_realtime_session),
  others db.config.current_stay_id stay db.messages h,
)
