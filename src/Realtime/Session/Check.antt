-- ===== src/Realtime/Session/Check.antt =====
-- What the check of a session decides and what it leaves alone.
use local_voice_agent.Prelude.{
  ℕ, ◌+◌, ◌<◌, ◌≡◌, ◌↔◌, some, arith, nat_eq, string_eq, option_eq, first,
}
use local_voice_agent.Models.{Time, Uuid, RealtimeSession, Db}
use local_voice_agent.Realtime.Session.{valid, is_open_session, validated_realtime_session}

module _ (now : Time) (ttl : ℕ) (session stay : Uuid) (db : Db) where
  -- The check writes the table of sessions only.
  pub validated-keeps :
      ((validated_realtime_session now ttl session stay db).0.messages ≡ db.messages)
      × ((validated_realtime_session now ttl session stay db).0.next_message ≡ db.next_message)
      × ((validated_realtime_session now ttl session stay db).0.config ≡ db.config)
      × ((validated_realtime_session now ttl session stay db).0.audits ≡ db.audits)
  unfolding validated_realtime_session
  validated-keeps = ground arith

  -- The check passes, and moves the expiry to `ttl` seconds from now, exactly if there is an active
  -- session of that id and stay that has not expired, and the stay is the current one.
  pub validated_iff :
      ((s : RealtimeSession) × (first (is_open_session session stay) db.sessions ≡ some s)
        × ((validated_realtime_session now ttl session stay db).1
            ≡ valid (record s { expires_at = now + ttl; last_activity_at = now })))
      ↔ ((s : RealtimeSession) × (first (is_open_session session stay) db.sessions ≡ some s)
          × (db.config.current_stay_id ≡ stay)
          × (now < s.expires_at))
  unfolding validated_realtime_session
  validated_iff =
      (λ (s, e, h). (s, e, ground arith, ground arith), λ (s, e, c, lt). (s, e, ground arith))

  -- A session that passes belongs to the current stay.
  pub validated-current :
      (s : RealtimeSession)
      → (validated_realtime_session now ttl session stay db).1 ≡ valid s
      → stay ≡ db.config.current_stay_id
  unfolding validated_realtime_session
  validated-current s h = ground arith
