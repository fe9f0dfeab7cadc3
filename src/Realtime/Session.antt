-- ===== src/Realtime/Session.antt =====
-- `_validated_realtime_session`, and the opening and closing of a session.
pub mod Check
use local_voice_agent.Prelude.{
  ℕ, ◌+◌, ◌/◌, String, Bool, not, ◌&&◌, ◌||◌, Option, none, some, [], ◌∷◌, ◌++◌, ltb, leb,
  if◌then◌else◌, ◌==◌, nat_eq, string_eq, option_eq, select, first, any, update, len, prefix,
}
use local_voice_agent.Models.{Time, Uuid, SessionState, is_active_state, RealtimeSession, Db}
use local_voice_agent.Chat.Reset.{set_state}

pub data SessionError : Type 0 where
  invalid_session stay_expired session_expired : SessionError

pub data Validated : Type 0 where
  valid : RealtimeSession → Validated
  invalid : SessionError → Validated

-- `get(pk=…, stay_id=…, state=ACTIVE)`
abbrev pub is_open_session : Uuid → Uuid → RealtimeSession → Bool
is_open_session session stay s = s.id == session && s.stay_id == stay && is_active_state s.state

abbrev pub set_session : Uuid → (RealtimeSession → RealtimeSession) → Db → Db
set_session session f db = record db { sessions = update (λ s. s.id == session) f db.sessions }

abbrev pub end_session : Time → SessionState → RealtimeSession → RealtimeSession
end_session now state s = record s { state = state; last_activity_at = now }

abbrev pub extend_session : Time → ℕ → RealtimeSession → RealtimeSession
extend_session now ttl s = record s { expires_at = now + ttl; last_activity_at = now }

check_session : Time → ℕ → Uuid → RealtimeSession → Db → Db × Validated
check_session now ttl stay s db =
    if not (db.config.current_stay_id == stay)
    then (set_session s.id (end_session now SessionState.reset) db, invalid stay_expired)
    else if leb s.expires_at now
    then (set_session s.id (end_session now SessionState.expired) db, invalid session_expired)
    else (set_session s.id (extend_session now ttl) db, valid (extend_session now ttl s))

-- `_validated_realtime_session`, with `ttl` for `REALTIME_LOCAL_SESSION_TTL_SECONDS`
unfoldable pub validated_realtime_session : Time → ℕ → Uuid → Uuid → Db → Db × Validated
unfolding check_session
validated_realtime_session now ttl session stay db =
    elim (first (is_open_session session stay) db.sessions) [
      | none ↦ (db, invalid invalid_session)
      | some s ↦ check_session now ttl stay s db
    ]

abbrev seven_days : ℕ
seven_days = 604800

-- Ended sessions that were created more than seven days ago
abbrev is_old : Time → RealtimeSession → Bool
is_old now s = not (is_active_state s.state) && ltb (s.created_at + seven_days) now

-- What `RealtimeSessionView.post` writes once the provider has answered the offer
unfoldable pub open_session : Time → ℕ → Uuid → Db → Db × RealtimeSession
open_session now ttl fresh db =
    let session : RealtimeSession = record {
      id = fresh;
      stay_id = db.config.current_stay_id;
      state = SessionState.active;
      expires_at = now + ttl;
      last_activity_at = now;
      created_at = now;
    } in
    let expired =
      update (λ s. is_active_state s.state && leb s.expires_at now) (set_state SessionState.expired)
        db.sessions in
    (record db { sessions = select (λ s. not (is_old now s)) expired ++ session ∷ [] }, session)

-- The answer of the provider to `create_realtime_call`: a `RuntimeError` has a message, and any
-- other exception is a failure.
pub data Upstream : Type 0 where
  not_configured : String → Upstream
  raised : Upstream
  answered : ℕ → String → Upstream

pub data SessionReply : Type 0 where
  refused : ℕ → SessionReply
  forwarded : ℕ → String → Option (Uuid × Uuid) → SessionReply

abbrev is_success : ℕ → Bool
is_success status = leb 200 status && ltb status 300

starts_offer : String → Bool
starts_offer sdp = prefix 3 sdp == "v=0"

after_upstream : Time → ℕ → Uuid → Upstream → Db → Db × SessionReply
unfolding open_session
after_upstream now ttl fresh (not_configured message) db = (db, refused 503)
after_upstream now ttl fresh raised db = (db, refused 502)
after_upstream now ttl fresh (answered status content) db =
    if is_success status
    then (let (opened, session) = open_session now ttl fresh db in
        (opened, forwarded status content (some (session.id, session.stay_id))))
    else (db, forwarded status content none)

-- `RealtimeSessionView.post`: `body` is `none` where the bytes are no UTF-8, and `call` stands for
-- the provider.
unfoldable pub realtime_session :
    String → String → Option String → (String → Upstream) → Time → ℕ → Uuid → Db → Db × SessionReply
unfolding after_upstream starts_offer
realtime_session voice_source content_type body call now ttl fresh db =
    if not (voice_source == "realtime")
    then (db, refused 409)
    else if not (content_type == "application/sdp" || content_type == "text/plain")
    then (db, refused 415)
    else elim body [
      | none ↦ (db, refused 400)
      | some sdp ↦
          if not (starts_offer sdp) || ltb 100000 (len sdp)
          then (db, refused 400)
          else after_upstream now ttl fresh (call sdp) db
    ]

-- `RealtimeSessionCloseView.post`: whether a session was closed
unfoldable pub close_session : Uuid → Uuid → Db → Db × Bool
close_session session stay db = (
  record db {
    sessions = update (is_open_session session stay) (set_state SessionState.closed) db.sessions;
  },
  any (is_open_session session stay) db.sessions,
)
