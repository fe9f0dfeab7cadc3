-- ===== src/Realtime/Tool/Sound.antt =====
-- A tool call keeps the chat in order.
use local_voice_agent.Prelude.{
  ℕ, ◌≡◌, refl, sym, ap, ◌∙◌, not, Option, none, some, arith, if_ind, ◌==◌, nat_eq, string_eq,
  option_eq, contains,
}
use local_voice_agent.Models.{Time, Uuid, ChaletConfig, KioskMessage, RealtimeSession, Db}
use local_voice_agent.Value.{Dict}
use local_voice_agent.Chat.Sound.{Sound, Sound-same, Sound-append, Sound-update}
use local_voice_agent.Tools.Runner.{ToolReply, tool_names, ToolRunner}
use local_voice_agent.Realtime.Session.{Validated, valid, invalid, validated_realtime_session}
use local_voice_agent.Realtime.Session.Check.{validated-keeps, validated-current}
use local_voice_agent.Realtime.Tool.{
  ToolCall, ToolResponse, finish_row, store_reply, run_reserved, admit, after_check, realtime_tool,
}
use local_voice_agent.Realtime.Tool.Admit.{reserved_row, reserved_db, admit_cases}

module _ (tools : ToolRunner) (metadata : Uuid → Dict) (call : ToolCall) (now : Time) where
  store-Sound :
      (row : KioskMessage) (r : Option ToolReply × Db)
      → Sound r.1
      → Sound (store_reply tools row r).0
  unfolding store_reply
  store-Sound row (none, db) s = s
  store-Sound row (some reply, db) s =
      Sound-update (λ m. m.pk == row.pk) (finish_row reply.content) db (λ m. refl)
        (λ m e q. ground arith) s

  run-Sound : (row : KioskMessage) (db : Db) → Sound db → Sound (run_reserved tools call row db).0
  unfolding run_reserved
  run-Sound row db s =
      store-Sound row (tools.execute call.name call.arguments call.stay_id call.request_id db) (
        Sound-same db _
          (tools.messages-execute call.name call.arguments call.stay_id call.request_id db)
          (tools.config-execute call.name call.arguments call.stay_id call.request_id db) s)

  admit-Sound :
      (session : RealtimeSession) (db : Db)
      → call.stay_id ≡ db.config.current_stay_id
      → Sound db
      → Sound (admit tools now metadata call session db).0
  admit-Sound session db o s =
      admit_cases tools metadata call now session db (λ r. Sound r.0) (λ m e. s) (λ e. s)
        (λ e l a. s)
        (λ e l.
          run-Sound (reserved_row tools metadata call now session db)
            (reserved_db tools metadata call now session db)
            (Sound-append (reserved_row tools metadata call now session db) db
              (reserved_db tools metadata call now session db) refl (ground arith) refl refl s))

  after_check-Sound :
      (c : Db × Validated)
      → ((s : RealtimeSession) → c.1 ≡ valid s → call.stay_id ≡ c.0.config.current_stay_id)
      → Sound c.0
      → Sound (after_check tools now metadata call c).0
  unfolding after_check
  after_check-Sound (db, invalid error) o s = s
  after_check-Sound (db, valid session) o s = admit-Sound session db (o session refl) s

  pub realtime_tool-Sound :
      (ttl : ℕ) (db : Db) → Sound db → Sound (realtime_tool tools now ttl metadata call db).0
  unfolding realtime_tool
  realtime_tool-Sound ttl db s =
      let c = validated_realtime_session now ttl call.session_id call.stay_id db in
      let (m, n, k, a) = validated-keeps now ttl call.session_id call.stay_id db in
      if_ind (λ (r : Db × ToolResponse). Sound r.0) (not (contains call.name tool_names)) s
        (after_check-Sound c
          (λ t e.
            validated-current now ttl call.session_id call.stay_id db t e
            ∙ ap (λ (x : ChaletConfig). x.current_stay_id) (sym k))
          (Sound-same db c.0 m k s))
