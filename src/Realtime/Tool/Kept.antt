-- ===== src/Realtime/Tool/Kept.antt =====
-- A tool call loses no row of the chat.
use local_voice_agent.Prelude.{
  ℕ, refl, ◌∙◌, not, Option, none, some, [], ◌∷◌, if_ind, ◌==◌, nat_eq, string_eq, option_eq,
  contains,
}
use local_voice_agent.Models.{Time, Uuid, KioskMessage, RealtimeSession, Db}
use local_voice_agent.Value.{Dict}
use local_voice_agent.Chat.Kept.{Keys, HasRow, any-update, any-append}
use local_voice_agent.Realtime.Session.{Validated, valid, invalid, validated_realtime_session}
use local_voice_agent.Realtime.Session.Check.{validated-keeps}
use local_voice_agent.Realtime.Tool.{
  ToolCall, ToolResponse, finish_row, store_reply, run_reserved, admit, after_check, realtime_tool,
}
use local_voice_agent.Realtime.Tool.Admit.{reserved_row, reserved_db, admit_cases}
use local_voice_agent.Tools.Runner.{ToolReply, tool_names, ToolRunner}

module _ (q : Keys) where
  module _ (tools : ToolRunner) (metadata : Uuid → Dict) (call : ToolCall) (now : Time) where
    store_reply-HasRow :
        (row : KioskMessage) (r : Option ToolReply × Db)
        → HasRow q r.1
        → HasRow q (store_reply tools row r).0
    unfolding store_reply
    store_reply-HasRow row (none, db) k = k
    store_reply-HasRow row (some reply, db) k =
        any-update q (λ m. m.pk == row.pk) (finish_row reply.content) db.messages (λ m. refl) ∙ k

    run_reserved-HasRow :
        (row : KioskMessage) (db : Db) → HasRow q db → HasRow q (run_reserved tools call row db).0
    unfolding run_reserved
    run_reserved-HasRow row db k =
        store_reply-HasRow row
          (tools.execute call.name call.arguments call.stay_id call.request_id db)
          (rw (tools.messages-execute call.name call.arguments call.stay_id call.request_id db) k)

    admit-HasRow :
        (session : RealtimeSession) (db : Db)
        → HasRow q db
        → HasRow q (admit tools now metadata call session db).0
    admit-HasRow session db k =
        admit_cases tools metadata call now session db (λ r. HasRow q r.0) (λ m e. k) (λ e. k)
          (λ e l a. k)
          (λ e l.
            run_reserved-HasRow (reserved_row tools metadata call now session db)
              (reserved_db tools metadata call now session db)
              (any-append q db.messages (reserved_row tools metadata call now session db ∷ []) k))

    tool_check-HasRow :
        (c : Db × Validated) → HasRow q c.0 → HasRow q (after_check tools now metadata call c).0
    unfolding after_check
    tool_check-HasRow (db, invalid error) k = k
    tool_check-HasRow (db, valid session) k = admit-HasRow session db k

    pub realtime_tool-HasRow :
        (ttl : ℕ) (db : Db)
        → HasRow q db
        → HasRow q (realtime_tool tools now ttl metadata call db).0
    unfolding realtime_tool
    realtime_tool-HasRow ttl db k =
        let c = validated_realtime_session now ttl call.session_id call.stay_id db in
        if_ind (λ (r : Db × ToolResponse). HasRow q r.0) (not (contains call.name tool_names)) k
          (tool_check-HasRow c (rw ((validated-keeps now ttl call.session_id call.stay_id db).0) k))
