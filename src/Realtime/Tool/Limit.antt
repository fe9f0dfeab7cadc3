-- ===== src/Realtime/Tool/Limit.antt =====
-- One request of a guest has at most five rows of tool calls.
use local_voice_agent.Prelude.{
  none, some, Option, ℕ, max, subst, ◌≤◌, ◌≡◌, refl, false, not, [], ◌∷◌, arith, leb, if_ind, ◌==◌,
  nat_eq, string_eq, option_eq, contains, count, count-append, count-update-eq,
}
use local_voice_agent.Value.{Dict}
use local_voice_agent.Models.{Time, Uuid, KioskMessage, RealtimeSession, Db}
use local_voice_agent.Tools.Runner.{ToolReply, tool_names, ToolRunner}
use local_voice_agent.Realtime.Session.{Validated, valid, invalid, validated_realtime_session}
use local_voice_agent.Realtime.Session.Check.{validated-keeps}
use local_voice_agent.Realtime.Tool.{
  ToolCall, ToolResponse, is_tool_row, tool_limit, finish_row, run_reserved, store_reply, admit,
  after_check, realtime_tool,
}
use local_voice_agent.Realtime.Tool.Admit.{reserved_row, reserved_db, admit_cases}

-- No request has more tool rows than before, unless it has at most five.
abbrev pub IsLimited : Db → Db → Type 0
IsLimited before after =
    (stay request : Uuid)
    → count (is_tool_row stay request) after.messages
      ≤ max tool_limit (count (is_tool_row stay request) before.messages)

module _ (tools : ToolRunner) (metadata : Uuid → Dict) (call : ToolCall) (now : Time) where
  count-reserved :
      (session : RealtimeSession) (db : Db)
      → leb tool_limit (count (is_tool_row call.stay_id call.request_id) db.messages) ≡ false
      → IsLimited db (reserved_db tools metadata call now session db)
  count-reserved session db l stay request = ground (
    arith,
    count-append (is_tool_row stay request) db.messages
        (reserved_row tools metadata call now session db ∷ []),
  )

  store-IsLimited :
      (start : Db) (row : KioskMessage) (r : Option ToolReply × Db)
      → IsLimited start r.1
      → IsLimited start (store_reply tools row r).0
  unfolding store_reply
  store-IsLimited start row (none, db) h stay request = h stay request
  store-IsLimited start row (some reply, db) h stay request =
      rw
        (count-update-eq (is_tool_row stay request) (λ m. m.pk == row.pk) (finish_row reply.content)
          db.messages (λ x e. refl))
        (h stay request)

  run-IsLimited :
      (start : Db) (row : KioskMessage) (db : Db)
      → IsLimited start db
      → IsLimited start (run_reserved tools call row db).0
  unfolding run_reserved
  run-IsLimited start row db h =
      store-IsLimited start row
        (tools.execute call.name call.arguments call.stay_id call.request_id db)
        (λ stay request.
          rw (tools.messages-execute call.name call.arguments call.stay_id call.request_id db)
            (h stay request))

  admit-IsLimited :
      (session : RealtimeSession) (db : Db)
      → IsLimited db (admit tools now metadata call session db).0
  admit-IsLimited session db =
      let same : IsLimited db db = λ stay request. omega arith in
      admit_cases tools metadata call now session db (λ r. IsLimited db r.0) (λ m e. same)
        (λ e. same) (λ e l a. same)
        (λ e l.
          run-IsLimited db (reserved_row tools metadata call now session db)
            (reserved_db tools metadata call now session db) (count-reserved session db l))

  after_check-IsLimited :
      (c : Db × Validated) → IsLimited c.0 (after_check tools now metadata call c).0
  unfolding after_check
  after_check-IsLimited (db, invalid error) stay request = omega arith
  after_check-IsLimited (db, valid session) stay request = admit-IsLimited session db stay request

  -- A call of the Realtime endpoint never raises the number of tool rows of a request beyond five,
  -- whatever rows the agent has stored for it and for other requests: after the call a request has at
  -- most five, or no more than before.
  pub realtime_tool-IsLimited :
      (ttl : ℕ) (db : Db) → IsLimited db (realtime_tool tools now ttl metadata call db).0
  unfolding realtime_tool
  realtime_tool-IsLimited ttl db =
      let c = validated_realtime_session now ttl call.session_id call.stay_id db in
      if_ind (λ (r : Db × ToolResponse). IsLimited db r.0) (not (contains call.name tool_names))
        (λ stay request. omega arith)
        (λ stay request.
          subst
            (λ rows.
              count (is_tool_row stay request) (after_check tools now metadata call c).0.messages
              ≤ max tool_limit (count (is_tool_row stay request) rows))
            (validated-keeps now ttl call.session_id call.stay_id db).0
            (after_check-IsLimited c stay request))
