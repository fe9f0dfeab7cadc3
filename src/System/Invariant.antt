-- ===== src/System/Invariant.antt =====
-- Every step keeps the chat in order.
use local_voice_agent.Prelude.{
  ◌≡◌, refl, inl, inr, false, some, ◌&&◌, arith, Bool-cases, ◌==◌, nat_eq, string_eq, option_eq,
  any,
}
use local_voice_agent.Models.{Time, is_user, Status, is_queued, KioskMessage, Db}
use local_voice_agent.Chat.Store.{clashes, create_message}
use local_voice_agent.Chat.Reset.{reset}
use local_voice_agent.Chat.Sound.{
  Sound, Sound-same, Sound-append, Sound-update, enqueue_message-Sound, reset-Sound,
}
use local_voice_agent.Realtime.Session.{open_session, close_session}
use local_voice_agent.Realtime.Message.Sound.{realtime_message-Sound}
use local_voice_agent.Realtime.Tool.{finish_row}
use local_voice_agent.Realtime.Tool.Sound.{realtime_tool-Sound}
use local_voice_agent.Agent.Task.{is_request, is_open_request, set_status, claim, settle}
use local_voice_agent.System.{
  Step, enqueuing, claiming, settling, saving, messaging, calling, finishing, running, auditing,
  opening, closing, resetting,
}

create_message-Sound :
    (now : Time) (m row : KioskMessage) (db after : Db)
    → is_user m.role ≡ false
    → create_message now m db ≡ some (row, after)
    → Sound db
    → Sound after
unfolding create_message
create_message-Sound now m row db after u h s = elim (Bool-cases (any (clashes m) db.messages)) [
  | inl k ↦ absurd (ground arith)
  | inr k ↦
      Sound-append (record m { pk = db.next_message; created_at = now }) db after (ground arith)
        (ground arith) (ground arith) (ground arith) s
]

pub Step-Sound : {db after : Db} → Step db after → Sound db → Sound after
unfolding claim settle reset open_session close_session
Step-Sound {db} (enqueuing now stale_seconds fresh content) s =
    enqueue_message-Sound now stale_seconds fresh content db s
Step-Sound {db} (claiming stay request) s =
    Sound-update (λ m. is_request stay request m && is_queued m.status)
      (set_status Status.streaming) db (λ m. refl) (λ m p q. ground arith) s
Step-Sound {db} (settling stay request status closed) s =
    Sound-update (is_open_request stay request) (set_status status) db (λ m. refl)
      (λ m p q. ground arith) s
Step-Sound {db} (saving now m row after u h) s = create_message-Sound now m row db after u h s
Step-Sound {db} (messaging now ttl metadata item) s =
    realtime_message-Sound now ttl metadata item db s
Step-Sound {db} (calling tools now ttl metadata call) s =
    realtime_tool-Sound tools metadata call now ttl db s
Step-Sound {db} (finishing pk content) s =
    Sound-update (λ m. m.pk == pk) (finish_row content) db (λ m. refl) (λ m p q. ground arith) s
Step-Sound {db} (running tools name arguments stay request) s =
    Sound-same db _ (tools.messages-execute name arguments stay request db)
      (tools.config-execute name arguments stay request db) s
Step-Sound {db} (auditing stay request event details) s = Sound-same db _ refl refl s
Step-Sound {db} (opening now ttl fresh) s = Sound-same db _ refl refl s
Step-Sound {db} (closing session stay) s = Sound-same db _ refl refl s
Step-Sound {db} (resetting fresh details) s = reset-Sound fresh details db s
