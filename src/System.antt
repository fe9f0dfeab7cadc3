-- ===== src/System.antt =====
-- The processes that share the database: every transaction that writes the chat is a step. The
-- steps of the requests of the page, of the worker and of the tools come in any order.
mod Invariant
mod Kept
pub mod Once
pub mod Safety
use local_voice_agent.Prelude.{ℕ, String, ◌≡◌, false, Option, some, nat_eq, string_eq, option_eq}
use local_voice_agent.Models.{Time, Uuid, is_user, Status, is_open, KioskMessage, Event, Db}
use local_voice_agent.Value.{Dict}
use local_voice_agent.Chat.Store.{create_message, audit}
use local_voice_agent.Chat.Enqueue.{enqueue_message}
use local_voice_agent.Chat.Reset.{reset}
use local_voice_agent.Tools.Runner.{ToolRunner}
use local_voice_agent.Realtime.Session.{open_session, close_session}
use local_voice_agent.Realtime.Message.{TranscriptItem, realtime_message}
use local_voice_agent.Realtime.Tool.{ToolCall, realtime_tool, finish}
use local_voice_agent.Agent.Task.{claim, settle}

-- `resetting` draws the id of the new stay. `finishing` is the end of a tool call of the Realtime
-- endpoint whose row may be gone by then. `saving` is the row of `_save_message`, any
-- time after its check, so it knows nothing of the current stay.
pub data Step (db : Db) : Db → Type 0 where
  enqueuing :
      (now : Time) (stale_seconds : ℕ) (fresh : Uuid) (content : String)
      → Step db (enqueue_message now stale_seconds fresh content db).0
  claiming : (stay request : Uuid) → Step db (claim stay request db)
  settling :
      (stay request : Uuid) (status : Status)
      → is_open status ≡ false
      → Step db (settle stay request status db)
  saving :
      (now : Time) (m row : KioskMessage) (after : Db)
      → is_user m.role ≡ false
      → create_message now m db ≡ some (row, after)
      → Step db after
  messaging :
      (now : Time) (ttl : ℕ) (metadata : Uuid → Dict) (item : TranscriptItem)
      → Step db (realtime_message now ttl metadata item db).0
  calling :
      (tools : ToolRunner) (now : Time) (ttl : ℕ) (metadata : Uuid → Dict) (call : ToolCall)
      → Step db (realtime_tool tools now ttl metadata call db).0
  finishing : (pk : ℕ) (content : String) → Step db (finish pk content db)
  running :
      (tools : ToolRunner) (name arguments : String) (stay request : Uuid)
      → Step db (tools.execute name arguments stay request db).1
  auditing :
      (stay : Uuid) (request : Option Uuid) (event : Event) (details : Dict)
      → Step db (audit stay request event details db)
  opening : (now : Time) (ttl : ℕ) (fresh : Uuid) → Step db (open_session now ttl fresh db).0
  closing : (session stay : Uuid) → Step db (close_session session stay db).0
  resetting : (fresh : Uuid) (details : ℕ → Uuid → Dict) → Step db (reset fresh details db).0

-- Any number of steps
pub data Reach (start : Db) : Db → Type 0 where
  here : Reach start start
  later : {db after : Db} → Reach start db → Step db after → Reach start after

pub Reach-trans : {a b c : Db} → Reach a b → Reach b c → Reach a c
Reach-trans r here = r
Reach-trans r (later t s) = later (Reach-trans r t) s
