-- ===== src/Tools/Execute/Kept.antt =====
-- What a tool may write.
use local_voice_agent.Prelude.{
  ℕ, ◌≡◌, refl, ap, ◌∙◌, ◌⊎◌, inl, inr, Option, List, [], ◌∷◌, ◌++◌, nat_eq, string_eq, option_eq,
}
use local_voice_agent.Value.{Dict}
use local_voice_agent.Models.{Uuid, Event, KioskAuditLog, StaffRequest, AcState, Db}
use local_voice_agent.Chat.Store.{audit}

-- The tables that no tool writes, and the audit log
pub record Same (before after : Db) : Type 0 where
  pub messages : after.messages ≡ before.messages
  pub next_message : after.next_message ≡ before.next_message
  pub sessions : after.sessions ≡ before.sessions
  pub config : after.config ≡ before.config
  pub remotes : after.remotes ≡ before.remotes
  pub buttons : after.buttons ≡ before.buttons
  pub audits : after.audits ≡ before.audits

-- The same, with at most one audit row more, which is of the stay
pub record Kept (stay : Uuid) (before after : Db) : Type 0 where
  pub messages : after.messages ≡ before.messages
  pub next_message : after.next_message ≡ before.next_message
  pub sessions : after.sessions ≡ before.sessions
  pub config : after.config ≡ before.config
  pub remotes : after.remotes ≡ before.remotes
  pub buttons : after.buttons ≡ before.buttons
  pub audits :
      (after.audits ≡ before.audits)
      ⊎ ((row : KioskAuditLog) × (row.stay_id ≡ stay) × (after.audits ≡ before.audits ++ row ∷ []))

pub Same-refl : (db : Db) → Same db db
Same-refl db = record {
  messages = refl;
  next_message = refl;
  sessions = refl;
  config = refl;
  remotes = refl;
  buttons = refl;
  audits = refl;
}

pub Same-trans : (a b c : Db) → Same a b → Same b c → Same a c
Same-trans a b c s t = record {
  messages = t.messages ∙ s.messages;
  next_message = t.next_message ∙ s.next_message;
  sessions = t.sessions ∙ s.sessions;
  config = t.config ∙ s.config;
  remotes = t.remotes ∙ s.remotes;
  buttons = t.buttons ∙ s.buttons;
  audits = t.audits ∙ s.audits;
}

-- The states of the air conditioners and the requests to the staff are free.
pub Same-tables :
    (db : Db) (requests : List StaffRequest) (next : ℕ) (states : List AcState)
    → Same db
        (record db { staff_requests = requests; next_staff_request = next; ac_states = states })
Same-tables db requests next states = record {
  messages = refl;
  next_message = refl;
  sessions = refl;
  config = refl;
  remotes = refl;
  buttons = refl;
  audits = refl;
}

module _ (stay : Uuid) where
  pub Kept-Same : (a b : Db) → Same a b → Kept stay a b
  Kept-Same a b s = record {
    messages = s.messages;
    next_message = s.next_message;
    sessions = s.sessions;
    config = s.config;
    remotes = s.remotes;
    buttons = s.buttons;
    audits = inl s.audits;
  }

  pub Kept-audit :
      (request : Option Uuid) (event : Event) (details : Dict) (a b : Db)
      → Same a b
      → Kept stay a (audit stay request event details b)
  Kept-audit request event details a b s =
      let row : KioskAuditLog = record {
        stay_id = stay;
        request_id = request;
        event = event;
        details = details;
      } in
      record {
        messages = s.messages;
        next_message = s.next_message;
        sessions = s.sessions;
        config = s.config;
        remotes = s.remotes;
        buttons = s.buttons;
        audits = inr (row, refl, ap (λ rows. rows ++ row ∷ []) s.audits);
      }

  pub Kept-refl : (db : Db) → Kept stay db db
  Kept-refl db = Kept-Same db db (Same-refl db)
