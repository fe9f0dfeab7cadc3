-- ===== src/Realtime/Message/Kept.antt =====
-- A transcript item loses no row of the chat.
use local_voice_agent.Prelude.{
  ℕ, refl, ◌∙◌, inl, inr, some, [], ◌∷◌, ◌++◌, Bool-cases, ◌==◌, nat_eq, string_eq, option_eq, any,
}
use local_voice_agent.Models.{Time, Uuid, KioskMessage, Db}
use local_voice_agent.Value.{Dict}
use local_voice_agent.Chat.Store.{clashes}
use local_voice_agent.Chat.Kept.{Keys, HasRow, any-update, any-append}
use local_voice_agent.Realtime.Session.{Validated, valid, invalid, validated_realtime_session}
use local_voice_agent.Realtime.Session.Check.{validated-keeps}
use local_voice_agent.Realtime.Message.{
  TranscriptItem, transcript_row, save_item, after_check, realtime_message,
}

module _ (q : Keys) where
  save_item-HasRow :
      (now : Time) (row : KioskMessage) (db : Db) → HasRow q db → HasRow q (save_item now row db).0
  unfolding save_item
  save_item-HasRow now row db k =
      let stored : KioskMessage = record row { pk = db.next_message; created_at = now } in
      elim (Bool-cases (any (clashes row) db.messages)) [
        | inl c ↦ rw (c, save_item) k
        | inr c ↦
            rw (c, save_item)
              (any-update q (λ m. m.pk == db.next_message)
                  (λ m. record m { sequence = some db.next_message }) (db.messages ++ stored ∷ [])
                  (λ m. refl)
                ∙ any-append q db.messages (stored ∷ []) k)
      ]

  message_check-HasRow :
      (now : Time) (metadata : Uuid → Dict) (item : TranscriptItem) (c : Db × Validated)
      → HasRow q c.0
      → HasRow q (after_check now metadata item c).0
  unfolding after_check
  message_check-HasRow now metadata item (db, invalid error) k = k
  message_check-HasRow now metadata item (db, valid session) k =
      save_item-HasRow now (transcript_row metadata item session) db k

  pub realtime_message-HasRow :
      (now : Time) (ttl : ℕ) (metadata : Uuid → Dict) (item : TranscriptItem) (db : Db)
      → HasRow q db
      → HasRow q (realtime_message now ttl metadata item db).0
  unfolding realtime_message
  realtime_message-HasRow now ttl metadata item db k =
      message_check-HasRow now metadata item
        (validated_realtime_session now ttl item.session_id item.stay_id db)
        (rw ((validated-keeps now ttl item.session_id item.stay_id db).0) k)
