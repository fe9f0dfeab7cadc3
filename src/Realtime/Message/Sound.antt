-- ===== src/Realtime/Message/Sound.antt =====
-- A transcript item keeps the chat in order.
use local_voice_agent.Prelude.{
  ℕ, ◌+◌, ◌≡◌, refl, sym, ap, ◌∙◌, inl, inr, false, some, [], ◌∷◌, ◌++◌, arith, Bool-cases, ◌==◌,
  nat_eq, string_eq, option_eq, beq_refl, any,
}
use local_voice_agent.Models.{Time, Uuid, ChaletConfig, is_open, KioskMessage, RealtimeSession, Db}
use local_voice_agent.Value.{Dict}
use local_voice_agent.Chat.Store.{clashes}
use local_voice_agent.Chat.Sound.{IsProper, Sound, Sound-same, Sound-append, Sound-update}
use local_voice_agent.Realtime.Session.{Validated, valid, invalid, validated_realtime_session}
use local_voice_agent.Realtime.Session.Check.{validated-keeps, validated-current}
use local_voice_agent.Realtime.Message.{
  TranscriptItem, transcript_row, save_item, after_check, realtime_message,
}

save_item-Sound :
    (now : Time) (row : KioskMessage) (db : Db)
    → IsProper db.config.current_stay_id row
    → is_open row.status ≡ false
    → Sound db
    → Sound (save_item now row db).0
unfolding save_item
save_item-Sound now row db o p s =
    let stored : KioskMessage = record row { pk = db.next_message; created_at = now } in
    let grown : Db = record db {
      messages = db.messages ++ stored ∷ [];
      next_message = db.next_message + 1;
    } in
    elim (Bool-cases (any (clashes row) db.messages)) [
      | inl c ↦ rw (c, save_item) s
      | inr c ↦
          rw (c, save_item)
            (Sound-update (λ m. m.pk == db.next_message)
              (λ m. record m { sequence = some db.next_message }) grown (λ m. refl) (λ m e q. q)
              (Sound-append stored db grown o (ground arith) refl refl s))
    ]

module _ (now : Time) (ttl : ℕ) (metadata : Uuid → Dict) (item : TranscriptItem) where
  after_check-Sound :
      (c : Db × Validated)
      → ((s : RealtimeSession) → c.1 ≡ valid s → item.stay_id ≡ c.0.config.current_stay_id)
      → Sound c.0
      → Sound (after_check now metadata item c).0
  unfolding after_check
  after_check-Sound (db, invalid error) o s = s
  after_check-Sound (db, valid session) o s =
      save_item-Sound now (transcript_row metadata item session) db (proper (o session refl)) refl s
    where
      proper :
          item.stay_id ≡ db.config.current_stay_id
          → IsProper db.config.current_stay_id (transcript_row metadata item session)
      proper e = rw e (ground (arith, beq_refl db.config.current_stay_id))

  pub realtime_message-Sound :
      (db : Db) → Sound db → Sound (realtime_message now ttl metadata item db).0
  unfolding realtime_message
  realtime_message-Sound db s =
      let c = validated_realtime_session now ttl item.session_id item.stay_id db in
      let (m, n, k, a) = validated-keeps now ttl item.session_id item.stay_id db in
      after_check-Sound c
        (λ t e.
          validated-current now ttl item.session_id item.stay_id db t e
          ∙ ap (λ (x : ChaletConfig). x.current_stay_id) (sym k))
        (Sound-same db c.0 m k s)
