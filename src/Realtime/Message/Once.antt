-- ===== src/Realtime/Message/Once.antt =====
-- A transcript event is stored at most once.
use local_voice_agent.Prelude.{
  ℕ, String, ◌≡◌, refl, ◌⊎◌, inl, inr, true, ◌&&◌, some, List, [], ◌∷◌, ◌++◌, arith, Bool-cases,
  ◌==◌, nat_eq, string_eq, option_eq, beq_refl, any, update, is_text,
}
use local_voice_agent.Value.{Dict}
use local_voice_agent.Models.{Time, Uuid, KioskMessage, Db}
use local_voice_agent.Channel.{Published}
use local_voice_agent.Chat.Store.{clashes}
use local_voice_agent.Realtime.Session.{
  Validated, valid, invalid, SessionError, validated_realtime_session,
}
use local_voice_agent.Realtime.Session.Check.{validated-keeps}
use local_voice_agent.Realtime.Message.{
  TranscriptItem, refused, duplicate, saved, transcript_row, save_item, after_check,
  realtime_message,
}

-- Some row of the stay carries the event.
abbrev pub IsKnown : Uuid → String → List KioskMessage → Type 0
IsKnown stay event rows = any (λ m. stay == m.stay_id && m.event_id == some event) rows ≡ true

clashes-IsKnown :
    (m : KioskMessage) (event : String) (rows : List KioskMessage)
    → m.event_id ≡ some event
    → IsKnown m.stay_id event rows
    → any (clashes m) rows ≡ true
clashes-IsKnown m event [] e k = k
clashes-IsKnown m event (x ∷ rows) e k = ground (arith, clashes-IsKnown m event rows e)

IsKnown-update :
    (stay : Uuid) (event : String) (pk : ℕ) (rows : List KioskMessage)
    → IsKnown stay event rows
    → IsKnown stay event (update (λ m. m.pk == pk) (λ m. record m { sequence = some pk }) rows)
IsKnown-update stay event pk [] k = k
IsKnown-update stay event pk (x ∷ rows) k = ground (arith, IsKnown-update stay event pk rows)

IsKnown-append :
    (m : KioskMessage) (event : String) (rows : List KioskMessage)
    → m.event_id ≡ some event
    → IsKnown m.stay_id event (rows ++ m ∷ [])
IsKnown-append m event [] e = ground (arith, beq_refl m.stay_id, beq_refl event)
IsKnown-append m event (x ∷ rows) e = ground (arith, IsKnown-append m event rows e)

save_item-IsKnown :
    (now : Time) (row : KioskMessage) (event : String) (db : Db) {pk : ℕ} {p : Published}
    → row.event_id ≡ some event
    → (save_item now row db).1 ≡ saved pk p
    → IsKnown row.stay_id event (save_item now row db).0.messages
unfolding save_item
save_item-IsKnown now row event db e h =
    let stored : KioskMessage = record row { pk = db.next_message; created_at = now } in
    elim (Bool-cases (any (clashes row) db.messages)) [
      | inl c ↦ absurd (ground arith)
      | inr c ↦
          rw (c, save_item)
            (IsKnown-update row.stay_id event db.next_message (db.messages ++ stored ∷ [])
              (IsKnown-append stored event db.messages e))
    ]

IsKnown-save_item :
    (now : Time) (row : KioskMessage) (event : String) (db : Db)
    → row.event_id ≡ some event
    → IsKnown row.stay_id event db.messages
    → save_item now row db ≡ (db, duplicate)
unfolding save_item
IsKnown-save_item now row event db e k = rw (clashes-IsKnown row event db.messages e k, save_item)

module _ (metadata : Uuid → Dict) (item : TranscriptItem)
    (has_event : is_text item.event_id ≡ true) where
  after_check-IsKnown :
      (now : Time) (c : Db × Validated) {pk : ℕ} {p : Published}
      → (after_check now metadata item c).1 ≡ saved pk p
      → IsKnown item.stay_id item.event_id (after_check now metadata item c).0.messages
  unfolding after_check
  after_check-IsKnown now (db, invalid error) h = absurd (cc)
  after_check-IsKnown now (db, valid session) h =
      save_item-IsKnown now (transcript_row metadata item session) item.event_id db (ground arith) h

  IsKnown-after_check :
      (now : Time) (c : Db × Validated)
      → IsKnown item.stay_id item.event_id c.0.messages
      → ((after_check now metadata item c).0 ≡ c.0)
        × (((after_check now metadata item c).1 ≡ duplicate)
            ⊎ ((error : SessionError) × ((after_check now metadata item c).1 ≡ refused error)))
  unfolding after_check
  IsKnown-after_check now (db, invalid error) k = (refl, inr (error, refl))
  IsKnown-after_check now (db, valid session) k =
      rw
        (IsKnown-save_item now (transcript_row metadata item session) item.event_id db
          (ground arith) k)
        (refl, inl refl)

  pub realtime_message-IsKnown :
      (now : Time) (ttl : ℕ) (db : Db) {pk : ℕ} {p : Published}
      → (realtime_message now ttl metadata item db).1 ≡ saved pk p
      → IsKnown item.stay_id item.event_id (realtime_message now ttl metadata item db).0.messages
  unfolding realtime_message
  realtime_message-IsKnown now ttl db h =
      after_check-IsKnown now (validated_realtime_session now ttl item.session_id item.stay_id db) h

  pub IsKnown-realtime_message :
      (now : Time) (ttl : ℕ) (db : Db)
      → IsKnown item.stay_id item.event_id db.messages
      → ((realtime_message now ttl metadata item db).0
          ≡ (validated_realtime_session now ttl item.session_id item.stay_id db).0)
        × (((realtime_message now ttl metadata item db).1 ≡ duplicate)
            ⊎ ((error : SessionError) × ((realtime_message now ttl metadata item db).1
                  ≡ refused error)))
  unfolding realtime_message
  IsKnown-realtime_message now ttl db known =
      IsKnown-after_check now (validated_realtime_session now ttl item.session_id item.stay_id db)
        (rw ((validated-keeps now ttl item.session_id item.stay_id db).0) known)
