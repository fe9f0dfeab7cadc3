-- ===== src/Examples/Chat.antt =====
-- kiosk_agent/services.py and `ResetView` on the sample stay.
use local_voice_agent.Prelude.{
  ◌≡◌, refl, [], arith, ◌==◌, nat_eq, string_eq, option_eq, select, count,
}
use local_voice_agent.Models.{KioskMessage}
use local_voice_agent.Chat.Enqueue.{
  ConciergeTask, busy, accepted, enqueue_message, completed_request_ids, completed_audit_ids,
}
use local_voice_agent.Chat.Enqueue.Admission.{enqueue_message_admission, enqueue_message_unblocked}
use local_voice_agent.Chat.Reset.{reset}
use local_voice_agent.Chat.Reset.Ends.{reset_ends_stay}
use local_voice_agent.Realtime.Session.{invalid, invalid_session, validated_realtime_session}
use local_voice_agent.Examples.Data.{db}

abbrev task : ConciergeTask
task = record { stay_id = 1; request_id = 8 }

enqueue_busy : (enqueue_message 100 180 8 "again" db).1 ≡ busy
unfolding enqueue_message completed_request_ids completed_audit_ids
enqueue_busy = refl

enqueue_later : (enqueue_message 200 180 8 "again" db).1 ≡ accepted task
unfolding enqueue_message completed_request_ids completed_audit_ids
enqueue_later = refl

enqueue_message_admission_example : (enqueue_message 100 180 8 "again" db) ≡ (db, busy)
unfolding completed_request_ids completed_audit_ids
enqueue_message_admission_example = enqueue_message_admission 100 180 8 "again" db

enqueue_message_unblocked_example : (enqueue_message 200 180 8 "again" db).1 ≡ accepted task
enqueue_message_unblocked_example = enqueue_message_unblocked 200 180 8 "again" db refl

reset_ends_stay_example :
    (count (λ (m : KioskMessage). m.stay_id == 1) (reset 2 (λ n fresh. []) db).0.messages ≡ 0)
    × (validated_realtime_session 20 900 50 1 (reset 2 (λ n fresh. []) db).0
        ≡ ((reset 2 (λ n fresh. []) db).0, invalid invalid_session))
    × (select (λ m. m.stay_id == 3) (reset 2 (λ n fresh. []) db).0.messages
        ≡ select (λ m. m.stay_id == 3) db.messages)
reset_ends_stay_example = reset_ends_stay 2 (λ n fresh. []) db 20 900 50 3 (omega arith)
