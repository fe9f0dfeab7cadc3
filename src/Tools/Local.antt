-- ===== src/Tools/Local.antt =====
-- kiosk_agent/core/tools.py: the tools that send nothing to a device.
use local_voice_agent.Prelude.{
  ℕ, ◌+◌, String, Bool, true, not, ◌||◌, some, [], ◌∷◌, ◌++◌, if◌then◌else◌, ◌==◌, nat_eq,
  string_eq, option_eq, contains, select, update, is_text, concat,
}
use local_voice_agent.Prelude.{has_text}
use local_voice_agent.Value.{Value, bool, str, dict, end, Dict, fields, Runtime, to_str}
use local_voice_agent.Models.{Uuid, Event, DeliveryStatus, StaffRequest, Db}
use local_voice_agent.Chat.Store.{audit}
use local_voice_agent.Tools.Decimal.{padded}
use local_voice_agent.Tools.Reply.{HandlerRun, quiet, stay_matches, is_empty, refusal}

-- `topic in str(key).casefold() or topic in str(value).casefold()`
abbrev is_about : Runtime → String → String × Value → Bool
is_about runtime topic (k, v) =
    has_text topic (runtime.casefold k) || has_text topic (runtime.casefold (to_str runtime v))

-- `_property_information`
unfoldable pub property_information : Runtime → String → Uuid → Db → Dict
unfolding has_text
property_information runtime topic stay db =
    if not (stay_matches stay db)
    then refusal "found" "stay_expired" ++ ("facts", dict end) ∷ []
    else let matches =
        select (is_about runtime (runtime.casefold topic)) db.config.property_facts in
      ("found", bool (not (is_empty matches)))
      ∷ ("topic", str topic)
      ∷ ("facts", dict (fields matches))
      ∷ []

-- `_emergency_contact`
unfoldable pub emergency_contact_of : Uuid → Db → Dict
emergency_contact_of stay db =
    if not (stay_matches stay db)
    then refusal "configured" "stay_expired" ++ ("contact", str "") ∷ []
    else ("configured", bool (is_text db.config.emergency_contact))
      ∷ ("contact", str db.config.emergency_contact)
      ∷ []

-- `f"SR-{pk:06d}"`
unfoldable pub reference_of : ℕ → String
unfolding concat padded
reference_of pk = concat "SR-" (padded pk)

abbrev pub new_request : Uuid → Uuid → String → String → String → Db → StaffRequest
new_request stay request service details urgency db = record {
  pk = db.next_staff_request;
  stay_id = stay;
  request_id = request;
  service = service;
  details = details;
  urgency = urgency;
  local_reference = reference_of db.next_staff_request;
  delivery_status = DeliveryStatus.queued;
  external_reference = "";
  delivery_attempts = 0;
  last_error = "";
}

abbrev called_details : String → StaffRequest → Dict
called_details chalet_number r =
    ("tool", str "request_property_staff")
    ∷ ("chalet_number", str chalet_number)
    ∷ ("reference", str r.local_reference)
    ∷ ("service", str r.service)
    ∷ ("details", str r.details)
    ∷ ("urgency", str r.urgency)
    ∷ []

-- The transaction: the row and its audit
unfoldable pub add_request : StaffRequest → Db → Db
add_request r db =
    audit r.stay_id (some r.request_id) Event.tool_called (called_details db.config.chalet_number r)
      (record db {
        staff_requests = db.staff_requests ++ r ∷ [];
        next_staff_request = db.next_staff_request + 1;
      })

abbrev pub unqueued : StaffRequest → StaffRequest
unqueued r = record r {
  delivery_status = DeliveryStatus.failed;
  last_error = "delivery_queue_unavailable";
}

-- `enqueue_forwarding`, which runs when the transaction is committed
unfoldable pub enqueue_forwarding : (ℕ → Bool) → ℕ → Db → Db
enqueue_forwarding queue_accepts pk db = if queue_accepts pk then db else record db {
  staff_requests = update (λ (r : StaffRequest). r.pk == pk) unqueued db.staff_requests;
}

-- The caller's copy of the row still says `queued` where the queue refused it.
abbrev accepted : StaffRequest → Dict
accepted r =
    ("accepted", bool true)
    ∷ ("reference", str r.local_reference)
    ∷ ("urgency", str r.urgency)
    ∷ ("delivery_status", str "queued")
    ∷ []

-- `_staff_request_local`
unfoldable pub staff_request_local :
    (ℕ → Bool) → (service details urgency : String) → (stay request : Uuid) → Db → HandlerRun
unfolding reference_of add_request enqueue_forwarding
staff_request_local queue_accepts service details urgency stay request db =
    if not (stay_matches stay db)
    then quiet (refusal "accepted" "stay_expired") db
    else if not (is_empty db.config.enabled_services || contains service db.config.enabled_services)
    then quiet (refusal "accepted" "service_not_enabled") db
    else let r = new_request stay request service details urgency db in
      quiet (accepted r) (enqueue_forwarding queue_accepts r.pk (add_request r db))
