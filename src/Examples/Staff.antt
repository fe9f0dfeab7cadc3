-- ===== src/Examples/Staff.antt =====
-- A request to the staff that a service accepts with a body that is no object.
use local_voice_agent.Prelude.{◌≡◌, refl, [], ◌∷◌, nat_eq, string_eq, option_eq}
use local_voice_agent.Value.{str}
use local_voice_agent.Models.{DeliveryStatus, StaffRequest, Db}
use local_voice_agent.Staff.Saas.{ForwardResult, forwarded}
use local_voice_agent.Staff.Forward.{attribute_error, forward_staff_request}
use local_voice_agent.Staff.Forward.Delivery.{Outcome, forward_staff_request_outcome}
use local_voice_agent.Examples.Data.{db, runtime}

abbrev towels : StaffRequest
towels = record {
  pk = 3;
  stay_id = 1;
  request_id = 7;
  service = "housekeeping";
  details = "two towels";
  urgency = "normal";
  local_reference = "SR-000003";
  delivery_status = DeliveryStatus.queued;
  external_reference = "";
  delivery_attempts = 0;
  last_error = "";
}

abbrev staff_db : Db
staff_db = record db { staff_requests = towels ∷ [] }

abbrev accepts : StaffRequest → ForwardResult
accepts r = forwarded 201 (str "created")

forward_staff_request_outcome_example :
    Outcome runtime towels
      (accepts towels)
      staff_db
      (forward_staff_request runtime 3 accepts staff_db)
forward_staff_request_outcome_example =
    forward_staff_request_outcome runtime 3 accepts staff_db towels refl

-- The accepted request is not stored as delivered.
towels_uncaught : forward_staff_request runtime 3 accepts staff_db ≡ (attribute_error, staff_db)
unfolding forward_staff_request
towels_uncaught = refl
