-- ===== src/Staff/Forward.antt =====
-- kiosk_agent/tasks.py: `forward_staff_request_task`.
pub mod Delivery
use local_voice_agent.Prelude.{
  ℕ, ◌+◌, String, Bool, ◌&&◌, none, some, List, [], ◌∷◌, ltb, leb, if◌then◌else◌, ◌==◌, nat_eq,
  string_eq, option_eq, first, update, prefix, or_text,
}
use local_voice_agent.Value.{
  Value, str, dict, end, Dict, as_dict, truthy, get, Runtime, to_str_or_empty,
}
use local_voice_agent.Models.{DeliveryStatus, StaffRequest, Db}
use local_voice_agent.Staff.Saas.{ForwardResult, not_configured, forwarded, rejected, exception}

-- How a run of the task ends: it returns, or an exception makes Celery try it again.
pub data TaskEnd : Type 0 where
  finished : TaskEnd
  does_not_exist : TaskEnd
  retry : String → TaskEnd
  attribute_error : TaskEnd

-- The first of the keys whose value is true for Python, `""` if there is none
first_truthy : (String → Bool) → List String → Dict → Value
unfolding get
first_truthy real_is_zero [] d = str ""
first_truthy real_is_zero (k ∷ ks) d =
    let rest = first_truthy real_is_zero ks d in
    if truthy real_is_zero (get k d) then get k d else rest

abbrev reference_keys : List String
reference_keys = "id" ∷ "external_reference" ∷ "reference" ∷ "uuid" ∷ []

-- `result.get("response") or {}`
abbrev response_or_empty : (String → Bool) → Value → Value
response_or_empty real_is_zero v = if truthy real_is_zero v then v else dict end

-- The row after an attempt, as the branch of its result saves it
delivered_row : Runtime → StaffRequest → Dict → StaffRequest
unfolding first_truthy
delivered_row runtime r d = record r {
  delivery_attempts = r.delivery_attempts + 1;
  delivery_status = DeliveryStatus.delivered;
  external_reference =
      prefix 160 (to_str_or_empty runtime (first_truthy runtime.real_is_zero reference_keys d));
  last_error = "";
}

disabled_row : StaffRequest → StaffRequest
disabled_row r = record r {
  delivery_attempts = r.delivery_attempts + 1;
  delivery_status = DeliveryStatus.disabled;
  last_error = "";
}

failed_row : String → StaffRequest → StaffRequest
failed_row reason r = record r {
  delivery_attempts = r.delivery_attempts + 1;
  delivery_status = DeliveryStatus.failed;
  last_error = prefix 500 reason;
}

abbrev is_client_error : ℕ → Bool
is_client_error status = leb 400 status && ltb status 500

abbrev pub is_request_of : ℕ → StaffRequest → Bool
is_request_of pk r = r.pk == pk

-- `request.save(update_fields=…)`
unfoldable pub save_request : StaffRequest → Db → Db
save_request r db = record db {
  staff_requests = update (is_request_of r.pk) (λ _. r) db.staff_requests;
}

-- The branches on the result
deliver : Runtime → StaffRequest → ForwardResult → Db → TaskEnd × Db
unfolding delivered_row disabled_row failed_row save_request
deliver runtime r (forwarded status data_value) db =
    elim (as_dict (response_or_empty runtime.real_is_zero data_value)) [
      | none ↦ (attribute_error, db)
      | some d ↦ (finished, save_request (delivered_row runtime r d) db)
    ]
deliver runtime r not_configured db = (finished, save_request (disabled_row r) db)
deliver runtime r (rejected status error) db = (
  if is_client_error status then finished else retry (prefix 500 (or_text error "http_error")),
  save_request (failed_row (or_text error "http_error") r) db,
)
deliver runtime r (exception error) db = (
  retry (prefix 500 (or_text error "exception")),
  save_request (failed_row (or_text error "exception") r) db,
)

-- `forward_staff_request_task`
unfoldable pub forward_staff_request :
    Runtime → ℕ → (StaffRequest → ForwardResult) → Db → TaskEnd × Db
unfolding deliver
forward_staff_request runtime pk forward db = elim (first (is_request_of pk) db.staff_requests) [
  | none ↦ (does_not_exist, db)
  | some r ↦ deliver runtime r (forward r) db
]
