-- ===== src/Staff/Forward/Delivery.antt =====
-- What a delivery leaves behind.
use local_voice_agent.Prelude.{
  ℕ, ◌+◌, ◌≤◌, ◌<◌, max, String, ◌≡◌, refl, ◌⊎◌, inl, inr, true, none, some, arith, leb,
  if◌then◌else◌, Bool-cases, Option-cases, nat_eq, string_eq, option_eq, first, len, prefix,
  len-prefix-le, or_text,
}
use local_voice_agent.Value.{items, end, Value, Dict, as_dict, truthy, Runtime, to_str_or_empty}
use local_voice_agent.Models.{DeliveryStatus, StaffRequest, Db}
use local_voice_agent.Staff.Saas.{ForwardResult, not_configured, forwarded, rejected, exception}
use local_voice_agent.Staff.Forward.{
  TaskEnd, finished, retry, attribute_error, is_request_of, save_request, is_client_error,
  first_truthy, reference_keys, delivered_row, disabled_row, failed_row, deliver,
  forward_staff_request,
}

-- How the run ends and what the row says, by what the service made of the request
abbrev pub Ends : ForwardResult → TaskEnd → StaffRequest → Type 0
Ends not_configured how row =
    (how ≡ finished) × (row.delivery_status ≡ DeliveryStatus.disabled) × (row.last_error ≡ "")
Ends (forwarded status body) how row =
    (how ≡ finished) × (row.delivery_status ≡ DeliveryStatus.delivered) × (row.last_error ≡ "")
Ends (rejected status error) how row =
    (row.delivery_status ≡ DeliveryStatus.failed)
    × (((400 ≤ status) × (status < 500) × (how ≡ finished))
        ⊎ (((status < 400) ⊎ (500 ≤ status)) × (how ≡ retry row.last_error)))
Ends (exception error) how row =
    (row.delivery_status ≡ DeliveryStatus.failed) × (how ≡ retry row.last_error)

-- The row that a run of the task saves, by how the run ends
pub record Attempted (r : StaffRequest) (result : ForwardResult) (how : TaskEnd)
    (row : StaffRequest) : Type 0 where
  pub counted : row.delivery_attempts ≡ r.delivery_attempts + 1
  pub same :
      (row.pk ≡ r.pk)
      × (row.stay_id ≡ r.stay_id)
      × (row.request_id ≡ r.request_id)
      × (row.service ≡ r.service)
      × (row.details ≡ r.details)
      × (row.urgency ≡ r.urgency)
  pub error_fits : len row.last_error ≤ 500
  pub reference_fits : len row.external_reference ≤ max 160 (len r.external_reference)
  pub ended : Ends result how row

module _ (runtime : Runtime) (r : StaffRequest) where
  delivered-Attempted :
      (status : ℕ) (body : Value) (d : Dict)
      → Attempted r (forwarded status body) finished (delivered_row runtime r d)
  unfolding delivered_row
  delivered-Attempted status body d =
      let fits =
        len-prefix-le 160
          (to_str_or_empty runtime (first_truthy runtime.real_is_zero reference_keys d)) in
      record {
        counted = refl;
        same = (refl, refl, refl, refl, refl, refl);
        error_fits = omega arith;
        reference_fits = omega (arith, fits);
        ended = (refl, refl, refl);
      }

  disabled-Attempted : Attempted r not_configured finished (disabled_row r)
  unfolding disabled_row
  disabled-Attempted = record {
    counted = refl;
    same = (refl, refl, refl, refl, refl, refl);
    error_fits = omega arith;
    reference_fits = omega arith;
    ended = (refl, refl, refl);
  }

  failed-Attempted :
      (result : ForwardResult) (reason : String) (how : TaskEnd)
      → Ends result how (failed_row reason r)
      → Attempted r result how (failed_row reason r)
  unfolding failed_row
  failed-Attempted result reason how e = record {
    counted = refl;
    same = (refl, refl, refl, refl, refl, refl);
    error_fits = len-prefix-le 500 reason;
    reference_fits = omega arith;
    ended = e;
  }

  -- The one way that a run ends in an AttributeError
  abbrev pub IsUncaught : ForwardResult → Type 0
  IsUncaught result =
      (status : ℕ) × (body : Value) × (result ≡ forwarded status body)
      × (truthy runtime.real_is_zero body ≡ true)
      × (as_dict body ≡ none)

  -- How an attempt ends: an exception that saves nothing, or the saved row
  abbrev pub Outcome : ForwardResult → Db → TaskEnd × Db → Type 0
  Outcome result db (how, after) =
      (IsUncaught result × (how ≡ attribute_error) × (after ≡ db))
      ⊎ ((row : StaffRequest) × (after ≡ save_request row db) × Attempted r result how row)

  rejected-Ends :
      (status : ℕ) (error reason : String)
      → Ends
          (rejected status error)
          (if is_client_error status then finished else retry (prefix 500 reason))
          (failed_row reason r)
  unfolding failed_row
  rejected-Ends status error reason = elim (Bool-cases (is_client_error status)) [
    | inl c ↦ rw c (refl, inl (ground arith, ground arith, refl))
    | inr c ↦ rw c (
      refl,
      inr (
        elim (Bool-cases (leb 400 status)) [
          | inl l ↦ inr (ground arith)
          | inr l ↦ inl (ground arith)
        ],
        refl,
      ),
    )
  ]

  forwarded-Outcome :
      (status : ℕ) (body : Value) (db : Db)
      → Outcome (forwarded status body) db (deliver runtime r (forwarded status body) db)
  unfolding deliver
  forwarded-Outcome status body db = elim (Bool-cases (truthy runtime.real_is_zero body)) [
    | inr t ↦ rw (deliver, t) (inr (_, refl, delivered-Attempted status body (items end)))
    | inl t ↦ elim (Option-cases (as_dict body)) [
      | inl e ↦ rw (deliver, t, e) (inl ((status, body, refl, t, e), refl, refl))
      | inr (d, e) ↦ rw (deliver, t, e) (inr (_, refl, delivered-Attempted status body d))
    ]
  ]

  deliver-Outcome :
      (result : ForwardResult) (db : Db) → Outcome result db (deliver runtime r result db)
  unfolding deliver failed_row
  deliver-Outcome not_configured db = inr (disabled_row r, refl, disabled-Attempted)
  deliver-Outcome (exception error) db =
      inr (_, refl, failed-Attempted (exception error) (or_text error "exception") _ (refl, refl))
  deliver-Outcome (rejected status error) db = inr (
    _,
    refl,
    failed-Attempted (rejected status error) (or_text error "http_error") _
        (rejected-Ends status error (or_text error "http_error")),
  )
  deliver-Outcome (forwarded status body) db = forwarded-Outcome status body db

-- An attempt to deliver a stored request counts itself, keeps the stay, the request, the service,
-- the details and the urgency, and fits its error in 500 characters and its reference in 160 (or
-- leaves it). It ends delivered if the service accepted the request, disabled if it is not
-- configured, failed and finished if its answer was a 4xx, and failed and tried again with the stored
-- error for any other answer or an exception. The one other end is an AttributeError that saves
-- nothing, where the service accepted the request with a JSON body that is true for Python and no
-- object.
pub forward_staff_request_outcome :
    (runtime : Runtime) (pk : ℕ) (forward : StaffRequest → ForwardResult) (db : Db)
    (r : StaffRequest)
    → first (is_request_of pk) db.staff_requests ≡ some r
    → Outcome runtime r (forward r) db (forward_staff_request runtime pk forward db)
unfolding forward_staff_request
forward_staff_request_outcome runtime pk forward db r h =
    rw (h, forward_staff_request) (deliver-Outcome runtime r (forward r) db)
