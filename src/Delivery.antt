-- ===== src/Delivery.antt =====
-- app/model_delivery.py: what a caller is told about the delivery of a call. The identifiers that the
-- reply repeats are left out.
mod Tests
use opsark_admin.Common.{
  ℕ, ◌≡◌, Bool, true, false, ◌&&◌, ◌||◌, not, Option, none, some, ◌==◌, if◌then◌else◌, arith, refl,
  ◌⊎◌, inl, inr, Bool-cases,
}
use opsark_admin.Models.{
  ModelReservation, ReservationState, released, ModelCall, CallStatus, succeeded, failed, CallError,
  upstream_schema_invalid, upstream_schema_unsupported, upstream_http_error,
  upstream_connect_failed, upstream_connect_timeout, upstream_write_failed, upstream_timeout,
  upstream_read_failed, upstream_response_invalid, gateway_busy,
}

pub data Certainty : Type 0 where
  not_dispatched response_received may_have_dispatched : Certainty

pub data Stage : Type 0 where
  request_schema request_capability upstream_http upstream_connect upstream_write : Stage
  upstream_timed_out response_read response_envelope gateway_admission : Stage
  response_status delivery_status request_deduplication : Stage

-- ERROR_STAGES
abbrev pub error_stage : Option CallError → Option Stage
error_stage (some upstream_schema_invalid) = some request_schema
error_stage (some upstream_schema_unsupported) = some request_capability
error_stage (some upstream_http_error) = some upstream_http
error_stage (some upstream_connect_failed) = some upstream_connect
error_stage (some upstream_connect_timeout) = some upstream_connect
error_stage (some upstream_write_failed) = some upstream_write
error_stage (some upstream_timeout) = some upstream_timed_out
error_stage (some upstream_read_failed) = some response_read
error_stage (some upstream_response_invalid) = some response_envelope
error_stage (some gateway_busy) = some gateway_admission
error_stage _ = none

-- NOT_DISPATCHED
abbrev pub never_dispatched : Option CallError → Bool
never_dispatched (some gateway_busy) = true
never_dispatched (some upstream_connect_failed) = true
never_dispatched (some upstream_connect_timeout) = true
never_dispatched _ = false

pub record DeliveryMetadata : Type 0 where
  pub from_upstream : Bool
  pub stage : Stage
  pub certainty : Certainty
  pub gateway_status : Option ℕ
  pub provider_status : Option ℕ

abbrev pub is_there : Option ℕ → Bool
is_there none = false
is_there (some n) = true

unfoldable pub certainty_of : ModelCall → Option Certainty → Certainty
certainty_of call (some certainty) = certainty
certainty_of call none =
    if never_dispatched call.error_code
    then not_dispatched
    else if is_there call.http_status
    then response_received
    else may_have_dispatched

abbrev pub was_dispatched : Certainty → Bool
was_dispatched not_dispatched = false
was_dispatched _ = true

unfoldable pub provider_status_of : ModelCall → Certainty → Option ℕ → Option ℕ
provider_status_of call certainty (some status) = some status
provider_status_of call certainty none = if was_dispatched certainty then call.http_status else none

-- `provider_status if provider_status in {400, 422, 429} else 502`
abbrev pub relayed : Option ℕ → ℕ
relayed none = 502
relayed (some status) = if status == 400 || (status == 422 || status == 429) then status else 502

abbrev pub is_stage : Option Stage → Bool
is_stage none = false
is_stage (some s) = true

unfoldable pub gateway_status_of : ModelCall → Option ℕ → Option ℕ → Option ℕ
gateway_status_of call provider_status (some status) = some status
gateway_status_of call provider_status none = elim call.status [
  | succeeded ↦ provider_status
  | failed ↦ if is_stage (error_stage call.error_code) then some (relayed provider_status) else none
  | _ ↦ none
]

abbrev pub is_response : Certainty → Bool
is_response response_received = true
is_response _ = false

abbrev pub stage_of : ModelCall → Stage
stage_of call = elim (error_stage call.error_code) [
  | some stage ↦ stage
  | none ↦ elim call.status [ succeeded ↦ response_status | _ ↦ delivery_status ]
]

-- The keyword arguments are the gateway's status, the certainty and the provider's status.
unfoldable pub delivery_metadata :
    ModelCall → Option ℕ → Option Certainty → Option ℕ → DeliveryMetadata
delivery_metadata call gateway_status certainty provider_status =
    let sure = certainty_of call certainty in
    let provider = provider_status_of call sure provider_status in
    record {
      from_upstream = is_response sure;
      stage = stage_of call;
      certainty = sure;
      gateway_status = gateway_status_of call provider gateway_status;
      provider_status = provider;
    }

abbrev pub is_released : ReservationState → Bool
is_released released = true
is_released _ = false

unfoldable pub request_status : ModelReservation → ModelCall → DeliveryMetadata
request_status reservation call =
    if is_released reservation.state
    then delivery_metadata call call.http_status (some not_dispatched) none
    else delivery_metadata call none none none

-- The details of the refusal of a repeated request (`reject_duplicate_request` of app/credits.py),
-- where the call may be missing.
unfoldable pub duplicate_details : ModelReservation → Option ModelCall → DeliveryMetadata
duplicate_details reservation none = record {
  from_upstream = false;
  stage = request_deduplication;
  certainty = may_have_dispatched;
  gateway_status = some 409;
  provider_status = none;
}
duplicate_details reservation (some call) = record (request_status reservation call) {
  from_upstream = false;
  stage = request_deduplication;
  gateway_status = some 409;
}

status_shown :
    (call : ModelCall) (certainty : Option Certainty) (gateway_status : Option ℕ)
    → (certainty ≡ none) ⊎ (certainty ≡ some not_dispatched)
    → is_there (delivery_metadata call gateway_status certainty none).provider_status
      ≡ (delivery_metadata call gateway_status certainty none).from_upstream
unfolding delivery_metadata certainty_of provider_status_of
status_shown call none gateway_status h = ground arith
status_shown call (some not_dispatched) gateway_status h = ground arith
status_shown call (some response_received) gateway_status h = ground arith
status_shown call (some may_have_dispatched) gateway_status h = ground arith

request_status-shown :
    (reservation : ModelReservation) (call : ModelCall)
    → is_there (request_status reservation call).provider_status
      ≡ (request_status reservation call).from_upstream
unfolding request_status
request_status-shown reservation call = elim (Bool-cases (is_released reservation.state)) [
  | inl free ↦ rw free (status_shown call (some not_dispatched) call.http_status (inr refl))
  | inr charged ↦ rw charged (status_shown call none none (inl refl))
]

-- The status query of a request shows a provider's status exactly when it says that the reply came
-- from upstream. The refusal of a repeated request says that it comes from the gateway, with the
-- gateway's status 409, and it shows a provider's status exactly when the status query does.
pub request_status_lem :
    (reservation : ModelReservation) (call : ModelCall)
    → (is_there (request_status reservation call).provider_status
        ≡ (request_status reservation call).from_upstream)
      × ((duplicate_details reservation (some call)).from_upstream ≡ false)
      × ((duplicate_details reservation (some call)).gateway_status ≡ some 409)
      × (is_there (duplicate_details reservation (some call)).provider_status
          ≡ (request_status reservation call).from_upstream)
unfolding duplicate_details
request_status_lem reservation call =
    let shown = request_status-shown reservation call in (shown, refl, refl, shown)
