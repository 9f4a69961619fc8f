-- ===== src/Models.antt =====
-- app/models.py and app/user_models.py: the rows that the modelled handlers read and write. A
-- primary key is the key of a `Table` and stands beside the row. Identifiers, request keys and
-- hashes are opaque values that the program only compares, so they are numbers here; a point in
-- time is a number of milliseconds.
use opsark_admin.Common.{ℕ, Bool, Option, List, String, ◌==◌}
use opsark_admin.Common.Int.{ℤ}
use opsark_admin.Common.Table.{Table}
use opsark_admin.Errors.{Code}

pub record CreditAccount : Type 0 where
  pub available : ℤ
  pub reserved : ℤ
  pub revision : ℕ

-- The texts "registration", "adjust:" + key, "reserve:" + id, "reserve_adjustment:" + id and
-- "settle:" + id, which no two of these can share.
pub data OperationKey : Type 0 where
  registration : OperationKey
  adjust reserve reserve_adjustment settle : ℕ → OperationKey

pub data LedgerKind : Type 0 where
  initial_grant admin_adjustment reserve reserve_adjustment usage_debit settle release : LedgerKind

-- "registration", "gateway", a staff member's id or a user's id.
pub data Actor : Type 0 where
  registration gateway : Actor
  staff user : ℕ → Actor

pub record CreditLedger : Type 0 where
  pub user_id : ℕ
  pub operation_key : OperationKey
  pub kind : LedgerKind
  pub delta : ℤ
  pub reserved_delta : ℤ
  pub available_after : ℤ
  pub reserved_after : ℤ
  pub actor_id : Actor
  pub reason : String
  pub created_at : ℕ

pub data ReservationState : Type 0 where
  reserved pending_usage needs_reconciliation settled released : ReservationState

pub record ModelReservation : Type 0 where
  pub user_id : ℕ
  pub idempotency_key : ℕ
  pub request_hash : ℕ
  pub amount : ℤ
  pub actual : Option ℤ
  pub state : ReservationState
  pub created_at : ℕ

pub data CallStatus : Type 0 where
  running succeeded failed cancelled : CallStatus

-- The `status` of a Responses reply, which `raw_status` keeps.
pub data ResponseStatus : Type 0 where
  completed incomplete response_failed response_cancelled queued in_progress : ResponseStatus

-- The `error_code` of a call.
pub data CallError : Type 0 where
  upstream_schema_invalid upstream_schema_unsupported upstream_http_error : CallError
  upstream_connect_failed upstream_connect_timeout upstream_write_failed : CallError
  upstream_timeout upstream_read_failed upstream_response_invalid gateway_busy : CallError
  stream_interrupted client_disconnected call_outcome_unknown : CallError
  upstream_response : ResponseStatus → CallError
  rejected : Code → CallError

-- The columns that decide anything; the trace labels and the usage diagnostics are left out.
pub record ModelCall : Type 0 where
  pub user_id : Option ℕ
  pub started_at : ℕ
  pub duration_ms : Option ℕ
  pub status : CallStatus
  pub http_status : Option ℕ
  pub input_tokens : Option ℤ
  pub output_tokens : Option ℤ
  pub error_code : Option CallError

pub record UserAccount : Type 0 where
  pub email : String
  pub password_hash : ℕ
  pub disabled : Bool
  pub created_at : ℕ

pub record UserSession : Type 0 where
  pub user_id : ℕ
  pub access_hash : ℕ
  pub refresh_hash : ℕ
  pub access_expires : ℕ
  pub refresh_expires : ℕ
  pub revoked : Bool

pub record RegistrationPolicy : Type 0 where
  pub enabled : Bool
  pub initial_tokens : ℤ
  pub allowed_models : List String
  pub revision : ℕ

pub record Db : Type 0 where
  pub accounts : Table CreditAccount
  pub ledger : List CreditLedger
  pub reservations : Table ModelReservation
  pub calls : Table ModelCall
  pub users : Table UserAccount
  pub sessions : Table UserSession
  pub policy : Option RegistrationPolicy

abbrev pub operation_key_eq : OperationKey → OperationKey → Bool
operation_key_eq OperationKey.registration OperationKey.registration = Bool.true
operation_key_eq (OperationKey.adjust a) (OperationKey.adjust b) = a == b
operation_key_eq (OperationKey.reserve a) (OperationKey.reserve b) = a == b
operation_key_eq (OperationKey.reserve_adjustment a) (OperationKey.reserve_adjustment b) = a == b
operation_key_eq (OperationKey.settle a) (OperationKey.settle b) = a == b
operation_key_eq _ _ = Bool.false

abbrev pub actor_eq : Actor → Actor → Bool
actor_eq Actor.registration Actor.registration = Bool.true
actor_eq Actor.gateway Actor.gateway = Bool.true
actor_eq (Actor.staff a) (Actor.staff b) = a == b
actor_eq (Actor.user a) (Actor.user b) = a == b
actor_eq _ _ = Bool.false
