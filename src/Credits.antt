-- ===== src/Credits.antt =====
-- app/credits.py: the balances, the audit ledger and the journal of model calls. A function is an
-- action on the rows of the caller's transaction; `now` is the reading of the clock that it makes.
pub mod Settle
pub mod Refresh
pub mod Balance
pub mod Audit
pub mod Journal
pub mod Holds
pub mod Sound
pub mod Admission
pub mod Settlement
pub mod Recovery
pub mod Repair
pub mod Duplicates
pub mod Review
pub mod Samples
mod Tests
use opsark_admin.Common.{
  ℕ, ◌+◌, ◌-◌, Bool, true, false, ◌&&◌, ◌||◌, not, Option, none, some, List, [], ◌∷◌, ◌++◌, String,
  any, leb, ◌==◌, if◌then◌else◌, min,
}
use opsark_admin.Common.Int.{ℤ, pos, ◌+ℤ◌, ◌-ℤ◌, neg, leb_ℤ, ltb_ℤ, eqb_ℤ, option_eqb_ℤ}
use opsark_admin.Common.Table.{Table, get, update, insert}
use opsark_admin.Errors.{
  Error, api_error, integrity_error, user_not_found, insufficient_credits, idempotency_key_conflict,
  request_already_accepted, invalid_reservation_amount, credits_reconciliation_required,
  already_reconciled, is_insufficient_credits,
}
use opsark_admin.Exec.{Exec, pure, raise, gets, modify, catch, ◌>>=◌, ◌>>◌, match_option}
use opsark_admin.Models
use opsark_admin.Models.{
  Db, CreditAccount, CreditLedger, OperationKey, LedgerKind, Actor, ModelReservation,
  ReservationState, reserved, pending_usage, needs_reconciliation, settled, released, ModelCall,
  CallStatus, running, succeeded, failed, cancelled, CallError, call_outcome_unknown,
  operation_key_eq, initial_grant, admin_adjustment, usage_debit, release,
}

-- RECONCILIATION_GRACE_SECONDS, in milliseconds.
abbrev pub reconciliation_grace : ℕ
reconciliation_grace = 1200000

-- OPEN_RESERVATION_STATES
abbrev pub is_open : ReservationState → Bool
is_open reserved = true
is_open pending_usage = true
is_open _ = false

-- UNRESOLVED_RESERVATION_STATES
abbrev pub is_unresolved : ReservationState → Bool
is_unresolved needs_reconciliation = true
is_unresolved s = is_open s

abbrev pub is_needs_reconciliation : ReservationState → Bool
is_needs_reconciliation needs_reconciliation = true
is_needs_reconciliation _ = false

-- `state in {"settled", "released"}`
abbrev pub is_closed : ReservationState → Bool
is_closed settled = true
is_closed released = true
is_closed _ = false

abbrev pub is_running : CallStatus → Bool
is_running running = true
is_running _ = false

pub record ReconciliationMetadata : Type 0 where
  pub effective_state : ReservationState
  pub reconcile_allowed : Bool
  pub reconcile_after : Option ℕ
  pub call_status : Option CallStatus

-- `call_status is not None and call_status != "running"`
abbrev pub has_finished : Option CallStatus → Bool
has_finished none = false
has_finished (some s) = not (is_running s)

unfoldable pub reconciliation_metadata :
    ModelReservation → Option CallStatus → ℕ → ReconciliationMetadata
reconciliation_metadata row call_status now =
    let deadline = row.created_at + reconciliation_grace in
    let allowed =
      is_needs_reconciliation row.state
      || (is_open row.state && (has_finished call_status || leb deadline now)) in
    record {
      effective_state = if allowed && is_open row.state then needs_reconciliation else row.state;
      reconcile_allowed = allowed;
      reconcile_after = if is_open row.state && not allowed then some deadline else none;
      call_status = call_status;
    }

unfoldable pub balance : ℕ → Exec Db CreditAccount
balance user_id = do
  row ← gets (λ db. get user_id db.accounts)
  match_option row (raise (api_error 404 user_not_found)) pure

-- The unique constraint over the user and the operation key.
unfoldable pub has_entry : ℕ → OperationKey → List CreditLedger → Bool
has_entry user_id key =
    any (λ entry. (entry.user_id == user_id) && operation_key_eq entry.operation_key key)

-- The row as the conditional UPDATE leaves it.
unfoldable pub changed : ℤ → ℤ → CreditAccount → CreditAccount
changed delta reserved_delta row = record {
  available = row.available +ℤ delta;
  reserved = row.reserved +ℤ reserved_delta;
  revision = row.revision + 1;
}

-- The WHERE clause of that UPDATE.
unfoldable pub covers : ℤ → ℤ → CreditAccount → Bool
covers delta reserved_delta row =
    leb_ℤ (pos 0) (row.available +ℤ delta) && leb_ℤ (pos 0) (row.reserved +ℤ reserved_delta)

pub record Change : Type 0 where
  pub delta : ℤ
  pub reserved_delta : ℤ
  pub kind : LedgerKind
  pub operation_key : OperationKey
  pub actor_id : Actor
  pub reason : String
  pub created_at : ℕ

unfoldable pub ledger_entry : ℕ → Change → CreditAccount → CreditLedger
ledger_entry user_id c after = record {
  user_id = user_id;
  operation_key = c.operation_key;
  kind = c.kind;
  delta = c.delta;
  reserved_delta = c.reserved_delta;
  available_after = after.available;
  reserved_after = after.reserved;
  actor_id = c.actor_id;
  reason = c.reason;
  created_at = c.created_at;
}

-- The UPDATE, `db.add(CreditLedger(...))` and `db.flush()`, for the row that was matched. A flush
-- that fails rolls its transaction back, so no row is left written.
unfoldable pub apply_change : ℕ → Change → CreditAccount → Exec Db Unit
apply_change user_id c row = do
  taken ← gets (λ db. has_entry user_id c.operation_key db.ledger)
  if taken
      then raise integrity_error
      else modify λ db. record db {
        accounts = update user_id (changed c.delta c.reserved_delta) db.accounts;
        ledger = db.ledger ++ ledger_entry user_id c (changed c.delta c.reserved_delta row) ∷ [];
      }

unfoldable pub change : ℕ → Change → Exec Db Unit
change user_id c = do
  row ← gets (λ db. get user_id db.accounts)
  match_option row (raise (api_error 402 insufficient_credits)) λ account.
      if covers c.delta c.reserved_delta account
      then apply_change user_id c account
      else raise (api_error 402 insufficient_credits)

-- The no-op UPDATE changes nothing and raises for a missing account.
unfoldable pub lock_account : ℕ → Exec Db Unit
lock_account user_id = do
  row ← gets (λ db. get user_id db.accounts)
  match_option row (raise (api_error 404 user_not_found)) λ account. pure tt

-- The user's row for a request key.
unfoldable pub find_request : ℕ → ℕ → Table ModelReservation → Option ModelReservation
find_request user_id key [] = none
find_request user_id key ((id, row) ∷ rows) =
    if row.user_id == user_id && row.idempotency_key == key
    then some row
    else find_request user_id key rows

unfoldable pub reject_duplicate_request : ℕ → ℕ → ℕ → Exec Db Unit
reject_duplicate_request user_id key request_hash = do
  previous ← gets (λ db. find_request user_id key db.reservations)
  match_option previous (pure tt) λ row.
      if row.request_hash == request_hash
      then raise (api_error 409 request_already_accepted)
      else raise (api_error 409 idempotency_key_conflict)

-- Statements that write to the journal only, and to the calls only.
unfoldable pub write_reservations : (Table ModelReservation → Table ModelReservation) → Exec Db Unit
write_reservations f = modify (λ db. record db { reservations = f db.reservations })

unfoldable pub write_calls : (Table ModelCall → Table ModelCall) → Exec Db Unit
write_calls f = modify (λ db. record db { calls = f db.calls })

-- `db.add(ModelReservation(...))` and `db.flush()`: the primary key, and the unique constraint
-- over the user and the request key.
unfoldable pub add_reservation : ℕ → ModelReservation → Exec Db Unit
add_reservation id row = do
  same_id ← gets (λ db. get id db.reservations)
  same_key ← gets (λ db. find_request row.user_id row.idempotency_key db.reservations)
  match_option same_id
      (match_option same_key (write_reservations (insert id row)) (λ _. raise integrity_error))
      (λ _. raise integrity_error)

unfoldable pub new_reservation : ℕ → ℕ → ℕ → ℤ → ReservationState → ℕ → ModelReservation
new_reservation user_id key request_hash amount state now = record {
  user_id = user_id;
  idempotency_key = key;
  request_hash = request_hash;
  amount = amount;
  actual = none;
  state = state;
  created_at = now;
}

-- `select(ModelReservation.id).where(user_id, state == "needs_reconciliation").limit(1)`
unfoldable pub has_unresolved : ℕ → Table ModelReservation → Bool
has_unresolved user_id =
    any (λ (id, row). row.user_id == user_id && is_needs_reconciliation row.state)

unfoldable pub reserve : ℕ → ℕ → ℕ → ℕ → ℤ → ℕ → Exec Db Unit
reserve user_id call_id key request_hash amount now =
    if leb_ℤ amount (pos 0) then raise (api_error 422 invalid_reservation_amount) else do
      lock_account user_id
      reject_duplicate_request user_id key request_hash
      balance user_id
      unresolved ← gets (λ db. has_unresolved user_id db.reservations)
      if unresolved then raise (api_error 409 credits_reconciliation_required) else do
        add_reservation call_id (new_reservation user_id key request_hash amount reserved now)
        change user_id (record {
          delta = neg amount;
          reserved_delta = amount;
          kind = LedgerKind.reserve;
          operation_key = OperationKey.reserve call_id;
          actor_id = Actor.user user_id;
          reason = "官方模型调用预留";
          created_at = now;
        })

unfoldable pub begin_direct_call : ℕ → ℕ → ℕ → ℕ → ℕ → Exec Db Unit
begin_direct_call user_id call_id key request_hash now = do
  lock_account user_id
  reject_duplicate_request user_id key request_hash
  current ← balance user_id
  if leb_ℤ current.available (pos 0)
      then raise (api_error 402 insufficient_credits)
      else add_reservation call_id
          (new_reservation user_id key request_hash (pos 0) pending_usage now)
