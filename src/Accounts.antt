-- ===== src/Accounts.antt =====
-- app/accounts.py: what the staff does to balances and to unresolved calls. The path parameters and
-- the bodies of the requests arrive validated.
pub mod Balanced
pub mod Sound
pub mod History
pub mod Anomalies
mod Tests
use Prim.Native.String.{compare}
use Prim.Native.Nat.{Ordering}
use opsark_admin.Common.{
  ℕ, Bool, true, false, ◌&&◌, not, Option, none, some, List, [], ◌∷◌, String, ◌==◌, if◌then◌else◌,
}
use opsark_admin.Common.Int.{ℤ, pos, eqb_ℤ, option_eqb_ℤ}
use opsark_admin.Common.Table.{get}
use opsark_admin.Errors.{
  Error, api_error, integrity_error, not_found, idempotency_conflict, adjustment_conflict,
  already_reconciled, request_still_running, is_insufficient_credits,
}
use opsark_admin.Exec.{Exec, pure, raise, gets, modify, catch, ◌>>=◌, ◌>>◌, match_option}
use opsark_admin.Models.{
  Db, CreditAccount, CreditLedger, OperationKey, LedgerKind, Actor, ModelReservation, ModelCall,
  CallStatus, operation_key_eq, actor_eq,
}
use opsark_admin.Credits.{
  Change, balance, change, lock_account, is_open, is_closed, is_needs_reconciliation,
  reconciliation_metadata,
}
use opsark_admin.Credits.Settle.{Settlement, settle}
use opsark_admin.Credits.Refresh.{close_stale_call}

abbrev pub text_eq : String → String → Bool
text_eq a b = elim (compare a b) [ Ordering.eq ↦ true | _ ↦ false ]

-- The user's entry for an operation key.
unfoldable pub find_entry : ℕ → OperationKey → List CreditLedger → Option CreditLedger
find_entry user_id key [] = none
find_entry user_id key (entry ∷ entries) =
    if (entry.user_id == user_id) && operation_key_eq entry.operation_key key
    then some entry
    else find_entry user_id key entries

-- What a staff member's adjustment changes.
unfoldable pub adjustment : ℤ → String → ℕ → ℕ → ℕ → Change
adjustment delta reason key admin_id now = record {
  delta = delta;
  reserved_delta = pos 0;
  kind = LedgerKind.admin_adjustment;
  operation_key = OperationKey.adjust key;
  actor_id = Actor.staff admin_id;
  reason = reason;
  created_at = now;
}

-- `except IntegrityError`
unfoldable pub on_conflict : Error → Exec Db Unit
on_conflict integrity_error = raise (api_error 409 adjustment_conflict)
on_conflict e = raise e

-- `(previous.delta, previous.reason, previous.actor_id) == (body.delta, body.reason, admin_id)`
abbrev pub is_repeat : CreditLedger → ℤ → String → ℕ → Bool
is_repeat previous delta reason admin_id =
    eqb_ℤ previous.delta delta
    && (text_eq previous.reason reason && actor_eq previous.actor_id (Actor.staff admin_id))

unfoldable pub adjust : ℕ → ℤ → String → ℕ → ℕ → ℕ → Exec Db CreditAccount
adjust user_id delta reason key admin_id now = do
  balance user_id
  previous ← gets (λ db. find_entry user_id (OperationKey.adjust key) db.ledger)
  match_option previous
      (do
        catch (change user_id (adjustment delta reason key admin_id now)) on_conflict
        balance user_id)
      λ entry.
        if is_repeat entry delta reason admin_id
        then balance user_id
        else raise (api_error 409 idempotency_conflict)

-- `call.status if call else None`
abbrev pub status_of : Option ModelCall → Option CallStatus
status_of none = none
status_of (some call) = some call.status

-- The settlement that a staff member enters.
unfoldable pub manual : ℤ → String → ℕ → Settlement
manual actual reason admin_id = record {
  actual = some actual;
  no_dispatch = false;
  actor_id = Actor.staff admin_id;
  reason = reason;
  allow_overage = true;
}

-- The test under which the handler commits before it raises again.
unfoldable pub records_usage : ℤ → Error → Option ModelReservation → Bool
records_usage actual error none = false
records_usage actual error (some row) =
    is_insufficient_credits error
    && (eqb_ℤ row.amount (pos 0)
        && (is_needs_reconciliation row.state && option_eqb_ℤ row.actual (some actual)))

-- `except ApiError`: a request that raises without a commit is rolled back to the rows it began
-- with.
unfoldable pub on_refusal : Db → ℕ → ℤ → Error → Exec Db Unit
on_refusal start call_id actual error = do
  refreshed ← gets (λ db. get call_id db.reservations)
  if records_usage actual error refreshed then raise error else do modify (λ db. start); raise error

-- `reconcile` for a row that is not closed.
unfoldable pub reconcile_live :
    Db → ℕ → ModelReservation → ℤ → String → ℕ → ℕ → Exec Db CreditAccount
reconcile_live start call_id row actual reason admin_id now = do
  call ← gets (λ db. get call_id db.calls)
  let state = reconciliation_metadata row (status_of call) now
  if is_open row.state && not state.reconcile_allowed
      then raise (api_error 409 request_still_running)
      else do
        close_stale_call call_id call now
        catch (settle call_id (manual actual reason admin_id) now) (on_refusal start call_id actual)
        balance row.user_id

-- `reconcile` in a request that began with the rows `start`.
unfoldable pub reconcile_from : Db → ℕ → ℤ → String → ℕ → ℕ → Exec Db CreditAccount
reconcile_from start call_id actual reason admin_id now = do
  reservation ← gets (λ db. get call_id db.reservations)
  match_option reservation (raise (api_error 404 not_found)) λ row. do
    lock_account row.user_id
    if is_closed row.state
        then if option_eqb_ℤ row.actual (some actual)
          then balance row.user_id
          else raise (api_error 409 already_reconciled)
        else reconcile_live start call_id row actual reason admin_id now

unfoldable pub reconcile : ℕ → ℤ → String → ℕ → ℕ → Exec Db CreditAccount
reconcile call_id actual reason admin_id now db =
    reconcile_from db call_id actual reason admin_id now db
