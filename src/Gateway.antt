-- ===== src/Gateway.antt =====
-- app/gateway.py, `completions`: a call of a model, from its admission to its outcome. This file has
-- the admission; the children have what follows.
pub mod Usage
pub mod Lines
pub mod Exchange
pub mod Stream
pub mod Kept
pub mod Slots
pub mod Outcome
pub mod Delivered
pub mod Paths
pub mod Ending
pub mod Admitted
pub mod Request
pub mod Whole
mod Tests
use opsark_admin.Common.{ℕ, Bool, true, false, Option, none, some, if◌then◌else◌}
use opsark_admin.Common.Table.{Table, get, update, insert}
use opsark_admin.Errors.{
  Error, Code, api_error, integrity_error, insufficient_credits, credits_reconciliation_required,
  request_state_conflict,
}
use opsark_admin.Exec.{Exec, pure, raise, gets, catch, transaction, ◌>>=◌, ◌>>◌, match_option}
use opsark_admin.Models.{Db, ModelCall, CallStatus, running, failed, CallError, rejected}
use opsark_admin.Credits.{write_calls, begin_direct_call, reject_duplicate_request}

pub record Admission : Type 0 where
  pub call_id : ℕ
  pub user_id : Option ℕ
  pub idempotency_key : ℕ
  pub request_hash : ℕ
  pub now : ℕ

unfoldable pub new_call : Admission → ModelCall
new_call a = record {
  user_id = a.user_id;
  started_at = a.now;
  duration_ms = none;
  status = running;
  http_status = none;
  input_tokens = none;
  output_tokens = none;
  error_code = none;
}

-- `db.add(call)` and the flush that follows, with the primary key.
unfoldable pub add_call : ℕ → ModelCall → Exec Db Unit
add_call id call = do
  same_id ← gets (λ db. get id db.calls)
  match_option same_id (write_calls (insert id call)) λ _. raise integrity_error

-- `if user_id:`
unfoldable pub begin_for : Option ℕ → Admission → Exec Db Unit
begin_for none a = pure tt
begin_for (some user) a = begin_direct_call user a.call_id a.idempotency_key a.request_hash a.now

-- The body of the `try`.
unfoldable pub enter : Admission → Exec Db Unit
enter a = do add_call a.call_id (new_call a); begin_for a.user_id a

-- `error.code in {"INSUFFICIENT_CREDITS", "CREDITS_RECONCILIATION_REQUIRED"}`
abbrev pub is_credit_refusal : Code → Bool
is_credit_refusal insufficient_credits = true
is_credit_refusal credits_reconciliation_required = true
is_credit_refusal _ = false

-- The row that explains a denied call to the monitor.
unfoldable pub denied_call : Admission → ℕ → Code → ModelCall
denied_call a status code = record (new_call a) {
  status = failed;
  error_code = some (rejected code);
  http_status = some status;
  duration_ms = some 0;
}

-- The handlers of the `try`; each starts after a roll-back. The second transaction of the first one
-- may fail without hiding the refusal.
unfoldable pub on_refusal : Admission → Error → Exec Db Unit
on_refusal a (api_error status code) =
    if is_credit_refusal code
    then (do
      catch (transaction (add_call a.call_id (denied_call a status code))) (λ _. pure tt)
      raise (api_error status code))
    else raise (api_error status code)
on_refusal a integrity_error = do
  match_option a.user_id (pure tt)
      λ user. reject_duplicate_request user a.idempotency_key a.request_hash
  raise (api_error 409 request_state_conflict)
on_refusal a error = raise error

unfoldable pub admit : Admission → Exec Db Unit
admit a = catch (transaction (enter a)) (on_refusal a)
