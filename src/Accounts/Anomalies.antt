-- ===== src/Accounts/Anomalies.antt =====
-- app/accounts.py, `reservation_items`: which calls the staff is shown, and the
-- reason for each.
use opsark_admin.Common.{
  ℕ, ◌≡◌, refl, Bool, true, false, ◌&&◌, ◌||◌, Option, none, some, if◌then◌else◌, arith,
}
use opsark_admin.Common.Int.{ℤ, pos, negsuc, ◌+ℤ◌, ltb_ℤ, leb_ℤ, eqb_ℤ}
use opsark_admin.Models.{
  ModelReservation, ModelCall, succeeded, failed, cancelled, running, CallError,
  call_outcome_unknown,
}
use opsark_admin.Credits.{is_open, is_needs_reconciliation, has_finished, reconciliation_metadata}
use opsark_admin.Credits.Refresh.{trusted_terminal_usage, timed_out}
use opsark_admin.Accounts.{status_of}

-- The WHERE clause.
unfoldable pub is_listed : ℕ → ModelReservation → Option ModelCall → Bool
is_listed now row call =
    is_needs_reconciliation row.state
    || (is_open row.state && (timed_out now row || has_finished (status_of call)))

abbrev pub is_count : Option ℤ → Bool
is_count none = false
is_count (some n) = leb_ℤ (pos 0) n

-- The columns of a missing call are null.
unfoldable pub usage_complete : Option ModelCall → Bool
usage_complete none = false
usage_complete (some call) = is_count call.input_tokens && is_count call.output_tokens

pub data Anomaly : Type 0 where
  usage_exceeds_balance settlement_incomplete usage_missing call_timeout usage_unknown : Anomaly
  call_failed : CallError → Anomaly

-- `row.actual is not None and row.amount == 0`
abbrev pub has_actual : Option ℤ → Bool
has_actual none = false
has_actual (some n) = true

abbrev pub error_of : Option CallError → CallError
error_of none = call_outcome_unknown
error_of (some e) = e

-- The branches on the status of the call.
unfoldable pub anomaly_of_call : ℕ → ModelReservation → Option ModelCall → Anomaly
anomaly_of_call now row none = if timed_out now row then call_timeout else usage_unknown
anomaly_of_call now row (some call) = elim call.status [
  | succeeded ↦ if usage_complete (some call) then settlement_incomplete else usage_missing
  | failed ↦ call_failed (error_of call.error_code)
  | cancelled ↦ call_failed (error_of call.error_code)
  | running ↦ if timed_out now row then call_timeout else usage_unknown
]

unfoldable pub anomaly_code : ℕ → ModelReservation → Option ModelCall → Anomaly
anomaly_code now row call =
    if has_actual row.actual && eqb_ℤ row.amount (pos 0)
    then usage_exceeds_balance
    else anomaly_of_call now row call

-- A call meets the condition of the staff's list exactly when it may be reconciled by hand.
pub is_listed-reconciliation_metadata :
    (now : ℕ) (row : ModelReservation) (call : Option ModelCall)
    → is_listed now row call ≡ (reconciliation_metadata row (status_of call) now).reconcile_allowed
unfolding is_listed reconciliation_metadata
is_listed-reconciliation_metadata now row none = ground arith
is_listed-reconciliation_metadata now row (some call) = ground arith

-- The whole usage of a succeeded call is on record, and a refresh takes their sum for it.
pub record HasUsage (call : ModelCall) : Type 0 where
  pub input : ℤ
  pub output : ℤ
  pub status : call.status ≡ succeeded
  pub input_known : call.input_tokens ≡ some input
  pub output_known : call.output_tokens ≡ some output
  pub total : trusted_terminal_usage (some call) ≡ some (input +ℤ output)

count_there : (o : Option ℤ) → is_count o ≡ true → (n : ℤ) × (o ≡ some n)
count_there none h = cc h
count_there (some n) h = (n, refl)

count_low : (n : ℤ) → leb_ℤ (pos 0) n ≡ true → ltb_ℤ n (pos 0) ≡ false
count_low (pos n) h = ground arith
count_low (negsuc n) h = ground (arith, h)

usage_complete-HasUsage :
    (call : ModelCall) → call.status ≡ succeeded → usage_complete (some call) ≡ true → HasUsage call
unfolding usage_complete trusted_terminal_usage
usage_complete-HasUsage call done h =
    let input_counts : is_count call.input_tokens ≡ true = ground (arith, h) in
    let output_counts : is_count call.output_tokens ≡ true = ground (arith, h) in
    let (i, input_there) = count_there call.input_tokens input_counts in
    let (o, output_there) = count_there call.output_tokens output_counts in
    let input_low = count_low i (rw input_there at input_counts) in
    let output_low = count_low o (rw output_there at output_counts) in
    record {
      input = i;
      output = o;
      status = done;
      input_known = input_there;
      output_known = output_there;
      total = rw (done, input_there, output_there, input_low, output_low) refl;
    }

-- A call that is shown as an incomplete settlement is there and has succeeded, and both parts of its
-- usage are on record, whose sum is the usage that a refresh would settle an open row of it with.
pub anomaly_code-HasUsage :
    (now : ℕ) (row : ModelReservation) (call : Option ModelCall)
    → anomaly_code now row call ≡ settlement_incomplete
    → (c : ModelCall) × (call ≡ some c) × HasUsage c
unfolding anomaly_code anomaly_of_call
anomaly_code-HasUsage now row none e = absurd (ground (arith, e))
anomaly_code-HasUsage now row (some call) e =
    (call, refl, usage_complete-HasUsage call (ground (arith, e)) (ground (arith, e)))
