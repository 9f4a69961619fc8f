-- ===== src/Credits/Review.antt =====
-- app/credits.py: what `reconciliation_metadata` shows against what `refresh_reconciliations` does.
use opsark_admin.Common.{ℕ, ◌≡◌, ◌&&◌, ◌||◌, true, Option, none, some, arith, if◌then◌else◌}
use opsark_admin.Common.Table.{Table, get}
use opsark_admin.Models.{ModelReservation, ModelCall, CallStatus, needs_reconciliation}
use opsark_admin.Credits.{is_open, is_unresolved, reconciliation_metadata}
use opsark_admin.Credits.Refresh.{is_candidate, call_finished, timed_out}

-- `call.status if call else None`, as the outer join has it.
abbrev pub joined_status : Option ModelCall → Option CallStatus
joined_status none = none
joined_status (some call) = some call.status

shown :
    (now : ℕ) (row : ModelReservation) (call : Option ModelCall)
    → is_open row.state ≡ true
    → ((is_unresolved row.state && (call_finished call || timed_out now row))
        ≡ (reconciliation_metadata row (joined_status call) now).reconcile_allowed)
      × ((reconciliation_metadata row (joined_status call) now).effective_state ≡ (
          if is_unresolved row.state && (call_finished call || timed_out now row)
          then needs_reconciliation
          else row.state))
unfolding reconciliation_metadata
shown now row none fresh = ground arith
shown now row (some call) fresh = ground arith

-- A refresh takes up an open row exactly when the staff is shown that the row may be reconciled, and
-- in that case it is shown as a row that needs reconciliation.
pub is_candidate-reconciliation_metadata :
    (now id : ℕ) (row : ModelReservation) (calls : Table ModelCall)
    → is_open row.state ≡ true
    → (is_candidate now calls (id, row)
        ≡ (reconciliation_metadata row (joined_status (get id calls)) now).reconcile_allowed)
      × ((reconciliation_metadata row (joined_status (get id calls)) now).effective_state
          ≡ (if is_candidate now calls (id, row) then needs_reconciliation else row.state))
unfolding is_candidate
is_candidate-reconciliation_metadata now id row calls fresh = shown now row (get id calls) fresh
