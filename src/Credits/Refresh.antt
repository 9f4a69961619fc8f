-- ===== src/Credits/Refresh.antt =====
-- app/credits.py, `refresh_reconciliations` with `_trusted_terminal_usage` and `close_stale_call`:
-- unfinished pairs of a journal row and a call are settled from trusted usage or put up for review.
use opsark_admin.Common.{
  ℕ, ◌+◌, ◌-◌, Bool, true, false, ◌&&◌, ◌||◌, not, Option, none, some, List, [], ◌∷◌, filter, leb,
  ltb, ◌==◌, if◌then◌else◌, min,
}
use opsark_admin.Common.Int.{ℤ, pos, ◌+ℤ◌, ltb_ℤ}
use opsark_admin.Common.Table.{Table, get, update}
use opsark_admin.Exec.{Exec, pure, gets, ◌>>=◌, ◌>>◌, match_option}
use opsark_admin.Models.{
  Db, Actor, ModelReservation, ReservationState, needs_reconciliation, ModelCall, CallStatus,
  succeeded, failed, call_outcome_unknown,
}
use opsark_admin.Credits.{
  write_calls, lock_account, reconciliation_grace, is_open, is_unresolved, is_closed, is_running,
  is_needs_reconciliation,
}
use opsark_admin.Credits.Settle.{Settlement, settle, set_state, write_reservation}

abbrev pub is_succeeded : CallStatus → Bool
is_succeeded succeeded = true
is_succeeded _ = false

-- The sum of two token counts, if both are there and none is negative.
abbrev pub token_total : Option ℤ → Option ℤ → Option ℤ
token_total (some input) (some output) =
    if ltb_ℤ input (pos 0) || ltb_ℤ output (pos 0) then none else some (input +ℤ output)
token_total _ _ = none

unfoldable pub trusted_terminal_usage : Option ModelCall → Option ℤ
trusted_terminal_usage none = none
trusted_terminal_usage (some call) =
    if is_succeeded call.status then token_total call.input_tokens call.output_tokens else none

-- A running call whose longest lifetime is over.
unfoldable pub is_stale : ℕ → ModelCall → Bool
is_stale now call = is_running call.status && leb (call.started_at + reconciliation_grace) now

-- `duration_ms` is a 32-bit column.
unfoldable pub closed_call : ℕ → ModelCall → ModelCall
closed_call now call = record call {
  status = failed;
  error_code = some call_outcome_unknown;
  duration_ms = some (min 2147483647 (now - call.started_at));
}

-- The conditional UPDATE repeats the test on the row in the table. The result is its row count.
unfoldable pub close_stale_call : ℕ → Option ModelCall → ℕ → Exec Db ℕ
unfolding is_stale closed_call
close_stale_call call_id call now = match_option call (pure 0) λ seen.
    if is_stale now seen
    then (do
      current ← gets (λ db. get call_id db.calls)
      match_option current (pure 0) λ row.
          if is_stale now row
          then (do write_calls (update call_id (closed_call now)); pure 1)
          else pure 0)
    else pure 0

pub record Tally : Type 0 where
  pub promoted : ℕ
  pub settled : ℕ
  pub calls_closed : ℕ

abbrev pub no_change : Tally
no_change = record { promoted = 0; settled = 0; calls_closed = 0 }

abbrev pub one_promoted : Tally
one_promoted = record no_change { promoted = 1 }

abbrev pub one_settled : Tally
one_settled = record no_change { settled = 1 }

-- What the repaired row shows.
abbrev pub tally_state : ReservationState → Tally
tally_state s =
    if is_closed s
    then one_settled
    else if is_needs_reconciliation s
    then one_promoted
    else no_change

abbrev pub tally_row : Option ModelReservation → Tally
tally_row none = no_change
tally_row (some row) = tally_state row.state

-- `WHERE state IN OPEN_RESERVATION_STATES`
abbrev pub review_open : ModelReservation → ModelReservation
review_open row = if is_open row.state then set_state needs_reconciliation row else row

-- `call is not None and call.status != "running"`
abbrev pub call_finished : Option ModelCall → Bool
call_finished none = false
call_finished (some call) = not (is_running call.status)

-- `row.created_at <= cutoff`
abbrev pub timed_out : ℕ → ModelReservation → Bool
timed_out now row = leb (row.created_at + reconciliation_grace) now

-- The settlement that a refresh makes.
abbrev pub repair : Actor → ℤ → Settlement
repair actor_id actual = record {
  actual = some actual;
  no_dispatch = false;
  actor_id = actor_id;
  reason = "刷新修复终态调用结算";
  allow_overage = false;
}

-- An open row: it is settled from trusted usage, or put up for review.
unfoldable pub resolve_open : Actor → ℕ → ℕ → Option ModelCall → Exec Db Tally
resolve_open actor_id now call_id call =
    match_option (trusted_terminal_usage call)
      (do write_reservation call_id review_open; pure one_promoted)
      λ actual. do
        settle call_id (repair actor_id actual) now
        repaired ← gets (λ db. get call_id db.reservations)
        pure (tally_row repaired)

unfoldable pub refresh_row : Actor → ℕ → ℕ → ModelReservation → Option ModelCall → Exec Db Tally
refresh_row actor_id now call_id row call = do
  outcome ←
      if is_open row.state && (call_finished call || timed_out now row)
      then resolve_open actor_id now call_id call
      else pure no_change
  closed ← if timed_out now row then close_stale_call call_id call now else pure 0
  pure (record outcome { calls_closed = closed })

-- The body of the loop: the rows are read again under the lock.
unfoldable pub refresh_one : Actor → ℕ → ℕ → ℕ → Exec Db Tally
refresh_one actor_id now call_id user_id = do
  lock_account user_id
  current ← gets (λ db. get call_id db.reservations)
  call ← gets (λ db. get call_id db.calls)
  match_option current (pure no_change) λ row.
      if is_unresolved row.state then refresh_row actor_id now call_id row call else pure no_change

-- `ModelCall.status != "running" OR ModelReservation.created_at <= cutoff`, for an open or a
-- reviewed row; the outer join gives no status where there is no call.
unfoldable pub is_candidate : ℕ → Table ModelCall → ℕ × ModelReservation → Bool
is_candidate now calls (call_id, row) =
    is_unresolved row.state && (call_finished (get call_id calls) || timed_out now row)

-- The order by user, time and id.
abbrev pub comes_before : ℕ × ModelReservation → ℕ × ModelReservation → Bool
comes_before (i, a) (j, b) =
    ltb a.user_id b.user_id
    || (a.user_id == b.user_id
        && (ltb a.created_at b.created_at || (a.created_at == b.created_at && leb i j)))

abbrev pub insert_ordered :
    ℕ × ModelReservation → List (ℕ × ModelReservation) → List (ℕ × ModelReservation)
insert_ordered x [] = x ∷ []
insert_ordered x (y ∷ ys) =
    let rest = insert_ordered x ys in if comes_before x y then x ∷ y ∷ ys else y ∷ rest

abbrev pub order_rows : List (ℕ × ModelReservation) → List (ℕ × ModelReservation)
order_rows [] = []
order_rows (x ∷ xs) = insert_ordered x (order_rows xs)

unfoldable pub candidates : ℕ → Db → List (ℕ × ModelReservation)
candidates now db = order_rows (filter (is_candidate now db.calls) db.reservations)

abbrev pub add_tally : Tally → Tally → Tally
add_tally a b = record {
  promoted = a.promoted + b.promoted;
  settled = a.settled + b.settled;
  calls_closed = a.calls_closed + b.calls_closed;
}

-- The loop over the selected rows.
unfoldable pub refresh_all : Actor → ℕ → List (ℕ × ModelReservation) → Exec Db Tally
refresh_all actor_id now [] = pure no_change
refresh_all actor_id now ((call_id, row) ∷ rows) = do
  first ← refresh_one actor_id now call_id row.user_id
  rest ← refresh_all actor_id now rows
  pure (add_tally first rest)

unfoldable pub refresh_reconciliations : Actor → ℕ → Exec Db Tally
refresh_reconciliations actor_id now = do
  rows ← gets (candidates now)
  refresh_all actor_id now rows
