-- ===== src/Credits/Settle.antt =====
-- app/credits.py, `settle` and `settle_direct_call`: a call's usage is charged, once.
use opsark_admin.Common.{
  ℕ, Bool, true, false, ◌&&◌, ◌||◌, not, Option, none, some, String, if◌then◌else◌,
}
use opsark_admin.Common.Int.{ℤ, pos, ◌-ℤ◌, neg, ltb_ℤ, eqb_ℤ, option_eqb_ℤ}
use opsark_admin.Common.Table.{get, update}
use opsark_admin.Errors.{
  Error, api_error, insufficient_credits, already_reconciled, is_insufficient_credits,
}
use opsark_admin.Exec.{Exec, pure, raise, gets, catch, ◌>>=◌, ◌>>◌, match_option}
use opsark_admin.Models.{
  Db, Actor, OperationKey, LedgerKind, ModelReservation, ReservationState, reserved,
  needs_reconciliation, settled, released,
}
use opsark_admin.Credits.{write_reservations, balance, change, lock_account, is_closed}

-- The keyword arguments of `settle`.
pub record Settlement : Type 0 where
  pub actual : Option ℤ
  pub no_dispatch : Bool
  pub actor_id : Actor
  pub reason : String
  pub allow_overage : Bool

-- `if no_dispatch: actual = 0`
abbrev pub reported : Settlement → Option ℤ
reported s = if s.no_dispatch then some (pos 0) else s.actual

abbrev pub final_state : Settlement → ReservationState
final_state s = if s.no_dispatch then released else settled

unfoldable pub write_reservation : ℕ → (ModelReservation → ModelReservation) → Exec Db Unit
write_reservation call_id f = write_reservations (update call_id f)

abbrev pub set_state : ReservationState → ModelReservation → ModelReservation
set_state state row = record row { state = state }

abbrev pub set_outcome : ℤ → ReservationState → ModelReservation → ModelReservation
set_outcome actual state row = record row { actual = some actual; state = state }

-- `row.actual is not None and row.actual != actual`
abbrev pub contradicts : Option ℤ → ℤ → Bool
contradicts none actual = false
contradicts (some recorded) actual = not (eqb_ℤ recorded actual)

-- `settle_direct_call` once the usage is known: it is charged, or written down for review.
unfoldable pub charge_direct_call : ℕ → ModelReservation → Settlement → ℤ → ℕ → Exec Db Unit
charge_direct_call call_id row s actual now = do
  current ← balance row.user_id
  if ltb_ℤ current.available actual
      then (do
        write_reservation call_id (set_outcome actual needs_reconciliation)
        if s.allow_overage then raise (api_error 402 insufficient_credits) else pure tt)
      else do
        if eqb_ℤ actual (pos 0)
            then pure tt
            else change row.user_id (record {
              delta = neg actual;
              reserved_delta = pos 0;
              kind = LedgerKind.usage_debit;
              operation_key = OperationKey.settle call_id;
              actor_id = s.actor_id;
              reason = s.reason;
              created_at = now;
            })
        write_reservation call_id (set_outcome actual (final_state s))

-- `manual` is `allow_overage`: there is one caller.
unfoldable pub settle_direct_call : ℕ → ModelReservation → Settlement → ℕ → Exec Db Unit
settle_direct_call call_id row s now =
    match_option (reported s) (write_reservation call_id (set_state needs_reconciliation)) λ actual.
      if ltb_ℤ actual (pos 0)
      then write_reservation call_id (set_state needs_reconciliation)
      else if contradicts row.actual actual
      then raise (api_error 409 already_reconciled)
      else charge_direct_call call_id row s actual now

-- The refusal of the extra amount is raised again with a text of its own, every other error as it
-- is: the status and the code stay.
unfoldable pub rethrow : Error → Exec Db Unit
rethrow error =
    if is_insufficient_credits error
    then raise (api_error 402 insufficient_credits)
    else raise error

-- A manual settlement above the held amount holds the difference first.
-- The result is the amount that is held from then on. The balance that is read first only fills
-- the details of the refusal, and the locked account has one.
unfoldable pub extend_hold : ℕ → ModelReservation → Settlement → ℤ → ℕ → Exec Db ℤ
unfolding rethrow
extend_hold call_id row s actual now = do
  let extra = actual -ℤ row.amount
  catch
      (change row.user_id (record {
        delta = neg extra;
        reserved_delta = extra;
        kind = LedgerKind.reserve_adjustment;
        operation_key = OperationKey.reserve_adjustment call_id;
        actor_id = s.actor_id;
        reason = s.reason;
        created_at = now;
      }))
      rethrow
  write_reservation call_id (λ r. record r { amount = actual })
  pure actual

-- `WHERE state == "reserved"`
abbrev pub review_reserved : ModelReservation → ModelReservation
review_reserved row = elim row.state [ reserved ↦ set_state needs_reconciliation row | _ ↦ row ]

-- `WHERE state IN ("reserved", "needs_reconciliation")`
abbrev pub is_held : ReservationState → Bool
is_held reserved = true
is_held needs_reconciliation = true
is_held _ = false

-- The conditional UPDATE that ends the hold; whoever wins it returns the rest to the balance.
unfoldable pub release_hold : ℕ → ModelReservation → Settlement → ℤ → ℕ → Exec Db Unit
release_hold call_id row s actual now =
    if is_held row.state
    then (do
      write_reservation call_id (set_outcome actual (final_state s))
      change row.user_id (record {
        delta = row.amount -ℤ actual;
        reserved_delta = neg row.amount;
        kind = if s.no_dispatch then LedgerKind.release else LedgerKind.settle;
        operation_key = OperationKey.settle call_id;
        actor_id = s.actor_id;
        reason = s.reason;
        created_at = now;
      }))
    else pure tt

-- The usage is taken from the hold if it fits, and the row is put up for review if not.
unfoldable pub settle_within : ℕ → ModelReservation → Settlement → ℤ → ℕ → Exec Db Unit
settle_within call_id row s actual now =
    if ltb_ℤ actual (pos 0) || ltb_ℤ row.amount actual
    then write_reservation call_id review_reserved
    else release_hold call_id row s actual now

-- `settle` for a row that holds an amount.
unfoldable pub settle_reserved : ℕ → ModelReservation → Settlement → ℕ → Exec Db Unit
settle_reserved call_id row s now =
    match_option (reported s) (write_reservation call_id review_reserved) λ actual. do
      held ←
          if s.allow_overage && ltb_ℤ row.amount actual
          then extend_hold call_id row s actual now
          else pure row.amount
      settle_within call_id (record row { amount = held }) s actual now

unfoldable pub settle_row : ℕ → ModelReservation → Settlement → ℕ → Exec Db Unit
settle_row call_id row s now = do
  lock_account row.user_id
  if is_closed row.state
      then if s.allow_overage && not (option_eqb_ℤ row.actual s.actual)
        then raise (api_error 409 already_reconciled)
        else pure tt
      else if eqb_ℤ row.amount (pos 0)
      then settle_direct_call call_id row s now
      else settle_reserved call_id row s now

-- The row is read again under the lock; within one transaction both reads see the same row.
unfoldable pub settle : ℕ → Settlement → ℕ → Exec Db Unit
settle call_id s now = do
  reservation ← gets (λ db. get call_id db.reservations)
  match_option reservation (pure tt) λ row. settle_row call_id row s now
