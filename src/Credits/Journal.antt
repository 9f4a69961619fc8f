-- ===== src/Credits/Journal.antt =====
-- app/credits.py: a property of balances and ledger that `change` keeps, every operation keeps.
use opsark_admin.Common.{ℕ, Option, List, [], ◌∷◌}
use opsark_admin.Common.Int.{ℤ}
use opsark_admin.Common.Table.{Table, update}
use opsark_admin.Errors.{Error}
use opsark_admin.Exec.Keeps.{Keeps, keeps_rules, Keeps-modify, Keeps-bind, Keeps-pure}
use opsark_admin.Models.{Db, Actor, ModelReservation, ModelCall}
use opsark_admin.Credits.{
  Change, change, write_reservations, write_calls, balance, lock_account, reject_duplicate_request,
  add_reservation, reserve, begin_direct_call,
}
use opsark_admin.Credits.Settle.{
  Settlement, write_reservation, charge_direct_call, settle_direct_call, rethrow, extend_hold,
  release_hold, settle_within, settle_reserved, settle_row, settle,
}
use opsark_admin.Credits.Refresh.{
  close_stale_call, resolve_open, refresh_row, refresh_one, refresh_all, refresh_reconciliations,
}

module _ {P : Db → Type 0} (keeps_change : (u : ℕ) (c : Change) → Keeps P (change u c))
    (frame : (db : Db) (reservations : Table ModelReservation) (calls : Table ModelCall)
      → P db
      → P (record db { reservations = reservations; calls = calls })) where
  pub balance-Keeps : (u : ℕ) → Keeps P (balance u)
  unfolding balance
  balance-Keeps u = search keeps_rules

  pub lock_account-Keeps : (u : ℕ) → Keeps P (lock_account u)
  unfolding lock_account
  lock_account-Keeps u = search keeps_rules

  reject_duplicate_request-Keeps : (u k h : ℕ) → Keeps P (reject_duplicate_request u k h)
  unfolding reject_duplicate_request
  reject_duplicate_request-Keeps u k h = search keeps_rules

  write_reservations-Keeps :
      (f : Table ModelReservation → Table ModelReservation) → Keeps P (write_reservations f)
  unfolding write_reservations
  write_reservations-Keeps f = Keeps-modify _ (λ db h. frame db (f db.reservations) db.calls h)

  write_calls-Keeps : (f : Table ModelCall → Table ModelCall) → Keeps P (write_calls f)
  unfolding write_calls
  write_calls-Keeps f = Keeps-modify _ (λ db h. frame db db.reservations (f db.calls) h)

  add_reservation-Keeps : (id : ℕ) (row : ModelReservation) → Keeps P (add_reservation id row)
  unfolding add_reservation
  add_reservation-Keeps id row = search (keeps_rules, write_reservations-Keeps) depth 8

  write_reservation-Keeps :
      (id : ℕ) (f : ModelReservation → ModelReservation) → Keeps P (write_reservation id f)
  unfolding write_reservation
  write_reservation-Keeps id f = write_reservations-Keeps (update id f)

  pub reserve-Keeps : (u i k h : ℕ) (a : ℤ) (t : ℕ) → Keeps P (reserve u i k h a t)
  unfolding reserve
  reserve-Keeps u i k h a t =
      search
        (
          keeps_rules, balance-Keeps, lock_account-Keeps, reject_duplicate_request-Keeps,
          add_reservation-Keeps, keeps_change,
        )
        depth 16

  pub begin_direct_call-Keeps : (u i k h t : ℕ) → Keeps P (begin_direct_call u i k h t)
  unfolding begin_direct_call
  begin_direct_call-Keeps u i k h t = search (
    keeps_rules, balance-Keeps, lock_account-Keeps, reject_duplicate_request-Keeps,
    add_reservation-Keeps,
  )

  charge_direct_call-Keeps :
      (id : ℕ) (row : ModelReservation) (s : Settlement) (a : ℤ) (t : ℕ)
      → Keeps P (charge_direct_call id row s a t)
  unfolding charge_direct_call
  charge_direct_call-Keeps id row s a t =
      search (keeps_rules, balance-Keeps, write_reservation-Keeps, keeps_change)

  settle_direct_call-Keeps :
      (id : ℕ) (row : ModelReservation) (s : Settlement) (t : ℕ)
      → Keeps P (settle_direct_call id row s t)
  unfolding settle_direct_call
  settle_direct_call-Keeps id row s t =
      search (keeps_rules, write_reservation-Keeps, charge_direct_call-Keeps)

  rethrow-Keeps : (e : Error) → Keeps P (rethrow e)
  unfolding rethrow
  rethrow-Keeps e = search keeps_rules

  extend_hold-Keeps :
      (id : ℕ) (row : ModelReservation) (s : Settlement) (a : ℤ) (t : ℕ)
      → Keeps P (extend_hold id row s a t)
  unfolding extend_hold
  extend_hold-Keeps id row s a t =
      search (keeps_rules, write_reservation-Keeps, keeps_change, rethrow-Keeps)

  release_hold-Keeps :
      (id : ℕ) (row : ModelReservation) (s : Settlement) (a : ℤ) (t : ℕ)
      → Keeps P (release_hold id row s a t)
  unfolding release_hold
  release_hold-Keeps id row s a t = search (keeps_rules, write_reservation-Keeps, keeps_change)

  settle_within-Keeps :
      (id : ℕ) (row : ModelReservation) (s : Settlement) (a : ℤ) (t : ℕ)
      → Keeps P (settle_within id row s a t)
  unfolding settle_within
  settle_within-Keeps id row s a t =
      search (keeps_rules, write_reservation-Keeps, release_hold-Keeps)

  settle_reserved-Keeps :
      (id : ℕ) (row : ModelReservation) (s : Settlement) (t : ℕ)
      → Keeps P (settle_reserved id row s t)
  unfolding settle_reserved
  settle_reserved-Keeps id row s t =
      search (keeps_rules, write_reservation-Keeps, extend_hold-Keeps, settle_within-Keeps)

  settle_row-Keeps :
      (id : ℕ) (row : ModelReservation) (s : Settlement) (t : ℕ) → Keeps P (settle_row id row s t)
  unfolding settle_row
  settle_row-Keeps id row s t =
      search (keeps_rules, lock_account-Keeps, settle_direct_call-Keeps, settle_reserved-Keeps)

  pub settle-Keeps : (id : ℕ) (s : Settlement) (t : ℕ) → Keeps P (settle id s t)
  unfolding settle
  settle-Keeps id s t = search (keeps_rules, settle_row-Keeps)

  pub close_stale_call-Keeps :
      (id : ℕ) (call : Option ModelCall) (t : ℕ) → Keeps P (close_stale_call id call t)
  unfolding close_stale_call
  close_stale_call-Keeps id call t = search (keeps_rules, write_calls-Keeps) depth 12

  resolve_open-Keeps :
      (a : Actor) (t id : ℕ) (call : Option ModelCall) → Keeps P (resolve_open a t id call)
  unfolding resolve_open
  resolve_open-Keeps a t id call = search (keeps_rules, write_reservation-Keeps, settle-Keeps)

  refresh_row-Keeps :
      (a : Actor) (t id : ℕ) (row : ModelReservation) (call : Option ModelCall)
      → Keeps P (refresh_row a t id row call)
  unfolding refresh_row
  refresh_row-Keeps a t id row call =
      search (keeps_rules, resolve_open-Keeps, close_stale_call-Keeps)

  pub refresh_one-Keeps : (a : Actor) (t id u : ℕ) → Keeps P (refresh_one a t id u)
  unfolding refresh_one
  refresh_one-Keeps a t id u = search (keeps_rules, lock_account-Keeps, refresh_row-Keeps) depth 8

  refresh_all-Keeps :
      (a : Actor) (t : ℕ) (rows : List (ℕ × ModelReservation)) → Keeps P (refresh_all a t rows)
  unfolding refresh_all
  refresh_all-Keeps a t [] = search keeps_rules
  refresh_all-Keeps a t ((id, row) ∷ rows) =
      Keeps-bind _ _ (refresh_one-Keeps a t id row.user_id)
        (λ first. Keeps-bind _ _ (refresh_all-Keeps a t rows) (λ rest. Keeps-pure _))

  pub refresh_reconciliations-Keeps : (a : Actor) (t : ℕ) → Keeps P (refresh_reconciliations a t)
  unfolding refresh_reconciliations
  refresh_reconciliations-Keeps a t = search (keeps_rules, refresh_all-Keeps)
