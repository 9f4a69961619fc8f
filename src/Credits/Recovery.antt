-- ===== src/Credits/Recovery.antt =====
-- app/credits.py, `refresh_reconciliations`: what a refresh keeps.
use opsark_admin.Common.{ℕ, Option, List, [], ◌∷◌, arith, Option-cases, inl, inr}
use opsark_admin.Common.Table.{Table, get, update_missing}
use opsark_admin.Exec.Keeps.{Keeps, keeps_rules, Keeps-modify, Keeps-bind, Keeps-pure}
use opsark_admin.Models.{Db, Actor, ModelReservation, ModelCall}
use opsark_admin.Credits.{lock_account, write_calls, write_reservations}
use opsark_admin.Credits.Settle.{Settlement, settle, write_reservation}
use opsark_admin.Credits.Refresh.{
  review_open, close_stale_call, resolve_open, refresh_row, refresh_one, refresh_all,
  refresh_reconciliations,
}
use opsark_admin.Credits.Sound.{IsSound, write-IsSound}
use opsark_admin.Credits.Settlement.{nonneg, sound_row}
use opsark_admin.Credits.Settlement.Whole.{settle-IsSound}

settle-Keeps : (id : ℕ) (s : Settlement) (now : ℕ) → Keeps IsSound (settle id s now)
settle-Keeps id s now = record { at = settle-IsSound id s now }

write_calls-Keeps : (f : Table ModelCall → Table ModelCall) → Keeps IsSound (write_calls f)
unfolding write_calls
write_calls-Keeps f =
    Keeps-modify _
      λ db h. record { nonneg = h.nonneg; holds = h.holds; amounts = h.amounts; rows = h.rows }

review_open-Keeps : (id : ℕ) → Keeps IsSound (write_reservation id review_open)
unfolding write_reservation write_reservations
review_open-Keeps id = Keeps-modify _ λ db h. elim (Option-cases (get id db.reservations)) [
  | inl missing ↦ rw (update_missing id review_open db.reservations missing) h
  | inr (row, found) ↦
      write-IsSound id review_open row db h found (ground arith)
        (ground (arith, nonneg id row db h found)) (ground (arith, sound_row id row db h found))
        (ground arith) (ground arith)
]

lock_account-Keeps : (u : ℕ) → Keeps IsSound (lock_account u)
unfolding lock_account
lock_account-Keeps u = search keeps_rules

pub close_stale_call-Keeps :
    (id : ℕ) (call : Option ModelCall) (t : ℕ) → Keeps IsSound (close_stale_call id call t)
unfolding close_stale_call
close_stale_call-Keeps id call t = search (keeps_rules, write_calls-Keeps) depth 12

resolve_open-Keeps :
    (a : Actor) (t id : ℕ) (call : Option ModelCall) → Keeps IsSound (resolve_open a t id call)
unfolding resolve_open
resolve_open-Keeps a t id call = search (keeps_rules, review_open-Keeps, settle-Keeps)

refresh_row-Keeps :
    (a : Actor) (t id : ℕ) (row : ModelReservation) (call : Option ModelCall)
    → Keeps IsSound (refresh_row a t id row call)
unfolding refresh_row
refresh_row-Keeps a t id row call = search (keeps_rules, resolve_open-Keeps, close_stale_call-Keeps)

pub refresh_one-Keeps : (a : Actor) (t id u : ℕ) → Keeps IsSound (refresh_one a t id u)
unfolding refresh_one
refresh_one-Keeps a t id u = search (keeps_rules, lock_account-Keeps, refresh_row-Keeps) depth 8

refresh_all-Keeps :
    (a : Actor) (t : ℕ) (rows : List (ℕ × ModelReservation)) → Keeps IsSound (refresh_all a t rows)
unfolding refresh_all
refresh_all-Keeps a t [] = search keeps_rules
refresh_all-Keeps a t ((id, row) ∷ rows) =
    Keeps-bind _ _ (refresh_one-Keeps a t id row.user_id)
      (λ first. Keeps-bind _ _ (refresh_all-Keeps a t rows) (λ rest. Keeps-pure _))

refresh-Keeps : (a : Actor) (t : ℕ) → Keeps IsSound (refresh_reconciliations a t)
unfolding refresh_reconciliations
refresh-Keeps a t = search (keeps_rules, refresh_all-Keeps)

-- From sound accounts, journal and ledger a refresh of every unfinished call leads to sound ones.
pub refresh_reconciliations-IsSound :
    (a : Actor) (now : ℕ) (db : Db) → IsSound db → IsSound (refresh_reconciliations a now db).1
refresh_reconciliations-IsSound a now db h = (refresh-Keeps a now).at db h
