-- ===== src/Accounts/History.antt =====
-- app/credits.py and app/accounts.py: any sequence of the requests that touch balances.
use opsark_admin.Common.{ℕ, List, [], ◌∷◌, String}
use opsark_admin.Common.Int.{ℤ}
use opsark_admin.Exec.{transaction}
use opsark_admin.Models.{Db, Actor}
use opsark_admin.Credits
use opsark_admin.Credits.{Change, change}
use opsark_admin.Credits.Settle
use opsark_admin.Credits.Settle.{Settlement}
use opsark_admin.Credits.Refresh.{refresh_reconciliations}
use opsark_admin.Accounts
use opsark_admin.Common.Table.{Table}
use opsark_admin.Exec.Keeps.{Keeps, Keeps-transaction, transaction_lem}
use opsark_admin.Models.{ModelReservation, ModelCall}
use opsark_admin.Credits.Balance.{IsBalanced, change-IsBalanced}
use opsark_admin.Credits.Journal.{
  balance-Keeps, lock_account-Keeps, reserve-Keeps, begin_direct_call-Keeps, settle-Keeps,
  refresh_reconciliations-Keeps, close_stale_call-Keeps,
}
use opsark_admin.Credits.Sound.{IsSound}
use opsark_admin.Credits.Admission.{begin_direct_call-IsSound, reserve-IsSound}
use opsark_admin.Credits.Settlement.Whole.{settle-IsSound}
use opsark_admin.Credits.Recovery.{refresh_reconciliations-IsSound}
use opsark_admin.Accounts.Balanced.{adjust-Keeps, reconcile_from-Keeps}
use opsark_admin.Accounts.Sound.{adjust-IsSound, reconcile-IsSound}

pub data Operation : Type 0 where
  adjust : ℕ → ℤ → String → ℕ → ℕ → ℕ → Operation
  reserve : ℕ → ℕ → ℕ → ℕ → ℤ → ℕ → Operation
  begin_direct_call : ℕ → ℕ → ℕ → ℕ → ℕ → Operation
  settle : ℕ → Settlement → ℕ → Operation
  refresh : Actor → ℕ → Operation
  reconcile : ℕ → ℤ → String → ℕ → ℕ → Operation

-- The rows after one request.
unfoldable pub perform : Operation → Db → Db
perform (Operation.adjust u delta reason key admin_id now) db =
    (transaction (opsark_admin.Accounts.adjust u delta reason key admin_id now) db).1
perform (Operation.reserve u id key hash amount now) db =
    (transaction (opsark_admin.Credits.reserve u id key hash amount now) db).1
perform (Operation.begin_direct_call u id key hash now) db =
    (transaction (opsark_admin.Credits.begin_direct_call u id key hash now) db).1
perform (Operation.settle id s now) db =
    (transaction (opsark_admin.Credits.Settle.settle id s now) db).1
perform (Operation.refresh actor now) db = (transaction (refresh_reconciliations actor now) db).1
perform (Operation.reconcile id actual reason admin_id now) db =
    (opsark_admin.Accounts.reconcile id actual reason admin_id now db).1

unfoldable pub perform_all : List Operation → Db → Db
perform_all [] db = db
perform_all (op ∷ ops) db = perform_all ops (perform op db)

-- A property of accounts and ledger that `change` keeps.
module _ {P : Db → Type 0} (keeps_change : (u : ℕ) (c : Change) → Keeps P (change u c))
    (frame : (db : Db) (reservations : Table ModelReservation) (calls : Table ModelCall)
      → P db
      → P (record db { reservations = reservations; calls = calls })) where
  pub perform-Keeps : (op : Operation) (db : Db) → P db → P (perform op db)
  unfolding perform opsark_admin.Accounts.reconcile
  perform-Keeps (Operation.adjust u delta reason key admin_id now) db h =
      (Keeps-transaction _ (
          adjust-Keeps (balance-Keeps keeps_change frame) (lock_account-Keeps keeps_change frame) u
            delta reason key admin_id now (keeps_change u _))).at
        db h
  perform-Keeps (Operation.reserve u id key hash amount now) db h =
      (Keeps-transaction _ (reserve-Keeps keeps_change frame u id key hash amount now)).at db h
  perform-Keeps (Operation.begin_direct_call u id key hash now) db h =
      (Keeps-transaction _ (begin_direct_call-Keeps keeps_change frame u id key hash now)).at db h
  perform-Keeps (Operation.settle id s now) db h =
      (Keeps-transaction _ (settle-Keeps keeps_change frame id s now)).at db h
  perform-Keeps (Operation.refresh actor now) db h =
      (Keeps-transaction _ (refresh_reconciliations-Keeps keeps_change frame actor now)).at db h
  perform-Keeps (Operation.reconcile id actual reason admin_id now) db h =
      (reconcile_from-Keeps (balance-Keeps keeps_change frame)
          (lock_account-Keeps keeps_change frame) db h (settle-Keeps keeps_change frame)
          (close_stale_call-Keeps keeps_change frame) id actual reason admin_id now).at
        db h

pub frame-IsBalanced :
    (db : Db) (reservations : Table ModelReservation) (calls : Table ModelCall)
    → IsBalanced db
    → IsBalanced (record db { reservations = reservations; calls = calls })
frame-IsBalanced db reservations calls h = record {
  available_sum = h.available_sum;
  reserved_sum = h.reserved_sum;
  nonneg = h.nonneg;
}

pub perform-IsBalanced : (op : Operation) (db : Db) → IsBalanced db → IsBalanced (perform op db)
perform-IsBalanced = perform-Keeps change-IsBalanced frame-IsBalanced

-- From balances that agree with the ledger, whatever requests are made in whatever order, each
-- committed or rolled back, every balance stays
-- the sum of the ledger's entries for its user, and no balance becomes negative.
pub perform_all-IsBalanced :
    (ops : List Operation) (db : Db) → IsBalanced db → IsBalanced (perform_all ops db)
unfolding perform_all
perform_all-IsBalanced [] db h = h
perform_all-IsBalanced (op ∷ ops) db h =
    perform_all-IsBalanced ops (perform op db) (perform-IsBalanced op db h)

pub perform-IsSound : (op : Operation) (db : Db) → IsSound db → IsSound (perform op db)
unfolding perform
perform-IsSound (Operation.adjust u delta reason key admin_id now) db h =
    (Keeps-transaction _ (adjust-IsSound u delta reason key admin_id now)).at db h
perform-IsSound (Operation.reserve u id key hash amount now) db h =
    transaction_lem IsSound (opsark_admin.Credits.reserve u id key hash amount now) db h
      (λ _ done. reserve-IsSound u id key hash amount now db h done)
perform-IsSound (Operation.begin_direct_call u id key hash now) db h =
    transaction_lem IsSound (opsark_admin.Credits.begin_direct_call u id key hash now) db h
      (λ _ done. begin_direct_call-IsSound u id key hash now db h)
perform-IsSound (Operation.settle id s now) db h =
    transaction_lem IsSound (opsark_admin.Credits.Settle.settle id s now) db h
      (λ _ done. settle-IsSound id s now db h)
perform-IsSound (Operation.refresh actor now) db h =
    transaction_lem IsSound (refresh_reconciliations actor now) db h
      (λ _ done. refresh_reconciliations-IsSound actor now db h)
perform-IsSound (Operation.reconcile id actual reason admin_id now) db h =
    reconcile-IsSound id actual reason admin_id now db h

-- From sound accounts, journal and ledger, whatever requests are made in whatever order, each
-- committed or rolled back, the reserved balance
-- of every user stays the sum of what the unresolved calls hold, and no call that is unresolved was
-- charged.
pub perform_all-IsSound :
    (ops : List Operation) (db : Db) → IsSound db → IsSound (perform_all ops db)
unfolding perform_all
perform_all-IsSound [] db h = h
perform_all-IsSound (op ∷ ops) db h =
    perform_all-IsSound ops (perform op db) (perform-IsSound op db h)
