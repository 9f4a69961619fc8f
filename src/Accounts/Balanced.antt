-- ===== src/Accounts/Balanced.antt =====
-- app/accounts.py, `adjust` and `reconcile`: balances, ledger and journal stay in agreement.
use opsark_admin.Common.{ℕ, Option, String}
use opsark_admin.Common.Int.{ℤ}
use opsark_admin.Errors.{
  Error, api_error, integrity_error, value_error, unhandled_error, transport, cancelled_error,
}
use opsark_admin.Exec.{Exec, catch, ◌>>=◌}
use opsark_admin.Exec.Keeps.{
  Keeps, keeps_rules, Keeps-modify, Keeps-bind, Keeps-gets, Keeps-match_option, Keeps-catch,
  Keeps-if, Keeps-raise,
}
use opsark_admin.Models.{Db, ModelReservation, ModelCall}
use opsark_admin.Credits.{change, balance, lock_account}
use opsark_admin.Credits.Settle.{Settlement, settle}
use opsark_admin.Credits.Refresh.{close_stale_call}
use opsark_admin.Accounts.{
  adjustment, on_conflict, adjust, on_refusal, reconcile_live, reconcile_from,
}

module _ {P : Db → Type 0} (keeps_balance : (u : ℕ) → Keeps P (balance u))
    (keeps_lock : (u : ℕ) → Keeps P (lock_account u)) where
  on_conflict-Keeps : (e : Error) → Keeps P (on_conflict e)
  unfolding on_conflict
  on_conflict-Keeps (api_error status code) = search keeps_rules
  on_conflict-Keeps integrity_error = search keeps_rules
  on_conflict-Keeps value_error = search keeps_rules
  on_conflict-Keeps unhandled_error = search keeps_rules
  on_conflict-Keeps (transport e) = search keeps_rules
  on_conflict-Keeps cancelled_error = search keeps_rules

  pub adjust-Keeps :
      (u : ℕ) (delta : ℤ) (reason : String) (key admin_id now : ℕ)
      → Keeps P (change u (adjustment delta reason key admin_id now))
      → Keeps P (adjust u delta reason key admin_id now)
  unfolding adjust
  adjust-Keeps u delta reason key admin_id now k = Keeps-bind _ _ (keeps_balance u) λ b.
      Keeps-bind _ _ (Keeps-gets _) λ previous.
        Keeps-match_option previous _ _
          (Keeps-bind _ _ (Keeps-catch _ _ k on_conflict-Keeps) (λ _. keeps_balance u))
          (λ entry. Keeps-if _ _ _ (keeps_balance u) (Keeps-raise _))

  module _ (start : Db) (p : P start)
      (keeps_settle : (id : ℕ) (s : Settlement) (now : ℕ) → Keeps P (settle id s now))
      (keeps_close : (id : ℕ) (call : Option ModelCall) (now : ℕ)
        → Keeps P (close_stale_call id call now)) where
    rollback-Keeps : Keeps P (opsark_admin.Exec.modify (λ db. start))
    rollback-Keeps = Keeps-modify _ (λ db h. p)

    on_refusal-Keeps : (id : ℕ) (actual : ℤ) (e : Error) → Keeps P (on_refusal start id actual e)
    unfolding on_refusal
    on_refusal-Keeps id actual e = search (keeps_rules, rollback-Keeps) depth 8

    reconcile_live-Keeps :
        (id : ℕ) (row : ModelReservation) (actual : ℤ) (reason : String) (admin_id now : ℕ)
        → Keeps P (reconcile_live start id row actual reason admin_id now)
    unfolding reconcile_live
    reconcile_live-Keeps id row actual reason admin_id now =
        search (keeps_rules, keeps_close, keeps_balance, on_refusal-Keeps, keeps_settle) depth 12

    pub reconcile_from-Keeps :
        (id : ℕ) (actual : ℤ) (reason : String) (admin_id now : ℕ)
        → Keeps P (reconcile_from start id actual reason admin_id now)
    unfolding reconcile_from
    reconcile_from-Keeps id actual reason admin_id now =
        search (keeps_rules, keeps_lock, keeps_balance, reconcile_live-Keeps) depth 12
