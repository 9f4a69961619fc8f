-- ===== src/Accounts/Sound.antt =====
-- app/accounts.py, `adjust` and `reconcile`: the journal and the reserved balances stay in
-- agreement.
use opsark_admin.Common.{
  ℕ, ◌≡◌, refl, true, false, Bool-cases, some, String, arith, inl, inr, ap, ◌==◌, if◌then◌else◌,
}
use opsark_admin.Common.Int.{ℤ, pos, ◌+ℤ◌, int_laws, eq_of_parts, pos_part, neg_part}
use opsark_admin.Common.Table.{get, update, get-update}
use opsark_admin.Exec.Keeps.{Keeps, keeps_rules}
use opsark_admin.Models.{Db, CreditAccount, OperationKey, operation_key_eq}
use opsark_admin.Credits.{Change, change, changed, covers, ledger_entry, balance, lock_account}
use opsark_admin.Credits.Balance.{after_change, change_cases, reserved_of}
use opsark_admin.Credits.Holds.{is_charged-append, held_total}
use opsark_admin.Credits.Sound.{IsSound, other_row}
use opsark_admin.Credits.Settlement.Whole.{settle-IsSound}
use opsark_admin.Credits.Recovery.{close_stale_call-Keeps}
use opsark_admin.Accounts.{adjustment, adjust, reconcile}
use opsark_admin.Accounts.Balanced.{adjust-Keeps, reconcile_from-Keeps}

plus_none : (x t : ℤ) → x ≡ t → x +ℤ pos 0 ≡ t
plus_none x t h = eq_of_parts (x +ℤ pos 0) t (omega (int_laws, ap pos_part h, ap neg_part h))

module _ (u : ℕ) (c : Change) (account : CreditAccount) (db : Db) (h : IsSound db)
    (there : get u db.accounts ≡ some account)
    (covered : covers c.delta c.reserved_delta account ≡ true) (free : c.reserved_delta ≡ pos 0)
    (other : (j : ℕ) → operation_key_eq c.operation_key (OperationKey.settle j) ≡ false) where
  reserved_same :
      (v : ℕ)
      → reserved_of v (update u (changed c.delta c.reserved_delta) db.accounts) ≡ (
          if u == v
          then reserved_of v db.accounts +ℤ c.reserved_delta
          else reserved_of v db.accounts)
  unfolding changed
  reserved_same v = ground (arith, get-update u v (changed c.delta c.reserved_delta) db.accounts)

  -- A change that reserves nothing and charges no call.
  after_change-IsSound : IsSound (after_change u c account db)
  unfolding changed covers ledger_entry
  after_change-IsSound = record {
    nonneg = λ v.
        ground (arith, h.nonneg v, get-update u v (changed c.delta c.reserved_delta) db.accounts);
    holds = λ v. elim (Bool-cases (u == v)) [
      | inl mine ↦
          rw (reserved_same v, mine, free)
            (plus_none (reserved_of v db.accounts) (held_total v db.reservations) (h.holds v))
      | inr else_ ↦ rw (reserved_same v, else_) (h.holds v)
    ];
    amounts = h.amounts;
    rows = λ j.
        other_row j (get j db.reservations) db.accounts (after_change u c account db).accounts
          db.ledger (after_change u c account db).ledger
          (λ v. ground (arith, get-update u v (changed c.delta c.reserved_delta) db.accounts))
          (ground (
            arith,
            other j,
            is_charged-append j db.ledger
                (ledger_entry u c (changed c.delta c.reserved_delta account)),
          ))
          (h.rows j);
  }

-- The same of the statement that makes such a change.
pub free_change-Keeps :
    (u : ℕ) (c : Change)
    → c.reserved_delta ≡ pos 0
    → ((j : ℕ) → operation_key_eq c.operation_key (OperationKey.settle j) ≡ false)
    → Keeps IsSound (change u c)
free_change-Keeps u c free other = record {
  at = λ db h. elim (change_cases u c db) [
    | inl same ↦ rw same h
    | inr (account, there, covered, moved) ↦
        rw moved (after_change-IsSound u c account db h there covered free other)
  ];
}

adjustment-Keeps :
    (u : ℕ) (delta : ℤ) (reason : String) (key admin_id now : ℕ)
    → Keeps IsSound (change u (adjustment delta reason key admin_id now))
unfolding adjustment
adjustment-Keeps u delta reason key admin_id now =
    free_change-Keeps u (adjustment delta reason key admin_id now) refl (λ j. refl)

balance-Keeps : (u : ℕ) → Keeps IsSound (balance u)
unfolding balance
balance-Keeps u = search keeps_rules

lock_account-Keeps : (u : ℕ) → Keeps IsSound (lock_account u)
unfolding lock_account
lock_account-Keeps u = search keeps_rules

-- From sound accounts, journal and ledger an adjustment leads to sound ones.
pub adjust-IsSound :
    (u : ℕ) (delta : ℤ) (reason : String) (key admin_id now : ℕ)
    → Keeps IsSound (adjust u delta reason key admin_id now)
adjust-IsSound u delta reason key admin_id now =
    adjust-Keeps balance-Keeps lock_account-Keeps u delta reason key admin_id now
      (adjustment-Keeps u delta reason key admin_id now)

-- From sound accounts, journal and ledger a staff member's reconciliation of a call leads to sound
-- ones, also where it records the usage and raises.
pub reconcile-IsSound :
    (id : ℕ) (actual : ℤ) (reason : String) (admin_id now : ℕ) (db : Db)
    → IsSound db
    → IsSound (reconcile id actual reason admin_id now db).1
unfolding reconcile
reconcile-IsSound id actual reason admin_id now db h =
    (reconcile_from-Keeps balance-Keeps lock_account-Keeps db h
        (λ id s now. record { at = settle-IsSound id s now }) close_stale_call-Keeps id actual
        reason admin_id now).at
      db h
