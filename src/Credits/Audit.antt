-- ===== src/Credits/Audit.antt =====
-- app/credits.py, `change`: the ledger as an audit trail. Each operation key of a user is entered
-- once, and each entry tells the balances that it led to.
use opsark_admin.Common.{
  ℕ, ◌+◌, ◌≤◌, ◌≡◌, refl, true, false, ◌&&◌, some, List, [], ◌∷◌, ◌++◌, inl, inr, arith, ◌==◌,
  if◌then◌else◌, Bool-cases, sym, subst,
}
use mathlib.Core.List.{append-nil, append_assoc}
use opsark_admin.Common.Table.{get}
use opsark_admin.Exec.{◌>>=◌}
use opsark_admin.Exec.Keeps.{Keeps}
use opsark_admin.Models.{Db, CreditAccount, CreditLedger, OperationKey, operation_key_eq}
use opsark_admin.Credits.{Change, change, changed, apply_change, ledger_entry, has_entry}
use opsark_admin.Credits.Balance.{
  delta_total, reserved_delta_total, delta_total-append, reserved_delta_total-append, IsBalanced,
  after_change, change_cases, change-IsBalanced,
}

-- How many entries a user has for a key.
abbrev pub entries_for : ℕ → OperationKey → List CreditLedger → ℕ
entries_for u key [] = 0
entries_for u key (e ∷ l) =
    (if (e.user_id == u) && operation_key_eq e.operation_key key then 1 else 0)
    + entries_for u key l

entries_for-append :
    (u : ℕ) (key : OperationKey) (l : List CreditLedger) (e : CreditLedger)
    → entries_for u key (l ++ e ∷ [])
      ≡ entries_for u key l
        + (if (e.user_id == u) && operation_key_eq e.operation_key key then 1 else 0)
entries_for-append u key [] e = omega arith
entries_for-append u key (x ∷ l) e = omega (arith, entries_for-append u key l e)

entries_for_none :
    (u : ℕ) (key : OperationKey) (l : List CreditLedger)
    → has_entry u key l ≡ false
    → entries_for u key l ≡ 0
unfolding has_entry
entries_for_none u key [] free = refl
entries_for_none u key (e ∷ l) free = ground (arith, entries_for_none u key l)

operation_key_eq_sound : (a b : OperationKey) → operation_key_eq a b ≡ true → a ≡ b
operation_key_eq_sound a b same = ground arith

-- No key is entered twice for a user.
abbrev pub IsOnce : List CreditLedger → Type 0
IsOnce l = (u : ℕ) (key : OperationKey) → entries_for u key l ≤ 1

append-IsOnce :
    (l : List CreditLedger) (e : CreditLedger)
    → has_entry e.user_id e.operation_key l ≡ false
    → IsOnce l
    → IsOnce (l ++ e ∷ [])
append-IsOnce l e free h u key =
    elim (Bool-cases ((e.user_id == u) && operation_key_eq e.operation_key key)) [
      | inl own ↦
          let same_user : e.user_id ≡ u = ground (arith, own) in
          let same_key = operation_key_eq_sound e.operation_key key (ground (arith, own)) in
          let zero : entries_for u key l ≡ 0 =
            entries_for_none u key l (rw (same_user, same_key) at free) in
          rw (entries_for-append u key l e, own, zero) (omega arith)
      | inr other ↦ rw (entries_for-append u key l e, other) (omega (arith, h u key))
    ]

-- The entries after those before tell the sums up to them.
abbrev pub AreAudited : List CreditLedger → List CreditLedger → Type 0
AreAudited before [] = Unit
AreAudited before (e ∷ l) =
    ((e.available_after ≡ delta_total e.user_id (before ++ e ∷ []))
      × (e.reserved_after ≡ reserved_delta_total e.user_id (before ++ e ∷ [])))
    × AreAudited (before ++ e ∷ []) l

append-AreAudited :
    (before l : List CreditLedger) (e : CreditLedger)
    → (e.available_after ≡ delta_total e.user_id ((before ++ l) ++ e ∷ []))
    → (e.reserved_after ≡ reserved_delta_total e.user_id ((before ++ l) ++ e ∷ []))
    → AreAudited before l
    → AreAudited before (l ++ e ∷ [])
append-AreAudited before [] e available reserved h =
    ((rw append-nil at available, rw append-nil at reserved), tt)
append-AreAudited before (x ∷ l) e available reserved h = (
  h.0,
  append-AreAudited (before ++ x ∷ []) l e
      (subst (λ k. e.available_after ≡ delta_total e.user_id (k ++ e ∷ [])) (shift before x l)
        available)
      (subst (λ k. e.reserved_after ≡ reserved_delta_total e.user_id (k ++ e ∷ []))
        (shift before x l) reserved)
      h.1,
)
  where
    shift :
        (before : List CreditLedger) (x : CreditLedger) (l : List CreditLedger)
        → before ++ x ∷ l ≡ (before ++ x ∷ []) ++ l
    shift before x l = sym (append_assoc before (x ∷ []) l)

-- Every balance is the sum of its entries, each entry tells the balances after it, and no key of a
-- user is entered twice.
pub record IsTrail (db : Db) : Type 0 where
  pub balanced : IsBalanced db
  pub audited : AreAudited [] db.ledger
  pub once : IsOnce db.ledger

change_taken :
    (u : ℕ) (c : Change) (db : Db)
    → has_entry u c.operation_key db.ledger ≡ true
    → (change u c db).1 ≡ db
unfolding change apply_change ◌>>=◌
change_taken u c db taken = ground (arith, taken)

module _ (u : ℕ) (c : Change) (row : CreditAccount) (db : Db) (h : IsBalanced db)
    (found : get u db.accounts ≡ some row) where
  abbrev entry : CreditLedger
  entry = ledger_entry u c (changed c.delta c.reserved_delta row)

  told_available : entry.available_after ≡ delta_total u (db.ledger ++ entry ∷ [])
  unfolding ledger_entry changed
  told_available = rw delta_total-append (ground (arith, h.available_sum u, found))

  told_reserved : entry.reserved_after ≡ reserved_delta_total u (db.ledger ++ entry ∷ [])
  unfolding ledger_entry changed
  told_reserved = rw reserved_delta_total-append (ground (arith, h.reserved_sum u, found))

  after_change-IsTrail :
      has_entry u c.operation_key db.ledger ≡ false
      → AreAudited [] db.ledger
      → IsOnce db.ledger
      → IsBalanced (after_change u c row db)
      → IsTrail (after_change u c row db)
  unfolding ledger_entry
  after_change-IsTrail free audited once balanced = record {
    balanced = balanced;
    audited = append-AreAudited [] db.ledger entry told_available told_reserved audited;
    once = append-IsOnce db.ledger entry free once;
  }

pub change-IsTrail : (u : ℕ) (c : Change) → Keeps IsTrail (change u c)
change-IsTrail u c = record {
  at = λ db h. elim (Bool-cases (has_entry u c.operation_key db.ledger)) [
    | inl taken ↦ rw (change_taken u c db taken) h
    | inr free ↦
        let balanced = (change-IsBalanced u c).at db h.balanced in
        elim (change_cases u c db) [
          | inl same ↦ rw same h
          | inr (row, found, covered, moved) ↦ rw moved (
              after_change-IsTrail u c row db h.balanced found free h.audited h.once
                (rw moved at balanced))
        ]
  ];
}
