-- ===== src/Credits/Balance.antt =====
-- app/credits.py: the balances against the ledger.
use opsark_admin.Common.{
  ℕ, ◌≡◌, refl, Option, none, some, List, [], ◌∷◌, ◌++◌, ◌⊎◌, inl, inr, arith, ◌==◌, if◌then◌else◌,
  Bool-cases, Option-cases, true,
}
use opsark_admin.Common.Int.{ℤ, pos, ◌+ℤ◌, ◌≤ℤ◌, int_laws}
use opsark_admin.Common.Table.{Table, get, update, get-update}
use opsark_admin.Errors.{ok}
use opsark_admin.Exec.{◌>>=◌}
use opsark_admin.Exec.Keeps.{Keeps}
use opsark_admin.Models.{Db, CreditAccount, CreditLedger}
use opsark_admin.Credits.{Change, change, changed, covers, apply_change, ledger_entry, has_entry}

-- The sum of a user's deltas over the ledger.
abbrev pub delta_total : ℕ → List CreditLedger → ℤ
delta_total u [] = pos 0
delta_total u (e ∷ l) = if e.user_id == u then e.delta +ℤ delta_total u l else delta_total u l

abbrev pub reserved_delta_total : ℕ → List CreditLedger → ℤ
reserved_delta_total u [] = pos 0
reserved_delta_total u (e ∷ l) =
    if e.user_id == u
    then e.reserved_delta +ℤ reserved_delta_total u l
    else reserved_delta_total u l

abbrev pub available_of : ℕ → Table CreditAccount → ℤ
available_of u t = elim (get u t) [ none ↦ pos 0 | some a ↦ a.available ]

abbrev pub reserved_of : ℕ → Table CreditAccount → ℤ
reserved_of u t = elim (get u t) [ none ↦ pos 0 | some a ↦ a.reserved ]

abbrev pub IsNonneg : Option CreditAccount → Type 0
IsNonneg none = Unit
IsNonneg (some a) = (pos 0 ≤ℤ a.available) × (pos 0 ≤ℤ a.reserved)

-- Every balance is the sum of the ledger's entries for its user, and no balance is negative.
pub record IsBalanced (db : Db) : Type 0 where
  pub available_sum : (u : ℕ) → available_of u db.accounts ≡ delta_total u db.ledger
  pub reserved_sum : (u : ℕ) → reserved_of u db.accounts ≡ reserved_delta_total u db.ledger
  pub nonneg : (u : ℕ) → IsNonneg (get u db.accounts)

pub delta_total-append :
    (u : ℕ) (l : List CreditLedger) (e : CreditLedger)
    → delta_total u (l ++ e ∷ [])
      ≡ (if e.user_id == u then delta_total u l +ℤ e.delta else delta_total u l)
delta_total-append u [] e = elim (Bool-cases (e.user_id == u)) [
  | inl h ↦ rw h (omega int_laws)
  | inr h ↦ rw h
]
delta_total-append u (x ∷ l) e = grind (int_laws, delta_total-append u l e)

pub reserved_delta_total-append :
    (u : ℕ) (l : List CreditLedger) (e : CreditLedger)
    → reserved_delta_total u (l ++ e ∷ []) ≡ (
        if e.user_id == u
        then reserved_delta_total u l +ℤ e.reserved_delta
        else reserved_delta_total u l)
reserved_delta_total-append u [] e = elim (Bool-cases (e.user_id == u)) [
  | inl h ↦ rw h (omega int_laws)
  | inr h ↦ rw h
]
reserved_delta_total-append u (x ∷ l) e = grind (int_laws, reserved_delta_total-append u l e)

-- The rows after a change that went through.
abbrev pub after_change : ℕ → Change → CreditAccount → Db → Db
after_change user_id c row db = record db {
  accounts = update user_id (changed c.delta c.reserved_delta) db.accounts;
  ledger = db.ledger ++ ledger_entry user_id c (changed c.delta c.reserved_delta row) ∷ [];
}

module _ (u : ℕ) (c : Change) (row : CreditAccount) (db : Db) (h : IsBalanced db)
    (found : get u db.accounts ≡ some row)
    (covered : covers c.delta c.reserved_delta row ≡ true) where
  after_change-IsBalanced : IsBalanced (after_change u c row db)
  unfolding changed covers ledger_entry
  after_change-IsBalanced = record {
    available_sum = λ v. rw delta_total-append (
        ground (
          arith,
          h.available_sum v,
          get-update u v (changed c.delta c.reserved_delta) db.accounts,
        ));
    reserved_sum = λ v. rw reserved_delta_total-append (
        ground
          (arith, h.reserved_sum v, get-update u v (changed c.delta c.reserved_delta) db.accounts));
    nonneg = λ v.
        ground (arith, h.nonneg v, get-update u v (changed c.delta c.reserved_delta) db.accounts);
  }

-- A change goes through, or it raises and leaves every row as it was.
pub change_cases :
    (u : ℕ) (c : Change) (db : Db)
    → ((change u c db).1 ≡ db)
      ⊎ ((row : CreditAccount) × (get u db.accounts ≡ some row)
          × (covers c.delta c.reserved_delta row ≡ true)
          × ((change u c db).1 ≡ after_change u c row db))
unfolding change apply_change ◌>>=◌
change_cases u c db = elim (Option-cases (get u db.accounts)) [
  | inl missing ↦ rw missing (inl refl)
  | inr (row, found) ↦ elim (Bool-cases (covers c.delta c.reserved_delta row)) [
    | inl yes_covers ↦ elim (Bool-cases (has_entry u c.operation_key db.ledger)) [
      | inl taken ↦ rw (found, yes_covers, taken) (inl refl)
      | inr free ↦ rw (found, yes_covers, free) (inr (row, refl, yes_covers, refl))
    ]
    | inr short ↦ rw (found, short) (inl refl)
  ]
]

-- A change that returns has found the row and covered it.
pub change_ok :
    (u : ℕ) (c : Change) (db : Db)
    → (change u c db).0 ≡ ok tt
    → (row : CreditAccount) × (get u db.accounts ≡ some row)
      × (covers c.delta c.reserved_delta row ≡ true)
      × ((change u c db).1 ≡ after_change u c row db)
unfolding change apply_change ◌>>=◌
change_ok u c db e = elim (Option-cases (get u db.accounts)) [
  | inl missing ↦ cc (rw missing at e)
  | inr (row, found) ↦ elim (Bool-cases (covers c.delta c.reserved_delta row)) [
    | inl enough ↦ elim (Bool-cases (has_entry u c.operation_key db.ledger)) [
      | inl taken ↦ cc (rw (found, enough, taken) at e)
      | inr free ↦ (row, found, enough, rw (found, enough, free))
    ]
    | inr short ↦ cc (rw (found, short) at e)
  ]
]

-- Whatever is changed, on success, refusal or a key that is taken, the balances go on matching
-- the ledger and stay at zero or above.
pub change-IsBalanced : (u : ℕ) (c : Change) → Keeps IsBalanced (change u c)
change-IsBalanced u c = record {
  at = λ db h. elim (change_cases u c db) [
    | inl same ↦ rw same h
    | inr (row, found, covered, moved) ↦
        rw moved (after_change-IsBalanced u c row db h found covered)
  ];
}
