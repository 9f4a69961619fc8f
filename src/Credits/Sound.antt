-- ===== src/Credits/Sound.antt =====
-- app/credits.py: what holds of accounts, journal and ledger between two operations, and the three
-- ways in which the operations write: to a row alone, to a row with a balance, and a new row.
use opsark_admin.Common.{
  ℕ, ◌≡◌, Bool, true, false, ◌||◌, Option, none, some, List, arith, ◌==◌, if◌then◌else◌, ap, ◌∙◌,
  ◌≢◌, Bool-cases, inl, inr,
}
use opsark_admin.Common.Int.{ℤ, pos, ◌+ℤ◌, ◌≤ℤ◌, int_laws, eq_of_parts, pos_part, neg_part}
use opsark_admin.Common.Table.{Table, get, update, get-update}
use opsark_admin.Models.{
  Db, CreditAccount, CreditLedger, OperationKey, ModelReservation, operation_key_eq,
}
use opsark_admin.Credits.{Change, changed, covers, ledger_entry, is_open, is_unresolved}
use opsark_admin.Credits.Balance.{IsNonneg, reserved_of, after_change}
use opsark_admin.Credits.Holds.{
  held_amount, held_for, held_total, AmountsNonneg, is_charged, held_total-update,
  update-AmountsNonneg, is_charged-append,
}

abbrev pub has_account : ℕ → Table CreditAccount → Bool
has_account u t = elim (get u t) [ none ↦ false | some a ↦ true ]

-- An unresolved row was not charged yet, an open one has no usage on record, and every row's user
-- has an account; a call that has no row was never charged.
abbrev pub IsSoundRow :
    ℕ → Option ModelReservation → Table CreditAccount → List CreditLedger → Type 0
IsSoundRow id none accounts ledger = is_charged id ledger ≡ false
IsSoundRow id (some row) accounts ledger =
    (has_account row.user_id accounts ≡ true)
    × (is_open row.state ≡ true → row.actual ≡ none)
    × (is_unresolved row.state ≡ true → is_charged id ledger ≡ false)

pub record IsSound (db : Db) : Type 0 where
  pub nonneg : (u : ℕ) → IsNonneg (get u db.accounts)
  -- The reserved balance is what the unresolved rows hold.
  pub holds : (u : ℕ) → reserved_of u db.accounts ≡ held_total u db.reservations
  pub amounts : AmountsNonneg db.reservations
  pub rows : (id : ℕ) → IsSoundRow id (get id db.reservations) db.accounts db.ledger

same_rest : (x b t c : ℤ) → x +ℤ b ≡ t +ℤ c → c ≡ b → t ≡ x
same_rest x b t c h e =
    eq_of_parts t x (omega (int_laws, ap pos_part h, ap neg_part h, ap pos_part e, ap neg_part e))

moved_rest : (x b t c d : ℤ) → x +ℤ b ≡ t +ℤ c → b +ℤ d ≡ c → t +ℤ d ≡ x
moved_rest x b t c d h e =
    eq_of_parts (t +ℤ d) x
      (omega (int_laws, ap pos_part h, ap neg_part h, ap pos_part e, ap neg_part e))

-- A row stays sound where the accounts are the same ones and the call was not charged.
pub other_row :
    (j : ℕ) (o : Option ModelReservation) (accounts accounts' : Table CreditAccount)
    (ledger ledger' : List CreditLedger)
    → ((u : ℕ) → has_account u accounts' ≡ has_account u accounts)
    → is_charged j ledger' ≡ is_charged j ledger
    → IsSoundRow j o accounts ledger
    → IsSoundRow j o accounts' ledger'
other_row j none accounts accounts' ledger ledger' same charged old = charged ∙ old
other_row j (some row) accounts accounts' ledger ledger' same charged old =
    ground (arith, same row.user_id)

-- The row after a write, for the call that it belongs to and for every other call.
rows_after :
    (id j : ℕ) (f : ModelReservation → ModelReservation) (row : ModelReservation)
    (t : Table ModelReservation) (Q : Option ModelReservation → Type 0)
    → get id t ≡ some row
    → (j ≡ id → Q (some (f row)))
    → (id ≢ j → Q (get j t))
    → Q (get j (update id f t))
rows_after id j f row t Q found here there = elim (Bool-cases (id == j)) [
  | inl hit ↦
      let e : j ≡ id = ground (arith, hit) in rw (get-update id j f t, hit, e, found) (here e)
  | inr miss ↦ rw (get-update id j f t, miss) (there (ground (arith, miss)))
]

module _ (id : ℕ) (f : ModelReservation → ModelReservation) (row : ModelReservation) (db : Db)
    (h : IsSound db) (found : get id db.reservations ≡ some row)
    (same_user : (f row).user_id ≡ row.user_id) (p : pos 0 ≤ℤ (f row).amount)
    (blank : is_open (f row).state ≡ true → (f row).actual ≡ none)
    (unresolved : is_unresolved (f row).state ≡ true → is_unresolved row.state ≡ true) where
  held_for_same :
      (u : ℕ) → held_amount (f row) ≡ held_amount row → held_for u (f row) ≡ held_for u row
  held_for_same u e = rw (same_user, e)

  -- A write to a row that goes on holding what it held.
  pub write-IsSound :
      held_amount (f row) ≡ held_amount row
      → IsSound (record db { reservations = update id f db.reservations })
  write-IsSound same_held = record {
    nonneg = h.nonneg;
    holds = λ u.
        h.holds u
        ∙ same_rest (held_total u (update id f db.reservations)) (held_for u row)
            (held_total u db.reservations) (held_for u (f row))
            (held_total-update u id f row db.reservations found) (held_for_same u same_held);
    amounts = update-AmountsNonneg id f row db.reservations h.amounts found p;
    rows = λ j.
        rows_after id j f row db.reservations (λ o. IsSoundRow j o db.accounts db.ledger) found
          (λ e.
            let old : IsSoundRow id (some row) db.accounts db.ledger = rw found at (h.rows id) in
            ground (arith, e))
          (λ other. h.rows j);
  }

  module _ (c : Change) (account : CreditAccount)
      (owner : get row.user_id db.accounts ≡ some account)
      (covered : covers c.delta c.reserved_delta account ≡ true)
      (moved : held_amount row +ℤ c.reserved_delta ≡ held_amount (f row))
      (closes : (j : ℕ)
        → operation_key_eq c.operation_key (OperationKey.settle j) ≡ true
        → (j ≡ id) × (is_unresolved (f row).state ≡ false)) where
    reserved_after :
        (u : ℕ)
        → reserved_of u (update row.user_id (changed c.delta c.reserved_delta) db.accounts) ≡ (
            if row.user_id == u
            then reserved_of u db.accounts +ℤ c.reserved_delta
            else reserved_of u db.accounts)
    unfolding changed
    reserved_after u =
        ground (arith, get-update row.user_id u (changed c.delta c.reserved_delta) db.accounts)

    IsNonneg-after :
        (u : ℕ)
        → IsNonneg (get u (update row.user_id (changed c.delta c.reserved_delta) db.accounts))
    unfolding changed covers
    IsNonneg-after u =
        ground (
          arith,
          h.nonneg u,
          get-update row.user_id u (changed c.delta c.reserved_delta) db.accounts,
        )

    has_account_after :
        (u : ℕ)
        → has_account u (update row.user_id (changed c.delta c.reserved_delta) db.accounts)
          ≡ has_account u db.accounts
    has_account_after u =
        ground (arith, get-update row.user_id u (changed c.delta c.reserved_delta) db.accounts)

    holds_after :
        (u : ℕ)
        → reserved_of u (update row.user_id (changed c.delta c.reserved_delta) db.accounts)
          ≡ held_total u (update id f db.reservations)
    holds_after u = elim (Bool-cases (row.user_id == u)) [
      | inl mine ↦
          rw (reserved_after u, mine)
            (ap (λ r. r +ℤ c.reserved_delta) (h.holds u)
              ∙ moved_rest (held_total u (update id f db.reservations)) (held_for u row)
                  (held_total u db.reservations) (held_for u (f row)) c.reserved_delta
                  (held_total-update u id f row db.reservations found) (rw (same_user, mine) moved))
      | inr other ↦
          rw (reserved_after u, other)
            (h.holds u
              ∙ same_rest (held_total u (update id f db.reservations)) (held_for u row)
                  (held_total u db.reservations) (held_for u (f row))
                  (held_total-update u id f row db.reservations found) (rw (same_user, other)))
    ]

    abbrev accounts' : Table CreditAccount
    accounts' = (after_change row.user_id c account db).accounts

    abbrev ledger' : List CreditLedger
    ledger' = (after_change row.user_id c account db).ledger

    is_charged_after :
        (j : ℕ)
        → is_charged j ledger'
          ≡ (is_charged j db.ledger || operation_key_eq c.operation_key (OperationKey.settle j))
    unfolding ledger_entry
    is_charged_after j =
        is_charged-append j db.ledger
          (ledger_entry row.user_id c (changed c.delta c.reserved_delta account))

    this_row :
        (j : ℕ)
        → j ≡ id
        → IsSoundRow id (some row) db.accounts db.ledger
        → IsSoundRow j (some (f row)) accounts' ledger'
    this_row j e old =
        ground (arith, is_charged_after j, closes j, has_account_after (f row).user_id)

    -- A change of the balance with a write to the row that it is about, in either order.
    pub charge-IsSound : IsSound (record (after_change row.user_id c account db) {
      reservations = update id f db.reservations;
    })
    charge-IsSound = record {
      nonneg = IsNonneg-after;
      holds = holds_after;
      amounts = update-AmountsNonneg id f row db.reservations h.amounts found p;
      rows = λ j.
          rows_after id j f row db.reservations (λ o. IsSoundRow j o accounts' ledger') found
            (λ e. this_row j e (rw found at (h.rows id)))
            (λ other.
              other_row j (get j db.reservations) db.accounts accounts' db.ledger ledger'
                has_account_after (ground (arith, is_charged_after j, closes j)) (h.rows j));
    }
