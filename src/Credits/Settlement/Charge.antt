-- ===== src/Credits/Settlement/Charge.antt =====
-- app/credits.py, `settle`: what the gateway's settlement of an open direct call charges, and that
-- it charges once.
use opsark_admin.Common.{
  ℕ, ◌≡◌, refl, true, false, ◌&&◌, not, none, some, arith, ◌≢◌, Bool-cases, Option-cases, inl, inr,
}
use opsark_admin.Common.Int.{
  ℤ, pos, ◌-ℤ◌, neg, ◌≤ℤ◌, ltb_ℤ, eqb_ℤ, option_eqb_ℤ, int_laws, eq_of_parts,
}
use opsark_admin.Common.Table.{Table, get, update, get-update_self, get-update_ne}
use opsark_admin.Errors.{ok}
use opsark_admin.Exec.{◌>>=◌}
use opsark_admin.Models.{Db, CreditAccount, ModelReservation}
use opsark_admin.Credits.{changed, lock_account, is_open, is_unresolved, is_closed}
use opsark_admin.Credits.Settle.{
  Settlement, reported, final_state, set_outcome, contradicts, charge_direct_call,
  settle_direct_call, settle_row, settle,
}
use opsark_admin.Credits.Balance.{available_of, reserved_of}
use opsark_admin.Credits.Sound.{IsSound}
use opsark_admin.Credits.Settlement.{
  usage_change, sound_row, charge_direct_call_lem, charge_nothing,
}

available_of_found :
    (u : ℕ) (a : CreditAccount) (t : Table CreditAccount)
    → get u t ≡ some a
    → available_of u t ≡ a.available
available_of_found u a t e = ground arith

reserved_of_found :
    (u : ℕ) (a : CreditAccount) (t : Table CreditAccount)
    → get u t ≡ some a
    → reserved_of u t ≡ a.reserved
reserved_of_found u a t e = ground arith

-- What a settlement of a direct call leaves behind: the user's balance is lower by the usage, the
-- row is closed with it, and nothing else of accounts and journal has changed.
pub record IsCharged (id : ℕ) (row : ModelReservation) (s : Settlement) (actual : ℤ)
    (account : CreditAccount) (db db' : Db) : Type 0 where
  pub available : available_of row.user_id db'.accounts ≡ account.available -ℤ actual
  pub reserved : reserved_of row.user_id db'.accounts ≡ account.reserved
  pub others : (v : ℕ) → v ≢ row.user_id → get v db'.accounts ≡ get v db.accounts
  pub closed : get id db'.reservations ≡ some (set_outcome actual (final_state s) row)
  pub rest : (j : ℕ) → j ≢ id → get j db'.reservations ≡ get j db.reservations
  pub unlocked : get row.user_id db'.accounts ≢ none

module _ (id : ℕ) (row : ModelReservation) (db : Db) (h : IsSound db)
    (found : get id db.reservations ≡ some row) (s : Settlement) (now : ℕ) (actual : ℤ)
    (account : CreditAccount) (there : get row.user_id db.accounts ≡ some account)
    (enough : ltb_ℤ account.available actual ≡ false) (live : is_unresolved row.state ≡ true) where
  charged :
      get row.user_id (update row.user_id (changed (neg actual) (pos 0)) db.accounts)
      ≡ some (changed (neg actual) (pos 0) account)
  charged = rw (get-update_self row.user_id (changed (neg actual) (pos 0)) db.accounts, there) refl

  charge_direct_call-IsCharged :
      IsCharged id row s actual account db (charge_direct_call id row s actual now db).1
  unfolding changed usage_change
  charge_direct_call-IsCharged = elim (Bool-cases (eqb_ℤ actual (pos 0))) [
    | inl no_usage ↦
        rw (charge_nothing id row db h found s actual now account there enough no_usage) (record {
          available =
              let zero : actual ≡ pos 0 = eq_of_parts actual (pos 0) (ground arith) in
              rw (available_of_found row.user_id account db.accounts there, zero) (omega int_laws);
          reserved = ground arith;
          others = λ v ne. refl;
          closed =
              rw (get-update_self id (set_outcome actual (final_state s)) db.reservations, found)
                refl;
          rest = λ j ne. get-update_ne id j (set_outcome actual (final_state s)) db.reservations ne;
          unlocked = ground arith;
        })
    | inr some_usage ↦
        rw
          (charge_direct_call_lem id row db h found s actual now account there live enough
            some_usage)
          (record {
            available =
                rw (available_of_found row.user_id (changed (neg actual) (pos 0) account) _ charged)
                  (omega int_laws);
            reserved =
                rw (reserved_of_found row.user_id (changed (neg actual) (pos 0) account) _ charged)
                  (omega int_laws);
            others =
                λ v ne. get-update_ne row.user_id v (changed (neg actual) (pos 0)) db.accounts ne;
            closed =
                rw (get-update_self id (set_outcome actual (final_state s)) db.reservations, found)
                  refl;
            rest =
                λ j ne. get-update_ne id j (set_outcome actual (final_state s)) db.reservations ne;
            unlocked = λ e. cc (charged, e);
          })
  ]

settle_closed :
    (id : ℕ) (s : Settlement) (now : ℕ) (db : Db) (row : ModelReservation)
    → get id db.reservations ≡ some row
    → is_closed row.state ≡ true
    → get row.user_id db.accounts ≢ none
    → s.allow_overage ≡ false
    → settle id s now db ≡ (ok tt, db)
unfolding settle settle_row lock_account ◌>>=◌
settle_closed id s now db row found over unlocked automatic =
    elim (Option-cases (get row.user_id db.accounts)) [
      | inl missing ↦ absurd (unlocked missing)
      | inr (account, there) ↦
          let quiet : (s.allow_overage && not (option_eqb_ℤ row.actual s.actual)) ≡ false =
            ground arith in
          rw (found, there, over, quiet)
    ]

module _ (id : ℕ) (row : ModelReservation) (db : Db) (h : IsSound db)
    (found : get id db.reservations ≡ some row) (s : Settlement) (now : ℕ) (actual : ℤ)
    (account : CreditAccount) (there : get row.user_id db.accounts ≡ some account)
    (fresh : is_open row.state ≡ true) (direct : row.amount ≡ pos 0)
    (known : reported s ≡ some actual) (valid : pos 0 ≤ℤ actual)
    (enough : actual ≤ℤ account.available) where
  settle_eq_charge : settle id s now db ≡ charge_direct_call id row s actual now db
  unfolding settle settle_row lock_account settle_direct_call ◌>>=◌
  settle_eq_charge =
      let open_yet : is_closed row.state ≡ false = ground arith in
      let blank : row.actual ≡ none = (sound_row id row db h found).1 fresh in
      let agrees : contradicts row.actual actual ≡ false = ground arith in
      let nothing_held : eqb_ℤ row.amount (pos 0) ≡ true = ground arith in
      let nonneg : ltb_ℤ actual (pos 0) ≡ false = ground arith in
      rw (found, there, open_yet, nothing_held, known, nonneg, agrees)

  -- A settlement of an open direct call whose usage the balance covers debits exactly that usage
  -- from the user's available balance and leaves the reserved balance, other users' accounts and
  -- other calls' rows alone; the call's row is closed with the usage on record.
  pub settle-IsCharged : IsCharged id row s actual account db (settle id s now db).1
  settle-IsCharged = rw settle_eq_charge (
      charge_direct_call-IsCharged id row db h found s now actual account there (ground arith)
        (ground arith))

  -- Once a settlement of an open direct call was covered and charged, a second automatic settlement
  -- of the call succeeds and changes nothing, whatever usage it reports: no call is charged twice.
  pub settle-settle :
      (s' : Settlement) (now' : ℕ)
      → s'.allow_overage ≡ false
      → settle id s' now' (settle id s now db).1 ≡ (ok tt, (settle id s now db).1)
  settle-settle s' now' automatic =
      settle_closed id s' now' (settle id s now db).1 (set_outcome actual (final_state s) row)
        settle-IsCharged.closed (ground arith) settle-IsCharged.unlocked automatic
