-- ===== src/Credits/Settlement/Outcome.antt =====
-- app/credits.py, `settle_direct_call`: what the gateway's settlement of an open direct call leaves
-- behind, whatever usage is known.
use opsark_admin.Common.{
  ℕ, ◌≡◌, refl, true, false, none, some, arith, Bool-cases, Option-cases, inl, inr,
}
use opsark_admin.Common.Int.{ℤ, pos, ltb_ℤ, eqb_ℤ}
use opsark_admin.Common.Table.{get, get-update_self}
use opsark_admin.Errors.{Result, ok}
use opsark_admin.Exec.{◌>>=◌}
use opsark_admin.Models.{Db, CreditAccount, ModelReservation, released, needs_reconciliation}
use opsark_admin.Credits.{lock_account, write_reservations, is_open, is_unresolved, is_closed}
use opsark_admin.Credits.Settle.{
  Settlement, reported, write_reservation, contradicts, charge_direct_call, settle_direct_call,
  settle_row, settle, set_state, set_outcome, final_state,
}
use opsark_admin.Credits.Sound.{IsSound}
use opsark_admin.Credits.Settlement.{
  sound_row, owner, charge_direct_call_lem, charge_short, charge_nothing, nonneg_balance,
  final_shut,
}

-- It returns, the calls are left alone, the row is no longer open, and a call that was never
-- dispatched is released and costs nothing.
pub record IsClosedBy (id : ℕ) (s : Settlement) (db : Db) (p : Result (Unit {0}) × Db)
    : Type 0 where
  pub done : p.0 ≡ ok tt
  pub calls : p.1.calls ≡ db.calls
  pub row : (r : ModelReservation) × (get id p.1.reservations ≡ some r) × (is_open r.state ≡ false)
  pub free :
      s.no_dispatch ≡ true
      → (p.1.accounts ≡ db.accounts)
        × (p.1.ledger ≡ db.ledger)
        × ((r : ModelReservation) × (get id p.1.reservations ≡ some r)
            × (r.state ≡ released)
            × (r.actual ≡ some (pos 0)))

module _ (id : ℕ) (row : ModelReservation) (db : Db) (h : IsSound db)
    (found : get id db.reservations ≡ some row) (s : Settlement)
    (automatic : s.allow_overage ≡ false) (now : ℕ) where
  charged_nothing :
      (actual : ℤ) (account : CreditAccount)
      → get row.user_id db.accounts ≡ some account
      → reported s ≡ some actual
      → ltb_ℤ account.available actual ≡ false
      → eqb_ℤ actual (pos 0) ≡ true
      → IsClosedBy id s db (charge_direct_call id row s actual now db)
  charged_nothing actual account there known enough no_usage =
      rw (charge_nothing id row db h found s actual now account there enough no_usage) (record {
        done = refl;
        calls = refl;
        row = (
          set_outcome actual (final_state s) row,
          rw (get-update_self, found) refl,
          final_shut s,
        );
        free = λ unsent. (
          refl,
          refl,
          (
            set_outcome actual (final_state s) row,
            rw (get-update_self, found) refl,
            ground arith,
            ground arith,
          ),
        );
      })

  charge_direct_call-IsClosedBy :
      (actual : ℤ)
      → is_unresolved row.state ≡ true
      → reported s ≡ some actual
      → IsClosedBy id s db (charge_direct_call id row s actual now db)
  charge_direct_call-IsClosedBy actual live known =
      let (account, there) = owner id row db h found in
      let (nonneg, _) = nonneg_balance id row db h found account there in
      elim (Bool-cases (ltb_ℤ account.available actual)) [
        | inl short ↦
            rw (charge_short id row db h found s actual now account there short, automatic)
              (record {
                done = refl;
                calls = refl;
                row = (
                  set_outcome actual needs_reconciliation row,
                  rw (get-update_self, found) refl,
                  refl,
                );
                free = λ unsent. absurd (ground arith);
              })
        | inr enough ↦ elim (Bool-cases (eqb_ℤ actual (pos 0))) [
          | inl no_usage ↦ charged_nothing actual account there known enough no_usage
          | inr some_usage ↦
              rw
                (charge_direct_call_lem id row db h found s actual now account there live enough
                  some_usage)
                (record {
                  done = refl;
                  calls = refl;
                  row = (
                    set_outcome actual (final_state s) row,
                    rw (get-update_self, found) refl,
                    final_shut s,
                  );
                  free = λ unsent. absurd (ground arith);
                })
        ]
      ]

  reviewed :
      s.no_dispatch ≡ false
      → IsClosedBy id s db (write_reservation id (set_state needs_reconciliation) db)
  unfolding write_reservation write_reservations ◌>>=◌
  reviewed sent = record {
    done = refl;
    calls = refl;
    row = (set_state needs_reconciliation row, rw (get-update_self, found) refl, refl);
    free = λ unsent. absurd (ground arith);
  }

  settle_direct_call-IsClosedBy :
      is_unresolved row.state ≡ true
      → row.actual ≡ none
      → IsClosedBy id s db (settle_direct_call id row s now db)
  unfolding settle_direct_call write_reservation ◌>>=◌
  settle_direct_call-IsClosedBy live blank = elim (Option-cases (reported s)) [
    | inl unknown ↦ rw unknown (reviewed (ground arith))
    | inr (actual, known) ↦ elim (Bool-cases (ltb_ℤ actual (pos 0))) [
      | inl negative ↦ rw (known, negative) (reviewed (ground arith))
      | inr valid ↦
          let agrees : contradicts row.actual actual ≡ false = ground arith in
          rw (known, valid, agrees) (charge_direct_call-IsClosedBy actual live known)
    ]
  ]

  -- From sound accounts, journal and ledger, the gateway's settlement of an open direct call always
  -- returns and closes the row or puts it up for review, whatever usage is known, and a call that
  -- was never dispatched is released without a change of any balance.
  pub settle-IsClosedBy :
      is_open row.state ≡ true → row.amount ≡ pos 0 → IsClosedBy id s db (settle id s now db)
  unfolding settle settle_row lock_account ◌>>=◌
  settle-IsClosedBy fresh zero =
      let (account, there) = owner id row db h found in
      let live : is_unresolved row.state ≡ true = ground arith in
      let open_yet : is_closed row.state ≡ false = ground arith in
      let blank : row.actual ≡ none = (sound_row id row db h found).1 fresh in
      let direct : eqb_ℤ row.amount (pos 0) ≡ true = ground arith in
      rw (found, there, open_yet, direct) (settle_direct_call-IsClosedBy live blank)
