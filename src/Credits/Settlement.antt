-- ===== src/Credits/Settlement.antt =====
-- app/credits.py, `settle`: the writes that a settlement of one journal row makes. `Whole` puts them
-- together.
pub mod Whole
pub mod Success
pub mod Charge
pub mod Outcome
use opsark_admin.Common.{
  ℕ, ◌≡◌, refl, Bool, true, false, ◌&&◌, ◌||◌, not, Option, none, some, List, [], ◌∷◌, ◌++◌, arith,
  if◌then◌else◌, ap, ◌∙◌, ◌≢◌, ◌⊎◌, Bool-cases, Option-cases, inl, inr,
}
use opsark_admin.Common.Int.{
  ℤ, pos, ◌+ℤ◌, ◌-ℤ◌, neg, ◌≤ℤ◌, ◌<ℤ◌, leb_ℤ, ltb_ℤ, eqb_ℤ, int_laws, eq_of_parts, pos_part,
  neg_part,
}
use opsark_admin.Common.Table.{Table, get, update}
use opsark_admin.Errors.{Error, api_error, insufficient_credits, ok, err}
use opsark_admin.Exec.{Exec, ◌>>=◌}
use opsark_admin.Exec.Keeps.{Keeps}
use opsark_admin.Models.{
  Db, CreditAccount, OperationKey, LedgerKind, ModelReservation, ReservationState, reserved,
  pending_usage, needs_reconciliation, settled, released,
}
use opsark_admin.Credits.{
  Change, change, changed, covers, balance, lock_account, write_reservations, is_open,
  is_unresolved, is_closed, has_entry, apply_change,
}
use opsark_admin.Credits.Settle.{
  Settlement, reported, final_state, write_reservation, set_state, set_outcome, charge_direct_call,
  settle_direct_call, extend_hold, release_hold, settle_within, settle_reserved, settle_row, settle,
  review_reserved, is_held, rethrow,
}
use opsark_admin.Credits.Balance.{after_change, change_ok, change_cases}
use opsark_admin.Credits.Holds.{
  held_amount, held_for, amount_nonneg, held_for-le_total, has_entry_of_uncharged,
}
use opsark_admin.Credits.Sound.{IsSound, IsSoundRow, write-IsSound, charge-IsSound}

covers_intro :
    (d r : ℤ) (account : CreditAccount)
    → pos 0 ≤ℤ account.available +ℤ d
    → pos 0 ≤ℤ account.reserved +ℤ r
    → covers d r account ≡ true
unfolding covers
covers_intro d r account p q = ground arith

final_resolved : (s : Settlement) → is_unresolved (final_state s) ≡ false
final_resolved s = ground arith

final_shut : (s : Settlement) → is_open (final_state s) ≡ false
final_shut s = ground arith

module _ (id : ℕ) (row : ModelReservation) (db : Db) (h : IsSound db)
    (found : get id db.reservations ≡ some row) where
  pub nonneg : pos 0 ≤ℤ row.amount
  nonneg = amount_nonneg id row db.reservations h.amounts found

  pub sound_row : IsSoundRow id (some row) db.accounts db.ledger
  sound_row = rw found at (h.rows id)

  -- The account of the row's user.
  pub owner : (account : CreditAccount) × (get row.user_id db.accounts ≡ some account)
  owner = elim (Option-cases (get row.user_id db.accounts)) [
    | inl missing ↦ absurd (ground (arith, sound_row))
    | inr there ↦ there
  ]

  -- The reserved balance covers what the row holds.
  hold_covered :
      (account : CreditAccount)
      → get row.user_id db.accounts ≡ some account
      → is_unresolved row.state ≡ true
      → row.amount ≤ℤ account.reserved
  hold_covered account there live = ground (
    arith,
    h.holds row.user_id,
    held_for-le_total row.user_id id row db.reservations h.amounts found,
  )

  uncharged :
      is_unresolved row.state ≡ true
      → has_entry row.user_id (OperationKey.settle id) db.ledger ≡ false
  uncharged live = has_entry_of_uncharged row.user_id id db.ledger (ground (arith, sound_row))

  -- A row that is put up for review.
  pub review-IsSound :
      is_unresolved row.state ≡ true
      → IsSound
          (record db { reservations = update id (set_state needs_reconciliation) db.reservations })
  review-IsSound live =
      write-IsSound id (set_state needs_reconciliation) row db h found refl nonneg (λ e. cc)
        (λ _. live) (ground arith)

  -- The conditional review of `settle_reserved`.
  pub review_reserved-IsSound :
      IsSound (record db { reservations = update id review_reserved db.reservations })
  review_reserved-IsSound =
      write-IsSound id review_reserved row db h found (ground arith) (ground (arith, nonneg))
        (ground (arith, sound_row)) (ground arith) (ground arith)

  -- A row that holds nothing may be written to any state but an open one.
  outcome-IsSound :
      (actual : ℤ) (state : ReservationState)
      → row.amount ≡ pos 0
      → is_open state ≡ false
      → is_unresolved row.state ≡ true
      → IsSound (record db { reservations = update id (set_outcome actual state) db.reservations })
  outcome-IsSound actual state zero shut live =
      write-IsSound id (set_outcome actual state) row db h found refl nonneg (ground arith)
        (λ _. live) (ground arith)

  pub release_change : Settlement → ℤ → ℕ → Change
  release_change s actual now = record {
    delta = row.amount -ℤ actual;
    reserved_delta = neg row.amount;
    kind = if s.no_dispatch then LedgerKind.release else LedgerKind.settle;
    operation_key = OperationKey.settle id;
    actor_id = s.actor_id;
    reason = s.reason;
    created_at = now;
  }

  nonneg_balance :
      (account : CreditAccount)
      → get row.user_id db.accounts ≡ some account
      → (pos 0 ≤ℤ account.available) × (pos 0 ≤ℤ account.reserved)
  nonneg_balance account there = rw there at (h.nonneg row.user_id)

  pub release_covered :
      (actual : ℤ) (account : CreditAccount)
      → get row.user_id db.accounts ≡ some account
      → is_unresolved row.state ≡ true
      → actual ≤ℤ row.amount
      → covers (row.amount -ℤ actual) (neg row.amount) account ≡ true
  release_covered actual account there live q =
      let held = hold_covered account there live in
      let (a, r) = nonneg_balance account there in
      covers_intro (row.amount -ℤ actual) (neg row.amount) account (omega int_laws) (omega int_laws)

  -- The end of a hold always finds its balance and a key that is free.
  pub release_hold_lem :
      (s : Settlement) (actual : ℤ) (now : ℕ) (account : CreditAccount)
      → get row.user_id db.accounts ≡ some account
      → is_held row.state ≡ true
      → is_unresolved row.state ≡ true
      → actual ≤ℤ row.amount
      → release_hold id row s actual now db ≡ (
        ok tt,
        record (after_change row.user_id (release_change s actual now) account db) {
          reservations = update id (set_outcome actual (final_state s)) db.reservations;
        },
      )
  unfolding release_hold write_reservation write_reservations change apply_change release_change
      ◌>>=◌
  release_hold_lem s actual now account there held live q =
      let covered = release_covered actual account there live q in
      let free = uncharged live in rw (held, there, covered, free)

  pub release_hold-IsSound :
      (s : Settlement) (actual : ℤ) (now : ℕ)
      → is_held row.state ≡ true
      → is_unresolved row.state ≡ true
      → actual ≤ℤ row.amount
      → IsSound (release_hold id row s actual now db).1
  unfolding release_change
  release_hold-IsSound s actual now held live q =
      let (account, there) = owner in
      rw (release_hold_lem s actual now account there held live q) (
        charge-IsSound id (set_outcome actual (final_state s)) row db h found refl nonneg
          (ground (arith, final_shut s)) (λ e. live) (release_change s actual now) account there
          (release_covered actual account there live q)
          (rw (live, final_resolved s) (omega int_laws))
          (λ j e. (ground (arith, e), final_resolved s)))

  pub usage_change : Settlement → ℤ → ℕ → Change
  usage_change s actual now = record {
    delta = neg actual;
    reserved_delta = pos 0;
    kind = LedgerKind.usage_debit;
    operation_key = OperationKey.settle id;
    actor_id = s.actor_id;
    reason = s.reason;
    created_at = now;
  }

  usage_covered :
      (actual : ℤ) (account : CreditAccount)
      → get row.user_id db.accounts ≡ some account
      → ltb_ℤ account.available actual ≡ false
      → covers (neg actual) (pos 0) account ≡ true
  usage_covered actual account there enough =
      let (a, r) = nonneg_balance account there in
      let le : actual ≤ℤ account.available = ground arith in
      covers_intro (neg actual) (pos 0) account (omega int_laws) (omega int_laws)

  -- Usage that the balance covers is debited once, and the row is closed with it.
  pub charge_direct_call_lem :
      (s : Settlement) (actual : ℤ) (now : ℕ) (account : CreditAccount)
      → get row.user_id db.accounts ≡ some account
      → is_unresolved row.state ≡ true
      → ltb_ℤ account.available actual ≡ false
      → eqb_ℤ actual (pos 0) ≡ false
      → charge_direct_call id row s actual now db ≡ (
        ok tt,
        record (after_change row.user_id (usage_change s actual now) account db) {
          reservations = update id (set_outcome actual (final_state s)) db.reservations;
        },
      )
  unfolding charge_direct_call balance write_reservation write_reservations change apply_change
      usage_change ◌>>=◌
  charge_direct_call_lem s actual now account there live enough some_usage =
      let covered = usage_covered actual account there enough in
      let free = uncharged live in rw (there, enough, some_usage, there, covered, free)

  -- Usage above the balance is only written down, and a manual settlement is refused as well.
  pub charge_short :
      (s : Settlement) (actual : ℤ) (now : ℕ) (account : CreditAccount)
      → get row.user_id db.accounts ≡ some account
      → ltb_ℤ account.available actual ≡ true
      → charge_direct_call id row s actual now db ≡ (
        if s.allow_overage then err (api_error 402 insufficient_credits) else ok tt,
        record db {
          reservations = update id (set_outcome actual needs_reconciliation) db.reservations;
        },
      )
  unfolding charge_direct_call balance write_reservation write_reservations ◌>>=◌
  charge_short s actual now account there short = rw (there, short) (ground arith)

  pub charge_nothing :
      (s : Settlement) (actual : ℤ) (now : ℕ) (account : CreditAccount)
      → get row.user_id db.accounts ≡ some account
      → ltb_ℤ account.available actual ≡ false
      → eqb_ℤ actual (pos 0) ≡ true
      → charge_direct_call id row s actual now db ≡ (
        ok tt,
        record db { reservations = update id (set_outcome actual (final_state s)) db.reservations },
      )
  unfolding charge_direct_call balance write_reservation write_reservations ◌>>=◌
  charge_nothing s actual now account there enough no_usage = rw (there, enough, no_usage)

  pub charge_direct_call-IsSound :
      (s : Settlement) (actual : ℤ) (now : ℕ)
      → is_unresolved row.state ≡ true
      → row.amount ≡ pos 0
      → IsSound (charge_direct_call id row s actual now db).1
  unfolding usage_change
  charge_direct_call-IsSound s actual now live zero =
      let (account, there) = owner in
      elim (Bool-cases (ltb_ℤ account.available actual)) [
        | inl short ↦
            rw (charge_short s actual now account there short)
              (outcome-IsSound actual needs_reconciliation zero refl live)
        | inr enough ↦ elim (Bool-cases (eqb_ℤ actual (pos 0))) [
          | inl no_usage ↦
              rw (charge_nothing s actual now account there enough no_usage)
                (outcome-IsSound actual (final_state s) zero (final_shut s) live)
          | inr some_usage ↦
              rw (charge_direct_call_lem s actual now account there live enough some_usage) (
                charge-IsSound id (set_outcome actual (final_state s)) row db h found refl nonneg
                  (ground (arith, final_shut s)) (λ e. live) (usage_change s actual now) account
                  there (usage_covered actual account there enough)
                  (rw (live, final_resolved s, zero) (omega int_laws))
                  (λ j e. (ground (arith, e), final_resolved s)))
        ]
      ]
