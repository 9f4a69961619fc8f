-- ===== src/Credits/Admission.antt =====
-- app/credits.py, `reserve` and `begin_direct_call`: a request enters the journal once.
use opsark_admin.Common.{
  ℕ, ◌≡◌, refl, true, false, none, arith, ◌==◌, ap, ◌∙◌, ◌⊎◌, Bool-cases, inl, inr,
}
use opsark_admin.Common.Int.{ℤ, pos, ◌+ℤ◌, neg, ◌<ℤ◌, int_laws, eq_of_parts, pos_part, neg_part}
use opsark_admin.Common.Table.{get, insert, get-insert, update-insert}
use opsark_admin.Errors.{ok}
use opsark_admin.Exec.{◌>>=◌}
use opsark_admin.Models.{
  Db, OperationKey, LedgerKind, Actor, ModelReservation, reserved, pending_usage,
}
use opsark_admin.Credits.{
  Change, change, balance, lock_account, reject_duplicate_request, write_reservations,
  add_reservation, new_reservation, reserve, begin_direct_call,
}
use opsark_admin.Credits.Balance.{change_ok}
use opsark_admin.Credits.Holds.{is_charged, held_total-insert, insert-AmountsNonneg}
use opsark_admin.Credits.Sound.{IsSound, has_account, charge-IsSound}

add_zero : (x t h : ℤ) → x ≡ t +ℤ h → h ≡ pos 0 → t ≡ x
add_zero x t h e z =
    eq_of_parts t x (omega (int_laws, ap pos_part e, ap neg_part e, ap pos_part z, ap neg_part z))

module _ (id : ℕ) (row : ModelReservation) (db : Db) (h : IsSound db)
    (free : get id db.reservations ≡ none) (owner : has_account row.user_id db.accounts ≡ true)
    (zero : row.amount ≡ pos 0) (blank : row.actual ≡ none) where
  -- A new row that holds nothing.
  uncharged : is_charged id db.ledger ≡ false
  uncharged = rw free at (h.rows id)

  pub insert-IsSound : IsSound (record db { reservations = insert id row db.reservations })
  insert-IsSound = record {
    nonneg = h.nonneg;
    holds = λ u.
        h.holds u ∙ add_zero _ _ _ (held_total-insert u id row db.reservations) (ground (arith));
    amounts = insert-AmountsNonneg id row db.reservations h.amounts (rw zero (omega arith));
    rows = λ j. elim (Bool-cases (id == j)) [
      | inl hit ↦
          let e : id ≡ j = ground (arith, hit) in
          rw (get-insert id j row db.reservations free, hit)
            (owner, λ _. blank, λ _. rw (← e) uncharged)
      | inr miss ↦ rw (get-insert id j row db.reservations free, miss) (h.rows j)
    ];
  }

-- A direct call is refused and nothing is written, or its row is added for an account that is
-- there.
begin_direct_call_cases :
    (u id k hash now : ℕ) (db : Db)
    → ((begin_direct_call u id k hash now db).1 ≡ db)
      ⊎ ((has_account u db.accounts ≡ true)
          × (get id db.reservations ≡ none)
          × ((begin_direct_call u id k hash now db).1 ≡ record db {
            reservations =
                insert id (new_reservation u k hash (pos 0) pending_usage now) db.reservations;
          }))
unfolding begin_direct_call lock_account reject_duplicate_request balance add_reservation
    write_reservations ◌>>=◌
begin_direct_call_cases u id k hash now db = ground arith

-- From sound accounts, journal and ledger the admission of a direct call leads to sound ones,
-- whether the call is admitted or refused.
pub begin_direct_call-IsSound :
    (u id k hash now : ℕ) (db : Db) → IsSound db → IsSound (begin_direct_call u id k hash now db).1
unfolding new_reservation
begin_direct_call-IsSound u id k hash now db h = elim (begin_direct_call_cases u id k hash now db) [
  | inl same ↦ rw same h
  | inr (owner, free, added) ↦ rw added (
      insert-IsSound id (new_reservation u k hash (pos 0) pending_usage now) db h free owner refl
        refl)
]

reserve_change : ℕ → ℕ → ℤ → ℕ → Change
reserve_change u id amount now = record {
  delta = neg amount;
  reserved_delta = amount;
  kind = LedgerKind.reserve;
  operation_key = OperationKey.reserve id;
  actor_id = Actor.user u;
  reason = "官方模型调用预留";
  created_at = now;
}

reserve_cases :
    (u id k hash : ℕ) (amount : ℤ) (now : ℕ) (db : Db)
    → (reserve u id k hash amount now db).0 ≡ ok tt
    → (has_account u db.accounts ≡ true)
      × (get id db.reservations ≡ none)
      × (pos 0 <ℤ amount)
      × (reserve u id k hash amount now db
          ≡ change u (reserve_change u id amount now) (record db {
            reservations = insert id (new_reservation u k hash amount reserved now) db.reservations;
          }))
unfolding reserve lock_account reject_duplicate_request balance add_reservation write_reservations
    reserve_change ◌>>=◌
reserve_cases u id k hash amount now db e = ground arith

abbrev with_amount : ℤ → ModelReservation → ModelReservation
with_amount amount row = record row { amount = amount }

module _ (u id k hash : ℕ) (amount : ℤ) (now : ℕ) (db : Db) (h : IsSound db)
    (done : (reserve u id k hash amount now db).0 ≡ ok tt) where
  -- The row without its amount, which holds nothing.
  abbrev empty_hold : ModelReservation
  empty_hold = new_reservation u k hash (pos 0) reserved now

  abbrev placed : Db
  placed = record db { reservations = insert id empty_hold db.reservations }

  placed-IsSound : IsSound placed
  unfolding new_reservation
  placed-IsSound =
      let (owner, free, positive, same) = reserve_cases u id k hash amount now db done in
      insert-IsSound id empty_hold db h free owner refl refl

  -- From sound accounts, journal and ledger a reservation that is admitted leads to sound ones: the
  -- reserved balance grows by what the new row holds.
  pub reserve-IsSound : IsSound (reserve u id k hash amount now db).1
  unfolding new_reservation reserve_change
  reserve-IsSound =
      let (owner, free, positive, same) = reserve_cases u id k hash amount now db done in
      let (account, found, covered, after) =
        change_ok u (reserve_change u id amount now)
          (record db {
            reservations = insert id (new_reservation u k hash amount reserved now) db.reservations;
          })
          (rw same at done) in
      rw (same, after, ← update-insert id (with_amount amount) empty_hold db.reservations free)
        (charge-IsSound id (with_amount amount) empty_hold placed placed-IsSound
          (ground (arith, get-insert id id empty_hold db.reservations free)) refl (omega arith)
          (λ _. refl) (λ _. refl) (reserve_change u id amount now) account found covered
          (omega int_laws) (λ j e. cc))
