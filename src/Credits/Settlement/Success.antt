-- ===== src/Credits/Settlement/Success.antt =====
-- app/credits.py, `settle`: the settlement that the gateway makes of an open call cannot fail.
use opsark_admin.Common.{
  ℕ, ◌≡◌, refl, true, false, ◌&&◌, ◌||◌, none, some, arith, Bool-cases, Option-cases, inl, inr,
}
use opsark_admin.Common.Int.{ℤ, pos, ◌≤ℤ◌, ltb_ℤ, eqb_ℤ}
use opsark_admin.Common.Table.{get}
use opsark_admin.Errors.{Result, ok}
use opsark_admin.Exec.{◌>>=◌}
use opsark_admin.Models.{Db, ModelReservation}
use opsark_admin.Credits.{lock_account, write_reservations, is_open, is_unresolved, is_closed}
use opsark_admin.Credits.Settle.{
  Settlement, reported, write_reservation, contradicts, charge_direct_call, settle_direct_call,
  release_hold, settle_within, settle_reserved, settle_row, settle, is_held,
}
use opsark_admin.Credits.Sound.{IsSound}
use opsark_admin.Credits.Settlement.{
  sound_row, owner, release_hold_lem, charge_direct_call_lem, charge_short, charge_nothing,
}
use opsark_admin.Credits.Settlement.Whole.{held_unresolved}

abbrev IsDone : Result (Unit {0}) × Db → Type 0
IsDone p = p.0 ≡ ok tt

module _ (id : ℕ) (row : ModelReservation) (db : Db) (h : IsSound db)
    (found : get id db.reservations ≡ some row) (s : Settlement)
    (automatic : s.allow_overage ≡ false) (now : ℕ) where
  charge_direct_call-IsDone :
      (actual : ℤ)
      → is_unresolved row.state ≡ true
      → IsDone (charge_direct_call id row s actual now db)
  charge_direct_call-IsDone actual live =
      let (account, there) = owner id row db h found in
      elim (Bool-cases (ltb_ℤ account.available actual)) [
        | inl short ↦
            rw (charge_short id row db h found s actual now account there short, automatic) refl
        | inr enough ↦ elim (Bool-cases (eqb_ℤ actual (pos 0))) [
          | inl no_usage ↦
              rw (charge_nothing id row db h found s actual now account there enough no_usage) refl
          | inr some_usage ↦
              rw
                (charge_direct_call_lem id row db h found s actual now account there live enough
                  some_usage)
                refl
        ]
      ]

  settle_direct_call-IsDone :
      is_unresolved row.state ≡ true
      → row.actual ≡ none
      → IsDone (settle_direct_call id row s now db)
  unfolding settle_direct_call write_reservation write_reservations ◌>>=◌
  settle_direct_call-IsDone live blank = elim (Option-cases (reported s)) [
    | inl unknown ↦ rw unknown refl
    | inr (actual, known) ↦ elim (Bool-cases (ltb_ℤ actual (pos 0))) [
      | inl negative ↦ rw (known, negative) refl
      | inr valid ↦
          let agrees : contradicts row.actual actual ≡ false = ground arith in
          rw (known, valid, agrees) (charge_direct_call-IsDone actual live)
    ]
  ]

  settle_within-IsDone : (actual : ℤ) → IsDone (settle_within id row s actual now db)
  unfolding settle_within write_reservation write_reservations ◌>>=◌
  settle_within-IsDone actual =
      elim (Bool-cases (ltb_ℤ actual (pos 0) || ltb_ℤ row.amount actual)) [
        | inl outside ↦ rw outside refl
        | inr within ↦
            let le : actual ≤ℤ row.amount = ground arith in
            let (account, there) = owner id row db h found in
            elim (Bool-cases (is_held row.state)) [
              | inl held ↦
                  rw
                    (
                      within,
                      release_hold_lem id row db h found s actual now account there held
                          (held_unresolved row.state held) le,
                    )
                    refl
              | inr free ↦ rw within (unfold release_hold in rw free refl)
            ]
      ]

  settle_row-IsDone : is_open row.state ≡ true → IsDone (settle_row id row s now db)
  unfolding settle_row lock_account settle_reserved write_reservation write_reservations ◌>>=◌
  settle_row-IsDone fresh =
      let (account, there) = owner id row db h found in
      let live : is_unresolved row.state ≡ true = ground arith in
      let open_yet : is_closed row.state ≡ false = ground arith in
      let blank : row.actual ≡ none = (sound_row id row db h found).1 fresh in
      elim (Bool-cases (eqb_ℤ row.amount (pos 0))) [
        | inl direct ↦ rw (there, open_yet, direct) (settle_direct_call-IsDone live blank)
        | inr held ↦ elim (Option-cases (reported s)) [
          | inl unknown ↦ rw (there, open_yet, held, unknown) refl
          | inr (actual, known) ↦
              let plain : (s.allow_overage && ltb_ℤ row.amount actual) ≡ false = ground arith in
              rw (there, open_yet, held, known, plain) (settle_within-IsDone actual)
        ]
      ]

  -- From sound accounts, journal and ledger, settling an open call without a manual override never
  -- raises: whatever usage is reported or missing, no charge is refused and no key is taken.
  pub settle_succeeds : is_open row.state ≡ true → (settle id s now db).0 ≡ ok tt
  unfolding settle ◌>>=◌
  settle_succeeds fresh = rw found (settle_row-IsDone fresh)
