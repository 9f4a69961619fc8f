-- ===== src/Credits/Duplicates.antt =====
-- app/credits.py, `reject_duplicate_request`: a request key is accepted once for each user.
use opsark_admin.Common.{
  ℕ, ◌≡◌, refl, true, ◌&&◌, none, some, [], ◌∷◌, arith, ◌==◌, if◌then◌else◌, Bool-cases,
  Option-cases, inl, inr,
}
use opsark_admin.Common.Int.{pos, leb_ℤ}
use opsark_admin.Common.Table.{Table, get, insert}
use opsark_admin.Errors.{
  Error, api_error, ok, err, request_already_accepted, idempotency_key_conflict,
}
use opsark_admin.Exec.{◌>>=◌}
use opsark_admin.Models.{Db, CreditAccount, ModelReservation, pending_usage}
use opsark_admin.Credits.{
  lock_account, find_request, reject_duplicate_request, balance, add_reservation,
  write_reservations, new_reservation, begin_direct_call,
}

find_request-insert :
    (u key id : ℕ) (row : ModelReservation) (t : Table ModelReservation)
    → find_request u key t ≡ none
    → (row.user_id == u && row.idempotency_key == key) ≡ true
    → find_request u key (insert id row t) ≡ some row
unfolding find_request
find_request-insert u key id row [] free mine = ground arith
find_request-insert u key id row ((j, r) ∷ t) free mine =
    ground (arith, find_request-insert u key id row t)

-- What a repeated request is told.
abbrev pub duplicate_error : ℕ → ℕ → Error
duplicate_error recorded request_hash =
    api_error 409
      (if recorded == request_hash then request_already_accepted else idempotency_key_conflict)

rejected :
    (u id key hash now : ℕ) (db : Db) (account : CreditAccount) (row : ModelReservation)
    → get u db.accounts ≡ some account
    → find_request u key db.reservations ≡ some row
    → begin_direct_call u id key hash now db ≡ (err (duplicate_error row.request_hash hash), db)
unfolding begin_direct_call lock_account reject_duplicate_request ◌>>=◌
rejected u id key hash now db account row there earlier =
    elim (Bool-cases (row.request_hash == hash)) [
      | inl same ↦ rw (there, earlier, same) refl
      | inr differs ↦ rw (there, earlier, differs) refl
    ]

admitted :
    (u id key hash now : ℕ) (db : Db)
    → (begin_direct_call u id key hash now db).0 ≡ ok tt
    → (account : CreditAccount) × (get u db.accounts ≡ some account)
      × (find_request u key db.reservations ≡ none)
      × ((begin_direct_call u id key hash now db).1 ≡ record db {
        reservations =
            insert id (new_reservation u key hash (pos 0) pending_usage now) db.reservations;
      })
unfolding begin_direct_call lock_account reject_duplicate_request balance add_reservation
    write_reservations new_reservation ◌>>=◌
admitted u id key hash now db done = elim (Option-cases (get u db.accounts)) [
  | inl missing ↦ cc (rw missing at done)
  | inr (account, there) ↦ elim (Option-cases (find_request u key db.reservations)) [
    | inr (row, earlier) ↦ cc (done, rejected u id key hash now db account row there earlier)
    | inl free ↦ elim (Bool-cases (leb_ℤ account.available (pos 0))) [
      | inl empty ↦ cc (rw (there, free, there, empty) at done)
      | inr funded ↦ elim (Option-cases (get id db.reservations)) [
        | inr (row, taken) ↦ cc (rw (there, free, there, funded, taken) at done)
        | inl fresh ↦ (account, there, free, rw (there, free, there, funded, fresh, free))
      ]
    ]
  ]
]

-- After a direct call was admitted under a request key, every further request of the user under that
-- key, for any call, at any time, is refused with 409 and writes nothing; the code tells whether its
-- content is the admitted one's.
pub begin_direct_call-begin_direct_call :
    (u id key hash now : ℕ) (db : Db)
    → (begin_direct_call u id key hash now db).0 ≡ ok tt
    → (id' hash' now' : ℕ)
    → begin_direct_call u id' key hash' now' (begin_direct_call u id key hash now db).1
      ≡ (err (duplicate_error hash hash'), (begin_direct_call u id key hash now db).1)
unfolding new_reservation
begin_direct_call-begin_direct_call u id key hash now db done id' hash' now' =
    let (account, there, free, after) = admitted u id key hash now db done in
    rw after (
      rejected u id' key hash' now'
        (record db {
          reservations =
              insert id (new_reservation u key hash (pos 0) pending_usage now) db.reservations;
        })
        account (new_reservation u key hash (pos 0) pending_usage now) there
        (find_request-insert u key id (new_reservation u key hash (pos 0) pending_usage now)
          db.reservations free (ground arith)))
