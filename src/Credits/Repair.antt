-- ===== src/Credits/Repair.antt =====
-- app/credits.py, `refresh_reconciliations`: a refresh is never refused.
use opsark_admin.Common.{
  ℕ, ◌≡◌, refl, true, false, ◌&&◌, ◌||◌, Bool, Option, none, some, List, [], ◌∷◌, arith, Bool-cases,
  Option-cases, inl, inr, ◌==◌, filter, if◌then◌else◌,
}
use opsark_admin.Common.Table.{Table, get, update, get-update, IsKeyed}
use opsark_admin.Errors.{ok}
use opsark_admin.Exec.{Exec, pure, ◌>>=◌}
use opsark_admin.Exec.Keeps.{Keeps}
use opsark_admin.Models.{Db, Actor, CreditAccount, ModelReservation, ModelCall}
use opsark_admin.Credits.{
  Change, change, changed, write_calls, lock_account, is_open, is_unresolved, write_reservations,
}
use opsark_admin.Credits.Settle.{write_reservation}
use opsark_admin.Credits.Refresh.{
  Tally, no_change, repair, trusted_terminal_usage, timed_out, call_finished, is_stale,
  close_stale_call, resolve_open, refresh_row, refresh_one, refresh_all, refresh_reconciliations,
  is_candidate, insert_ordered, order_rows, candidates, comes_before,
}
use opsark_admin.Credits.Balance.{change_cases}
use opsark_admin.Credits.Sound.{IsSound, has_account}
use opsark_admin.Credits.Journal
use opsark_admin.Credits.Recovery.{refresh_one-Keeps}
use opsark_admin.Credits.Settlement.Success.{settle_succeeds}

abbrev Returns {ℓ} : {S A : Type ℓ} → Exec S A → S → Type ℓ
Returns {A} m s = (a : A) × ((m s).0 ≡ ok a)

bind-Returns {ℓ} :
    {S A B : Type ℓ} (m : Exec S A) (next : A → Exec S B) (s : S)
    → Returns m s
    → ((a : A) → Returns (next a) (m s).1)
    → Returns (m >>= next) s
unfolding ◌>>=◌
bind-Returns m next s (a, done) rest = rw done (rest a)

pure-Returns {ℓ} : {S A : Type ℓ} (a : A) (s : S) → Returns (pure a) s
unfolding ◌>>=◌
pure-Returns a s = (a, refl)

account_of :
    (u : ℕ) (t : Table CreditAccount)
    → has_account u t ≡ true
    → (a : CreditAccount) × (get u t ≡ some a)
account_of u t owner = elim (Option-cases (get u t)) [
  | inl missing ↦ absurd (ground (arith, rw (has_account, missing) at owner))
  | inr there ↦ there
]

update-has_account :
    (u v : ℕ) (f : CreditAccount → CreditAccount) (t : Table CreditAccount)
    → has_account v t ≡ true
    → has_account v (update u f t) ≡ true
update-has_account u v f t owner =
    let (a, there) = account_of v t owner in
    elim (Bool-cases (u == v)) [
      | inl own ↦ rw (has_account, get-update u v f t, own, there) refl
      | inr other ↦ rw (has_account, get-update u v f t, other, there) refl
    ]

-- No operation takes an account away.
change-has_account :
    (v u : ℕ) (c : Change) → Keeps (λ db. has_account v db.accounts ≡ true) (change u c)
change-has_account v u c = record {
  at = λ db h. elim (change_cases u c db) [
    | inl same ↦ rw same h
    | inr (row, found, covered, moved) ↦
        rw moved (update-has_account u v (changed c.delta c.reserved_delta) db.accounts h)
  ];
}

refresh_one-has_account :
    (v : ℕ) (a : Actor) (now id u : ℕ)
    → Keeps (λ db. has_account v db.accounts ≡ true) (refresh_one a now id u)
refresh_one-has_account v =
    opsark_admin.Credits.Journal.refresh_one-Keeps (change-has_account v)
      (λ db reservations calls h. h)

close_stale_call-Returns :
    (id : ℕ) (call : Option ModelCall) (now : ℕ) (db : Db)
    → Returns (close_stale_call id call now) db
unfolding close_stale_call write_calls ◌>>=◌
close_stale_call-Returns id none now db = (0, refl)
close_stale_call-Returns id (some seen) now db = elim (Bool-cases (is_stale now seen)) [
  | inr live ↦ rw live (0, refl)
  | inl stale ↦ elim (Option-cases (get id db.calls)) [
    | inl missing ↦ rw (stale, missing) (0, refl)
    | inr (row, there) ↦ elim (Bool-cases (is_stale now row)) [
      | inl still ↦ rw (stale, there, still) (1, refl)
      | inr moved ↦ rw (stale, there, moved) (0, refl)
    ]
  ]
]

module _ (actor : Actor) (now id : ℕ) (row : ModelReservation) (call : Option ModelCall) (db : Db)
    (h : IsSound db) (found : get id db.reservations ≡ some row) where
  resolve_open-Returns : is_open row.state ≡ true → Returns (resolve_open actor now id call) db
  unfolding resolve_open write_reservation write_reservations ◌>>=◌
  resolve_open-Returns fresh = elim (Option-cases (trusted_terminal_usage call)) [
    | inl unknown ↦ rw unknown (_, refl)
    | inr (actual, known) ↦
        rw (known, settle_succeeds id row db h found (repair actor actual) refl now fresh) (_, refl)
  ]

  -- The first statement of the row's turn.
  outcome-Returns :
      Returns
        (if is_open row.state && (call_finished call || timed_out now row)
          then resolve_open actor now id call
          else pure no_change)
        db
  unfolding ◌>>=◌
  outcome-Returns =
      elim (Bool-cases (is_open row.state && (call_finished call || timed_out now row))) [
        | inl due ↦ rw due (resolve_open-Returns (ground (arith, due)))
        | inr wait ↦ rw wait (no_change, refl)
      ]

  refresh_row-Returns : Returns (refresh_row actor now id row call) db
  unfolding refresh_row
  refresh_row-Returns =
      bind-Returns _ _ db outcome-Returns
        λ outcome. bind-Returns _ _ _ (closing (timed_out now row) _) λ closed. pure-Returns _ _
    where
      closing :
          (late : Bool) (after : Db)
          → Returns (if late then close_stale_call id call now else pure 0) after
      closing true after = close_stale_call-Returns id call now after
      closing false after = pure-Returns 0 after

refresh_one-Returns :
    (actor : Actor) (now id u : ℕ) (db : Db)
    → IsSound db
    → has_account u db.accounts ≡ true
    → Returns (refresh_one actor now id u) db
unfolding refresh_one lock_account ◌>>=◌
refresh_one-Returns actor now id u db h owner =
    let (account, there) = account_of u db.accounts owner in
    elim (Option-cases (get id db.reservations)) [
      | inl missing ↦ rw (there, missing) (_, refl)
      | inr (row, found) ↦ elim (Bool-cases (is_unresolved row.state)) [
        | inl live ↦
            rw (there, found, live)
              (refresh_row-Returns actor now id row (get id db.calls) db h found)
        | inr shut ↦ rw (there, found, shut) (_, refl)
      ]
    ]

-- The users of all rows have accounts.
abbrev AllOwned : Table CreditAccount → List (ℕ × ModelReservation) → Type 0
AllOwned accounts [] = Unit
AllOwned accounts ((id, row) ∷ rows) =
    (has_account row.user_id accounts ≡ true) × AllOwned accounts rows

AllOwned-after :
    (actor : Actor) (now id u : ℕ) (db : Db) (rows : List (ℕ × ModelReservation))
    → AllOwned db.accounts rows
    → AllOwned (refresh_one actor now id u db).1.accounts rows
AllOwned-after actor now id u db [] h = tt
AllOwned-after actor now id u db ((k, row) ∷ rows) h = (
  (refresh_one-has_account row.user_id actor now id u).at db h.0,
  AllOwned-after actor now id u db rows h.1,
)

refresh_all-Returns :
    (actor : Actor) (now : ℕ) (rows : List (ℕ × ModelReservation)) (db : Db)
    → IsSound db
    → AllOwned db.accounts rows
    → Returns (refresh_all actor now rows) db
unfolding refresh_all
refresh_all-Returns actor now [] db h owned = pure-Returns _ db
refresh_all-Returns actor now ((id, row) ∷ rows) db h owned =
    bind-Returns _ _ db (refresh_one-Returns actor now id row.user_id db h owned.0) λ first.
      bind-Returns _ _ _
        (refresh_all-Returns actor now rows _ ((refresh_one-Keeps actor now id row.user_id).at db h)
          (AllOwned-after actor now id row.user_id db rows owned.1))
        λ rest. pure-Returns _ _

insert_ordered-AllOwned :
    (accounts : Table CreditAccount) (x : ℕ × ModelReservation) (rows : List (ℕ × ModelReservation))
    → has_account x.1.user_id accounts ≡ true
    → AllOwned accounts rows
    → AllOwned accounts (insert_ordered x rows)
insert_ordered-AllOwned accounts x [] owner h = (owner, tt)
insert_ordered-AllOwned accounts x (y ∷ rows) owner h = elim (Bool-cases (comes_before x y)) [
  | inl first ↦ rw first (owner, h)
  | inr later ↦ rw later (h.0, insert_ordered-AllOwned accounts x rows owner h.1)
]

order_rows-AllOwned :
    (accounts : Table CreditAccount) (rows : List (ℕ × ModelReservation))
    → AllOwned accounts rows
    → AllOwned accounts (order_rows rows)
order_rows-AllOwned accounts [] h = tt
order_rows-AllOwned accounts (x ∷ rows) h =
    insert_ordered-AllOwned accounts x (order_rows rows) h.0 (order_rows-AllOwned accounts rows h.1)

filter-AllOwned :
    (accounts : Table CreditAccount) (p : ℕ × ModelReservation → Bool)
    (rows : List (ℕ × ModelReservation))
    → AllOwned accounts rows
    → AllOwned accounts (filter p rows)
filter-AllOwned accounts p [] h = tt
filter-AllOwned accounts p (x ∷ rows) h = elim (Bool-cases (p x)) [
  | inl kept ↦ rw kept (h.0, filter-AllOwned accounts p rows h.1)
  | inr dropped ↦ rw dropped (filter-AllOwned accounts p rows h.1)
]

-- Where no key stands twice, what holds of the rows that are found holds of all.
found-AllOwned :
    (accounts : Table CreditAccount) (rows : Table ModelReservation)
    → IsKeyed rows
    → ((id : ℕ) (row : ModelReservation)
        → get id rows ≡ some row
        → has_account row.user_id accounts ≡ true)
    → AllOwned accounts rows
found-AllOwned accounts [] keyed h = tt
found-AllOwned accounts ((k, row) ∷ rows) keyed h = (
  h k row (ground arith),
  found-AllOwned accounts rows keyed.1
      (λ id other there. h id other (ground (arith, keyed.0, there))),
)

-- From sound accounts, journal and ledger, where no call has two rows, a refresh never raises: no
-- settlement of it is refused, so that one bad row does not keep the others from being repaired.
pub refresh_succeeds :
    (actor : Actor) (now : ℕ) (db : Db)
    → IsSound db
    → IsKeyed db.reservations
    → (tally : Tally) × ((refresh_reconciliations actor now db).0 ≡ ok tally)
unfolding refresh_reconciliations candidates
refresh_succeeds actor now db h keyed =
    unfold ◌>>=◌ in
    refresh_all-Returns actor now (order_rows (filter (is_candidate now db.calls) db.reservations))
      db h
      (order_rows-AllOwned db.accounts _ (
        filter-AllOwned db.accounts _ db.reservations (
          found-AllOwned db.accounts db.reservations keyed
            (λ id row there. (rw there at (h.rows id)).0))))
