-- ===== src/Gateway/Admitted.antt =====
-- app/gateway.py, `completions`: the admission of a call. What it refuses costs nothing, and what it
-- lets through is a call that the rest of the handler can end.
use opsark_admin.Common.{ℕ, ◌≡◌, refl, Option, none, some, arith, Bool-cases, inl, inr, ap}
use opsark_admin.Common.Int.{pos}
use opsark_admin.Common.Table.{Table, get, insert, get-insert}
use opsark_admin.Errors.{
  Error, ok, err, api_error, integrity_error, value_error, unhandled_error, transport,
  cancelled_error, request_state_conflict,
}
use opsark_admin.Exec.{pure, match_option, catch, transaction, ◌>>=◌}
use opsark_admin.Exec.Keeps.{
  Keeps, keeps_rules, Keeps-transaction, Result-cases, bind-raise, bind_returns, ok_not_err,
  transaction_done, transaction_raises, catch_returns, catch_raises,
}
use opsark_admin.Models.{Db, ModelCall, pending_usage}
use opsark_admin.Credits.{
  write_calls, begin_direct_call, reject_duplicate_request, lock_account, balance, add_reservation,
  write_reservations, new_reservation,
}
use opsark_admin.Credits.Sound.{IsSound}
use opsark_admin.Credits.Admission.{begin_direct_call-IsSound}
use opsark_admin.Gateway.{
  Admission, new_call, add_call, begin_for, enter, denied_call, on_refusal, admit,
  is_credit_refusal,
}
use opsark_admin.Gateway.Exchange.{Call}
use opsark_admin.Gateway.Slots.{write_calls-IsSound}
use opsark_admin.Gateway.Outcome.{IsReady, IsFresh, ForUser}

-- The rows but for the calls.
pub record SameCredits (start db : Db) : Type 0 where
  pub accounts : db.accounts ≡ start.accounts
  pub ledger : db.ledger ≡ start.ledger
  pub reservations : db.reservations ≡ start.reservations

-- A property that the writes of calls keep.
module _ {P : Db → Type 0}
    (keeps_calls : (f : Table ModelCall → Table ModelCall) → Keeps P (write_calls f)) where
  pub add_call-Keeps : (id : ℕ) (call : ModelCall) → Keeps P (add_call id call)
  unfolding add_call
  add_call-Keeps id call = search (keeps_rules, keeps_calls)

  audit-Keeps : (id : ℕ) (call : ModelCall) → Keeps P (transaction (add_call id call))
  audit-Keeps id call = Keeps-transaction _ (add_call-Keeps id call)

  reject-Keeps : (u k hash : ℕ) → Keeps P (reject_duplicate_request u k hash)
  unfolding reject_duplicate_request
  reject-Keeps u k hash = search keeps_rules

  pub on_refusal-Keeps : (a : Admission) (e : Error) → Keeps P (on_refusal a e)
  unfolding on_refusal
  on_refusal-Keeps a (api_error status code) = search (keeps_rules, audit-Keeps) depth 8
  on_refusal-Keeps a integrity_error = search (keeps_rules, reject-Keeps)
  on_refusal-Keeps a value_error = search keeps_rules
  on_refusal-Keeps a unhandled_error = search keeps_rules
  on_refusal-Keeps a (transport failure) = search keeps_rules
  on_refusal-Keeps a cancelled_error = search keeps_rules

SameCredits-write_calls :
    (start : Db) (f : Table ModelCall → Table ModelCall) → Keeps (SameCredits start) (write_calls f)
unfolding write_calls ◌>>=◌
SameCredits-write_calls start f = record {
  at = λ s h. record { accounts = h.accounts; ledger = h.ledger; reservations = h.reservations };
}

-- What is raised is never the success of the request.
on_refusal-raises : (a : Admission) (e : Error) (db : Db) → ¬ ((on_refusal a e db).0 ≡ ok tt)
unfolding on_refusal ◌>>=◌
on_refusal-raises a (api_error status code) db done = elim (Bool-cases (is_credit_refusal code)) [
  | inl credit ↦ absurd (
      bind-raise
        (catch (transaction (add_call a.call_id (denied_call a status code))) (λ x. pure tt))
        (api_error status code) db tt (rw credit at done))
  | inr other ↦ absurd (ok_not_err (err (api_error status code)) _ _ (rw other at done) refl)
]
on_refusal-raises a integrity_error db done = absurd (
    bind-raise
      (match_option a.user_id (pure tt)
        (λ user. reject_duplicate_request user a.idempotency_key a.request_hash))
      (api_error 409 request_state_conflict) db tt done)
on_refusal-raises a value_error db done = absurd (ground arith)
on_refusal-raises a unhandled_error db done = absurd (ground arith)
on_refusal-raises a (transport failure) db done = absurd (ground arith)
on_refusal-raises a cancelled_error db done = absurd (ground arith)

-- A refused call leaves the balances, the ledger and the journal exactly as before.
pub admit-SameCredits :
    (a : Admission) (db : Db) (e : Error) → (admit a db).0 ≡ err e → SameCredits db (admit a db).1
unfolding admit
admit-SameCredits a db e refused = elim (Result-cases (transaction (enter a) db).0) [
  | inl (done, returned) ↦ absurd (
      ok_not_err (admit a db).0 done e
        (ap (λ p. p.0) (catch_returns (transaction (enter a)) (on_refusal a) db done returned))
        refused)
  | inr (first, raised) ↦ rw (catch_raises (transaction (enter a)) (on_refusal a) db first raised) (
      (on_refusal-Keeps (SameCredits-write_calls db) a first).at _ (
        rw (transaction_raises (enter a) db first raised)
          (record { accounts = refl; ledger = refl; reservations = refl })))
]

-- What an admission writes.
record IsEntered (user : Option ℕ) (a : Admission) (db : Db) : Type 0 where
  call : get a.call_id db.calls ≡ some (new_call a)
  sound : IsSound db
  journal : ForUser user (IsFresh a.call_id db)

add_call_ok :
    (id : ℕ) (call : ModelCall) (db : Db)
    → (add_call id call db).0 ≡ ok tt
    → (get id db.calls ≡ none)
      × ((add_call id call db).1 ≡ record db { calls = insert id call db.calls })
unfolding add_call write_calls ◌>>=◌
add_call_ok id call db done = ground arith

begin_direct_call_ok :
    (u id k hash now : ℕ) (db : Db)
    → (begin_direct_call u id k hash now db).0 ≡ ok tt
    → (get id db.reservations ≡ none)
      × ((begin_direct_call u id k hash now db).1 ≡ record db {
        reservations =
            insert id (new_reservation u k hash (pos 0) pending_usage now) db.reservations;
      })
unfolding begin_direct_call lock_account reject_duplicate_request balance add_reservation
    write_reservations ◌>>=◌
begin_direct_call_ok u id k hash now db done = ground arith

add_call-IsSound :
    (id : ℕ) (call : ModelCall) (db : Db) → IsSound db → IsSound (add_call id call db).1
unfolding add_call
add_call-IsSound id call db h = (add_call-Keeps write_calls-IsSound id call).at db h

begin_for-IsEntered :
    (user : Option ℕ) (a : Admission) (db : Db)
    → IsSound db
    → get a.call_id db.calls ≡ some (new_call a)
    → (begin_for user a db).0 ≡ ok tt
    → IsEntered user a (begin_for user a db).1
unfolding begin_for new_reservation ◌>>=◌
begin_for-IsEntered none a db h there done = record { call = there; sound = h; journal = tt }
begin_for-IsEntered (some user) a db h there done =
    let (free, written) =
      begin_direct_call_ok user a.call_id a.idempotency_key a.request_hash a.now db done in
    record {
      call = rw written there;
      sound = begin_direct_call-IsSound user a.call_id a.idempotency_key a.request_hash a.now db h;
      journal = rw written (
        new_reservation user a.idempotency_key a.request_hash (pos 0) pending_usage a.now,
        rw (get-insert a.call_id a.call_id _ db.reservations free) (ground arith),
        refl,
        refl,
      );
    }

enter-IsEntered :
    (a : Admission) (db : Db)
    → IsSound db
    → (enter a db).0 ≡ ok tt
    → IsEntered a.user_id a (enter a db).1
unfolding enter
enter-IsEntered a db h done =
    let (_, added, rest) =
      bind_returns (add_call a.call_id (new_call a)) (λ x. begin_for a.user_id a) db tt done in
    let (free, written) = add_call_ok a.call_id (new_call a) db added in
    rw rest (
      begin_for-IsEntered a.user_id a _ (add_call-IsSound a.call_id (new_call a) db h)
        (rw (written, get-insert a.call_id a.call_id (new_call a) db.calls free) (ground arith))
        (rw rest at done))

entered-IsReady :
    (a : Admission) (c : Call) (db : Db)
    → c.call_id ≡ a.call_id
    → c.user_id ≡ a.user_id
    → IsEntered a.user_id a db
    → IsReady c db
entered-IsReady a c db same_call same_user e = record {
  sound = e.sound;
  call = (new_call a, rw same_call e.call);
  journal = rw (same_call, same_user) e.journal;
}

-- An admission that returns leads, from sound accounts, journal and ledger, to a call that the rest
-- of the handler can end: its row is there, and the journal has an open row for a user's call that
-- holds nothing.
pub admit-IsReady :
    (a : Admission) (c : Call) (db : Db)
    → c.call_id ≡ a.call_id
    → c.user_id ≡ a.user_id
    → IsSound db
    → (admit a db).0 ≡ ok tt
    → IsReady c (admit a db).1
unfolding admit
admit-IsReady a c db same_call same_user h done = elim (Result-cases (transaction (enter a) db).0) [
  | inl (_, returned) ↦
      let (entered, kept) = transaction_done (enter a) db tt returned in
      rw (catch_returns (transaction (enter a)) (on_refusal a) db tt returned, kept)
        (entered-IsReady a c (enter a db).1 same_call same_user (enter-IsEntered a db h entered))
  | inr (e, raised) ↦ absurd (
      on_refusal-raises a e _
        (rw (catch_raises (transaction (enter a)) (on_refusal a) db e raised) at done))
]
