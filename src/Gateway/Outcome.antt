-- ===== src/Gateway/Outcome.antt =====
-- app/gateway.py, `completions`: every admitted call comes to an end, and what a caller is told of a
-- request that was never sent is true.
use opsark_admin.Common.{ℕ, ◌≡◌, refl, Bool, true, false, not, Option, none, some, arith, ap, ◌∙◌}
use opsark_admin.Common.Int.{ℤ, pos}
use opsark_admin.Common.Table.{get, update, get-update_self}
use opsark_admin.Errors.{Result, ok}
use opsark_admin.Exec.{◌>>=◌}
use opsark_admin.Exec.Keeps.{transaction_returns}
use opsark_admin.Models.{Db, CallStatus, CallError, ModelCall, ModelReservation, released}
use opsark_admin.Credits.{is_open, is_running, write_calls}
use opsark_admin.Credits.Sound.{IsSound}
use opsark_admin.Credits.Settlement.Outcome.{IsClosedBy, settle-IsClosedBy}
use opsark_admin.Gateway.Usage.{Pending}
use opsark_admin.Gateway.Exchange.{
  Call, Scope, on_db, outcome_row, usage_settlement, settle_usage, record_outcome, finish,
}

-- The journal's row of the call of a user: open, and with nothing held.
abbrev pub IsFresh : ℕ → Db → Type 0
IsFresh id db =
    (row : ModelReservation) × (get id db.reservations ≡ some row)
    × (is_open row.state ≡ true)
    × (row.amount ≡ pos 0)

abbrev pub ForUser : Option ℕ → Type 0 → Type 0
ForUser none P = Unit
ForUser (some user) P = P

-- An admitted call that has not ended yet.
pub record IsReady (c : Call) (db : Db) : Type 0 where
  pub sound : IsSound db
  pub call : (row : ModelCall) × (get c.call_id db.calls ≡ some row)
  pub journal : ForUser c.user_id (IsFresh c.call_id db)

abbrev IsShut : ℕ → Db → Type 0
IsShut id db =
    (row : ModelReservation) × (get id db.reservations ≡ some row) × (is_open row.state ≡ false)

-- The call has an outcome, and no open row is left in the journal.
pub record IsEnded (c : Call) (db : Db) : Type 0 where
  pub call :
      (row : ModelCall) × (get c.call_id db.calls ≡ some row) × (is_running row.status ≡ false)
  pub journal : ForUser c.user_id (IsShut c.call_id db)

abbrev IsReleased : ℕ → Db → Type 0
IsReleased id db =
    (row : ModelReservation) × (get id db.reservations ≡ some row)
    × (row.state ≡ released)
    × (row.actual ≡ some (pos 0))

-- The call has cost nothing.
pub record IsFree (c : Call) (db db' : Db) : Type 0 where
  pub accounts : db'.accounts ≡ db.accounts
  pub ledger : db'.ledger ≡ db.ledger
  pub journal : ForUser c.user_id (IsReleased c.call_id db')

-- The rows after `finish`.
record IsFinal (c : Call) (dispatched : Bool) (db : Db) (p : Result (Unit {0}) × Db) : Type 0 where
  done : p.0 ≡ ok tt
  ended : IsEnded c p.1
  free : dispatched ≡ false → IsFree c db p.1

-- The rows with the outcome of the call.
abbrev with_call : Call → Pending → CallStatus → Option CallError → Option ℕ → Db → Db
with_call c pending status code http db = record db {
  calls = update c.call_id (outcome_row c pending status code http) db.calls;
}

with_call-IsSound :
    (c : Call) (pending : Pending) (status : CallStatus) (code : Option CallError) (http : Option ℕ)
    (db : Db)
    → IsSound db
    → IsSound (with_call c pending status code http db)
with_call-IsSound c pending status code http db h = record {
  nonneg = h.nonneg;
  holds = h.holds;
  amounts = h.amounts;
  rows = h.rows;
}

module _ (c : Call) (pending : Pending) (status : CallStatus) (over : is_running status ≡ false)
    (code : Option CallError) (http : Option ℕ) (db : Db) where
  ended_call :
      (row : ModelCall)
      → get c.call_id db.calls ≡ some row
      → (r : ModelCall) × (get c.call_id (with_call c pending status code http db).calls ≡ some r)
        × (is_running r.status ≡ false)
  unfolding outcome_row
  ended_call row found =
      (outcome_row c pending status code http row, rw (get-update_self, found) refl, over)

  settled-IsFinal :
      (user : ℕ) (dispatched : Bool) (actual : Option ℤ) (p : Result (Unit {0}) × Db)
      → c.user_id ≡ some user
      → (row : ModelCall) → get c.call_id db.calls ≡ some row
      → IsClosedBy c.call_id
          (usage_settlement actual (not dispatched))
          (with_call c pending status code http db)
          p
      → IsFinal c dispatched db p
  unfolding usage_settlement
  settled-IsFinal user dispatched actual p official row found h =
      let (r, there, over) = ended_call row found in
      record {
        done = h.done;
        ended = record {
          call = (r, ap (get c.call_id) h.calls ∙ there, over);
          journal = rw official h.row;
        };
        free = λ unsent.
            let (accounts, ledger, row) = h.free (ground arith) in
            record { accounts = accounts; ledger = ledger; journal = rw official row };
      }

  -- The settlement that goes with the outcome.
  settle_usage-IsFinal :
      (user : Option ℕ) (dispatched : Bool)
      → c.user_id ≡ user
      → (row : ModelCall) → get c.call_id db.calls ≡ some row
      → IsSound db
      → ForUser user (IsFresh c.call_id db)
      → IsFinal c dispatched db
          (settle_usage user c dispatched (with_call c pending status code http db))
  unfolding settle_usage usage_settlement ◌>>=◌
  settle_usage-IsFinal none dispatched guest row found h journal = record {
    done = refl;
    ended = record { call = ended_call row found; journal = rw guest tt };
    free = λ unsent. record { accounts = refl; ledger = refl; journal = rw guest tt };
  }
  settle_usage-IsFinal (some user) dispatched official row found h (r, there, fresh, zero) =
      settled-IsFinal user dispatched _ _ official row found (
        settle-IsClosedBy c.call_id r (with_call c pending status code http db)
          (with_call-IsSound c pending status code http db h) there (usage_settlement _ _) refl
          c.ended_at fresh zero)

  record_outcome-IsFinal :
      (dispatched : Bool)
      → IsReady c db
      → IsFinal c dispatched db (record_outcome c pending dispatched status code http db)
  unfolding record_outcome write_calls ◌>>=◌
  record_outcome-IsFinal dispatched h =
      settle_usage-IsFinal c.user_id dispatched refl h.call.0 h.call.1 h.sound h.journal

-- `finish` returns, and its rows are those of `record_outcome`.
pub record IsFinished (c : Call) (before : Scope) (p : Result (Unit {0}) × Scope) : Type 0 where
  pub done : p.0 ≡ ok tt
  pub ended : IsEnded c p.1.db
  pub free : before.dispatched ≡ false → IsFree c before.db p.1.db
  pub local : (p.1.dispatched ≡ before.dispatched) × (p.1.received ≡ before.received)

pub finish-IsFinished :
    (c : Call) (status : CallStatus) (code : Option CallError) (http : Option ℕ) (s : Scope)
    → is_running status ≡ false
    → IsReady c s.db
    → IsFinished c s (finish c status code http s)
unfolding finish on_db ◌>>=◌
finish-IsFinished c status code http s over h =
    let final = record_outcome-IsFinal c s.pending status over code http s.db s.dispatched h in
    rw
      (transaction_returns (record_outcome c s.pending s.dispatched status code http) s.db tt
        final.done)
      (record { done = refl; ended = final.ended; free = final.free; local = (refl, refl) })
