-- ===== src/Service/Reached.antt =====
-- The service as a whole: what holds in every state that it can reach.
use opsark_admin.Common.{ℕ, refl, Option, ◌≡◌, arith}
use opsark_admin.Common.Table.{Table}
use opsark_admin.Exec.Keeps.{Keeps}
use opsark_admin.Models.{
  Db, UserAccount, UserSession, RegistrationPolicy, ModelCall, ModelReservation,
}
use opsark_admin.Credits.Audit.{IsTrail, change-IsTrail}
use opsark_admin.Credits.Sound.{IsSound}
use opsark_admin.Credits.Journal.{settle-Keeps, begin_direct_call-Keeps}
use opsark_admin.Credits.Admission.{begin_direct_call-IsSound}
use opsark_admin.Credits.Settlement.Whole.{settle-IsSound}
use opsark_admin.Accounts.History.{perform-Keeps, perform-IsSound, frame-IsBalanced}
use opsark_admin.Registration.Granted.{add_account-IsBalanced, add_account-IsSound, grant-IsSound}
use opsark_admin.Registration.{add_account, write_accounts}
use opsark_admin.Exec.{◌>>=◌}
use opsark_admin.Credits.{write_calls}
use opsark_admin.Gateway.Slots.{write_calls-IsSound}
use opsark_admin.Service.{empty_db, Reach, start, later}
use opsark_admin.Service.Kept.{Step-Keeps}

empty-IsTrail : IsTrail empty_db
empty-IsTrail = record {
  balanced = record { available_sum = λ u. refl; reserved_sum = λ u. refl; nonneg = λ u. tt };
  audited = tt;
  once = λ u key. omega arith;
}

empty-IsSound : IsSound empty_db
empty-IsSound = record { nonneg = λ u. tt; holds = λ u. refl; amounts = tt; rows = λ id. refl }

journal-IsTrail :
    (db : Db) (reservations : Table ModelReservation) (calls : Table ModelCall)
    → IsTrail db
    → IsTrail (record db { reservations = reservations; calls = calls })
journal-IsTrail db reservations calls h = record {
  balanced = frame-IsBalanced db reservations calls h.balanced;
  audited = h.audited;
  once = h.once;
}

users-IsTrail :
    (db : Db) (users : Table UserAccount) (sessions : Table UserSession)
    (policy : Option RegistrationPolicy)
    → IsTrail db
    → IsTrail (record db { users = users; sessions = sessions; policy = policy })
users-IsTrail db users sessions policy h = record {
  balanced = record {
    available_sum = h.balanced.available_sum;
    reserved_sum = h.balanced.reserved_sum;
    nonneg = h.balanced.nonneg;
  };
  audited = h.audited;
  once = h.once;
}

users-IsSound :
    (db : Db) (users : Table UserAccount) (sessions : Table UserSession)
    (policy : Option RegistrationPolicy)
    → IsSound db
    → IsSound (record db { users = users; sessions = sessions; policy = policy })
users-IsSound db users sessions policy h = record {
  nonneg = h.nonneg;
  holds = h.holds;
  amounts = h.amounts;
  rows = h.rows;
}

write_calls-IsTrail : (f : Table ModelCall → Table ModelCall) → Keeps IsTrail (write_calls f)
unfolding write_calls ◌>>=◌
write_calls-IsTrail f = record { at = λ db h. journal-IsTrail db db.reservations (f db.calls) h }

-- The ledger and the other rows are what they were.
add_account_ledger : (u : ℕ) (db : Db) → (add_account u db).1.ledger ≡ db.ledger
unfolding add_account write_accounts ◌>>=◌
add_account_ledger u db = ground arith

add_account-IsTrail : (u : ℕ) → Keeps IsTrail (add_account u)
add_account-IsTrail u = record {
  at = λ db h. record {
    balanced = (add_account-IsBalanced u).at db h.balanced;
    audited = rw (add_account_ledger u db) h.audited;
    once = rw (add_account_ledger u db) h.once;
  };
}

-- Whatever transactions the service commits or rolls back, in whatever order they interleave, from
-- an empty database: every balance is the sum of the ledger's entries for its user and never
-- negative, each entry tells the balances of its user after it, and no operation key of a user is
-- entered twice.
pub Reach-IsTrail : {db : Db} → Reach db → IsTrail db
Reach-IsTrail start = empty-IsTrail
Reach-IsTrail (later before step) =
    Step-Keeps users-IsTrail (perform-Keeps change-IsTrail journal-IsTrail) write_calls-IsTrail
      (settle-Keeps change-IsTrail journal-IsTrail)
      (begin_direct_call-Keeps change-IsTrail journal-IsTrail) add_account-IsTrail
      (λ u tokens reason now. change-IsTrail u _) step (Reach-IsTrail before)

-- Whatever transactions the service commits or rolls back, in whatever order they interleave, from
-- an empty database: the reserved balance of every user is the sum of what the unresolved calls
-- hold, no call that is unresolved or unknown was charged, and every call in the journal has a
-- user with an account.
pub Reach-IsSound : {db : Db} → Reach db → IsSound db
Reach-IsSound start = empty-IsSound
Reach-IsSound (later before step) =
    Step-Keeps users-IsSound perform-IsSound write_calls-IsSound
      (λ id s now. record { at = settle-IsSound id s now })
      (λ u id k hash now. record { at = begin_direct_call-IsSound u id k hash now })
      add_account-IsSound grant-IsSound step (Reach-IsSound before)
