-- ===== src/Service.antt =====
-- The service as a whole: the transactions of app/credits.py, app/accounts.py, app/gateway.py and
-- app/github_auth.py over one database, interleaved in any order. A call of a model is an
-- admission and later an outcome, and anything may come between them, also where the process is
-- lost and the outcome never comes.
pub mod Kept
pub mod Reached
mod Tests
use opsark_admin.Common.{ℕ, Bool, Option, none, List, [], String}
use opsark_admin.Common.Int.{ℤ}
use opsark_admin.Exec.{transaction}
use opsark_admin.Models.{Db, UserAccount, CallStatus, CallError, RegistrationPolicy}
use opsark_admin.Accounts.History.{Operation, perform}
use opsark_admin.Sessions.History
use opsark_admin.Sessions.History.{SessionRequest}
use opsark_admin.Registration.{Tokens, open_account, register, save_policy}
use opsark_admin.Gateway.{Admission, admit}
use opsark_admin.Gateway.Usage.{Pending}
use opsark_admin.Gateway.Exchange.{Call, record_outcome}

abbrev pub empty_db : Db
empty_db = record {
  accounts = [];
  ledger = [];
  reservations = [];
  calls = [];
  users = [];
  sessions = [];
  policy = none;
}

-- One transaction, or one request that is a single transaction, with whatever arguments.
pub data Step : Db → Db → Type 0 where
  performed : (op : Operation) (db : Db) → Step db (perform op db)
  admitted : (a : Admission) (db : Db) → Step db (admit a db).1
  finished :
      (c : Call) (pending : Pending) (dispatched : Bool) (status : CallStatus)
      (code : Option CallError) (http : Option ℕ) (db : Db)
      → Step db (transaction (record_outcome c pending dispatched status code http) db).1
  registered :
      (id : ℕ) (email : String) (hash : ℕ) (reason : String) (fresh : Tokens) (now : ℕ) (db : Db)
      → Step db (register id email hash reason fresh now db).1
  -- A first sign-in with GitHub.
  joined :
      (id : ℕ) (user : UserAccount) (tokens : ℤ) (reason : String) (now : ℕ) (db : Db)
      → Step db (transaction (open_account id user tokens reason now) db).1
  handled :
      (request : SessionRequest) (db : Db)
      → Step db (opsark_admin.Sessions.History.handle request db)
  policy_saved :
      (aliases : List String) (body : RegistrationPolicy) (db : Db)
      → Step db (save_policy aliases body db).1

-- What follows an empty database.
pub data Reach : Db → Type 0 where
  start : Reach empty_db
  later : {db after : Db} → Reach db → Step db after → Reach after
