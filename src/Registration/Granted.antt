-- ===== src/Registration/Granted.antt =====
-- app/accounts.py, `register`: the balance of a new user.
use opsark_admin.Common.{ℕ, ◌≡◌, refl, Bool, none, String, arith, Option-cases, inl, inr, ◌∙◌}
use opsark_admin.Common.Int.{ℤ}
use opsark_admin.Common.Table.{Table, get, insert, get-insert}
use opsark_admin.Errors.{
  Error, api_error, integrity_error, value_error, unhandled_error, transport, cancelled_error,
}
use opsark_admin.Exec.{transaction, ◌>>=◌}
use opsark_admin.Exec.Keeps.{Keeps, keeps_rules, Keeps-modify, Keeps-transaction}
use opsark_admin.Models.{Db, UserAccount, UserSession}
use opsark_admin.Credits.{change, balance}
use opsark_admin.Credits.Balance.{
  IsBalanced, IsNonneg, available_of, reserved_of, change-IsBalanced,
}
use opsark_admin.Credits.Sound.{IsSound, IsSoundRow}
use opsark_admin.Accounts.Sound.{free_change-Keeps}
use opsark_admin.Sessions.{write_users, write_sessions, lock_user, add_session, issue_session}
use opsark_admin.Registration.{
  add_user, empty_account, write_accounts, add_account, initial_grant, open_account, Tokens, enrol,
  on_taken, register,
}

-- A property that says nothing of users and sessions.
module _ {P : Db → Type 0}
    (frame : (db : Db) (users : Table UserAccount) (sessions : Table UserSession)
      → P db
      → P (record db { users = users; sessions = sessions })) where
  pub write_users-Keeps : (f : Table UserAccount → Table UserAccount) → Keeps P (write_users f)
  unfolding write_users
  write_users-Keeps f = Keeps-modify _ (λ db h. frame db (f db.users) db.sessions h)

  pub write_sessions-Keeps :
      (f : Table UserSession → Table UserSession) → Keeps P (write_sessions f)
  unfolding write_sessions
  write_sessions-Keeps f = Keeps-modify _ (λ db h. frame db db.users (f db.sessions) h)

  add_user-Keeps : (id : ℕ) (user : UserAccount) → Keeps P (add_user id user)
  unfolding add_user
  add_user-Keeps id user = search (keeps_rules, write_users-Keeps) depth 8

  pub lock_user-Keeps : (u : ℕ) (active : Bool) → Keeps P (lock_user u active)
  unfolding lock_user
  lock_user-Keeps u active = search keeps_rules

  add_session-Keeps : (id : ℕ) (row : UserSession) → Keeps P (add_session id row)
  unfolding add_session
  add_session-Keeps id row = search (keeps_rules, write_sessions-Keeps) depth 8

  pub issue_session-Keeps : (u i a r now : ℕ) → Keeps P (issue_session u i a r now)
  unfolding issue_session
  issue_session-Keeps u i a r now = search (keeps_rules, lock_user-Keeps, add_session-Keeps)

  -- A property of balances, ledger and journal that an empty account and a grant keep.
  module _ (keeps_account : (u : ℕ) → Keeps P (add_account u))
      (keeps_grant : (u : ℕ) (tokens : ℤ) (reason : String) (now : ℕ)
        → Keeps P (change u (initial_grant tokens reason now))) where
    pub open_account-Keeps :
        (id : ℕ) (user : UserAccount) (tokens : ℤ) (reason : String) (now : ℕ)
        → Keeps P (open_account id user tokens reason now)
    unfolding open_account
    open_account-Keeps id user tokens reason now =
        search (keeps_rules, add_user-Keeps, keeps_account, keeps_grant)

    enrol-Keeps :
        (id : ℕ) (user : UserAccount) (tokens : ℤ) (reason : String) (fresh : Tokens) (now : ℕ)
        → Keeps P (transaction (enrol id user tokens reason fresh now))
    unfolding enrol
    enrol-Keeps id user tokens reason fresh now =
        Keeps-transaction _ (search (keeps_rules, open_account-Keeps, issue_session-Keeps))

    on_taken-Keeps : (e : Error) → Keeps P (on_taken e)
    unfolding on_taken
    on_taken-Keeps (api_error status code) = search keeps_rules
    on_taken-Keeps integrity_error = search keeps_rules
    on_taken-Keeps value_error = search keeps_rules
    on_taken-Keeps unhandled_error = search keeps_rules
    on_taken-Keeps (transport failure) = search keeps_rules
    on_taken-Keeps cancelled_error = search keeps_rules

    balance-Keeps : (u : ℕ) → Keeps P (balance u)
    unfolding balance
    balance-Keeps u = search keeps_rules

    pub register-Keeps :
        (id : ℕ) (email : String) (hash : ℕ) (reason : String) (fresh : Tokens) (now : ℕ)
        → Keeps P (register id email hash reason fresh now)
    unfolding register
    register-Keeps id email hash reason fresh now =
        search (keeps_rules, enrol-Keeps, on_taken-Keeps, balance-Keeps) depth 12

module _ (u : ℕ) (db : Db) (free : get u db.accounts ≡ none) where
  with_account : Db
  with_account = record db { accounts = insert u empty_account db.accounts }

  -- An account that is not there has a balance of zero, and so has an empty one.
  account_same :
      (v : ℕ)
      → (available_of v with_account.accounts ≡ available_of v db.accounts)
        × (reserved_of v with_account.accounts ≡ reserved_of v db.accounts)
  unfolding with_account
  account_same v = ground (arith, get-insert u v empty_account db.accounts)

  IsNonneg-same : (v : ℕ) → IsNonneg (get v db.accounts) → IsNonneg (get v with_account.accounts)
  unfolding with_account
  IsNonneg-same v h = ground (arith, get-insert u v empty_account db.accounts)

  with_account-IsBalanced : IsBalanced db → IsBalanced with_account
  unfolding with_account
  with_account-IsBalanced h = record {
    available_sum = λ v. (account_same v).0 ∙ h.available_sum v;
    reserved_sum = λ v. (account_same v).1 ∙ h.reserved_sum v;
    nonneg = λ v. IsNonneg-same v (h.nonneg v);
  }

  row_same :
      (id : ℕ)
      → IsSoundRow id (get id db.reservations) db.accounts db.ledger
      → IsSoundRow id (get id db.reservations) with_account.accounts db.ledger
  unfolding with_account
  row_same id h = elim (Option-cases (get id db.reservations)) [
    | inl missing ↦ rw missing (rw missing at h)
    | inr (row, there) ↦
        let old = rw there at h in
        rw there (ground (arith, get-insert u row.user_id empty_account db.accounts), old.1, old.2)
  ]

  with_account-IsSound : IsSound db → IsSound with_account
  unfolding with_account
  with_account-IsSound h = record {
    nonneg = λ v. IsNonneg-same v (h.nonneg v);
    holds = λ v. (account_same v).1 ∙ h.holds v;
    amounts = h.amounts;
    rows = λ id. row_same id (h.rows id);
  }

pub add_account-IsBalanced : (u : ℕ) → Keeps IsBalanced (add_account u)
unfolding add_account write_accounts with_account ◌>>=◌
add_account-IsBalanced u = record {
  at = λ db h. elim (Option-cases (get u db.accounts)) [
    | inl free ↦ rw free (with_account-IsBalanced u db free h)
    | inr (account, taken) ↦ rw taken h
  ];
}

pub add_account-IsSound : (u : ℕ) → Keeps IsSound (add_account u)
unfolding add_account write_accounts with_account ◌>>=◌
add_account-IsSound u = record {
  at = λ db h. elim (Option-cases (get u db.accounts)) [
    | inl free ↦ rw free (with_account-IsSound u db free h)
    | inr (account, taken) ↦ rw taken h
  ];
}

pub frame-IsBalanced :
    (db : Db) (users : Table UserAccount) (sessions : Table UserSession)
    → IsBalanced db
    → IsBalanced (record db { users = users; sessions = sessions })
frame-IsBalanced db users sessions h = record {
  available_sum = h.available_sum;
  reserved_sum = h.reserved_sum;
  nonneg = h.nonneg;
}

pub frame-IsSound :
    (db : Db) (users : Table UserAccount) (sessions : Table UserSession)
    → IsSound db
    → IsSound (record db { users = users; sessions = sessions })
frame-IsSound db users sessions h = record {
  nonneg = h.nonneg;
  holds = h.holds;
  amounts = h.amounts;
  rows = h.rows;
}

pub grant-IsSound :
    (u : ℕ) (tokens : ℤ) (reason : String) (now : ℕ)
    → Keeps IsSound (change u (initial_grant tokens reason now))
unfolding initial_grant
grant-IsSound u tokens reason now =
    free_change-Keeps u (initial_grant tokens reason now) refl (λ j. refl)

-- The rows of a new user, by password or by GitHub, leave balances and ledger in agreement.
pub open_account-IsBalanced :
    (id : ℕ) (user : UserAccount) (tokens : ℤ) (reason : String) (now : ℕ)
    → Keeps IsBalanced (open_account id user tokens reason now)
open_account-IsBalanced =
    open_account-Keeps frame-IsBalanced add_account-IsBalanced (λ u t r n. change-IsBalanced u _)

-- If every balance is the sum of the ledger's entries for its user, then so it is after a
-- registration, whether it is accepted or refused, with the grant of the new user in the ledger.
pub register-IsBalanced :
    (id : ℕ) (email : String) (hash : ℕ) (reason : String) (fresh : Tokens) (now : ℕ) (db : Db)
    → IsBalanced db
    → IsBalanced (register id email hash reason fresh now db).1
register-IsBalanced id email hash reason fresh now db h =
    (register-Keeps frame-IsBalanced add_account-IsBalanced (λ u t r n. change-IsBalanced u _) id
        email hash reason fresh now).at
      db h

-- From sound accounts, journal and ledger a registration leads to sound ones.
pub register-IsSound :
    (id : ℕ) (email : String) (hash : ℕ) (reason : String) (fresh : Tokens) (now : ℕ) (db : Db)
    → IsSound db
    → IsSound (register id email hash reason fresh now db).1
register-IsSound id email hash reason fresh now db h =
    (register-Keeps frame-IsSound add_account-IsSound grant-IsSound id email hash reason fresh
        now).at
      db h
