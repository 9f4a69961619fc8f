-- ===== src/Registration.antt =====
-- app/accounts.py: the policy of registration, and the registration of a user with the credit account
-- and the grant that go with it. The email and the password arrive validated, the password as its
-- hash, fresh tokens as their digests; the rate limit and the audit row are left out.
pub mod Granted
pub mod Policy
mod Tests
use opsark_admin.Common.{
  ℕ, ◌+◌, Bool, true, false, ◌&&◌, not, Option, none, some, List, [], ◌∷◌, String, all, any, ◌==◌,
  if◌then◌else◌,
}
use opsark_admin.Common.Int.{ℤ, pos}
use opsark_admin.Common.Table.{Table, get, insert}
use opsark_admin.Errors.{
  Error, api_error, integrity_error, registration_disabled, registration_conflict, unknown_model,
  policy_conflict,
}
use opsark_admin.Exec.{
  Exec, pure, raise, gets, modify, catch, transaction, ◌>>=◌, ◌>>◌, match_option,
}
use opsark_admin.Models.{
  Db, CreditAccount, OperationKey, LedgerKind, Actor, UserAccount, RegistrationPolicy,
}
use opsark_admin.Credits.{Change, balance, change}
use opsark_admin.Accounts.{text_eq}
use opsark_admin.Sessions.{write_users, find_user, issue_session}

abbrev pub no_policy : RegistrationPolicy
no_policy = record { enabled = false; initial_tokens = pos 0; allowed_models = []; revision = 0 }

-- `policy`
unfoldable pub policy_of : Db → RegistrationPolicy
policy_of db = elim db.policy [ none ↦ no_policy | some row ↦ row ]

unfoldable pub new_user : String → ℕ → ℕ → UserAccount
new_user email password_hash now = record {
  email = email;
  password_hash = password_hash;
  disabled = false;
  created_at = now;
}

abbrev pub is_known : Option (ℕ × UserAccount) → Bool
is_known none = false
is_known (some user) = true

-- The primary key and the unique email.
unfoldable pub add_user : ℕ → UserAccount → Exec Db Unit
add_user id user = do
  same_id ← gets (λ db. get id db.users)
  same_email ← gets (λ db. is_known (find_user user.email db.users))
  match_option same_id (if same_email then raise integrity_error else write_users (insert id user))
      λ _. raise integrity_error

abbrev pub empty_account : CreditAccount
empty_account = record { available = pos 0; reserved = pos 0; revision = 0 }

unfoldable pub write_accounts : (Table CreditAccount → Table CreditAccount) → Exec Db Unit
write_accounts f = modify (λ db. record db { accounts = f db.accounts })

unfoldable pub add_account : ℕ → Exec Db Unit
add_account user_id = do
  same ← gets (λ db. get user_id db.accounts)
  match_option same (write_accounts (insert user_id empty_account)) λ _. raise integrity_error

unfoldable pub initial_grant : ℤ → String → ℕ → Change
initial_grant tokens reason now = record {
  delta = tokens;
  reserved_delta = pos 0;
  kind = LedgerKind.initial_grant;
  operation_key = OperationKey.registration;
  actor_id = Actor.registration;
  reason = reason;
  created_at = now;
}

-- The rows of a new user: the same statements serve the registration by password and by GitHub.
unfoldable pub open_account : ℕ → UserAccount → ℤ → String → ℕ → Exec Db Unit
open_account id user tokens reason now = do
  add_user id user
  add_account id
  change id (initial_grant tokens reason now)

-- The digests and the id of a session.
pub record Tokens : Type 0 where
  pub session_id : ℕ
  pub access : ℕ
  pub refresh : ℕ

-- The body of the `try`.
unfoldable pub enrol : ℕ → UserAccount → ℤ → String → Tokens → ℕ → Exec Db Unit
enrol id user tokens reason fresh now = do
  open_account id user tokens reason now
  issue_session id fresh.session_id fresh.access fresh.refresh now

-- `except IntegrityError`
unfoldable pub on_taken : Error → Exec Db Unit
on_taken integrity_error = raise (api_error 409 registration_conflict)
on_taken e = raise e

unfoldable pub register : ℕ → String → ℕ → String → Tokens → ℕ → Exec Db CreditAccount
register id email password_hash reason fresh now = do
  policy ← gets policy_of
  if not policy.enabled then raise (api_error 403 registration_disabled) else do
    catch
        (transaction
          (enrol id (new_user email password_hash now) policy.initial_tokens reason fresh now))
        on_taken
    balance id

abbrev pub is_in : String → List String → Bool
is_in name = any (text_eq name)

unfoldable pub write_policy : RegistrationPolicy → Exec Db Unit
write_policy row = modify (λ db. record db { policy = some row })

-- The row that the body describes, with the next revision.
unfoldable pub next_policy : RegistrationPolicy → RegistrationPolicy
next_policy body = record body { revision = body.revision + 1 }

-- The body carries the revision that it was read at; `aliases` are those of the routes.
unfoldable pub save_policy : List String → RegistrationPolicy → Exec Db RegistrationPolicy
save_policy aliases body =
    if not (all (λ name. is_in name aliases) body.allowed_models)
    then raise (api_error 422 unknown_model)
    else do
      current ← gets (λ db. db.policy)
      match_option current
          (if body.revision == 0
            then write_policy (next_policy body)
            else raise (api_error 409 policy_conflict))
          λ row.
            if row.revision == body.revision
            then write_policy (next_policy body)
            else raise (api_error 409 policy_conflict)
      gets policy_of
