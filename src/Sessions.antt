-- ===== src/Sessions.antt =====
-- app/accounts.py: the sessions of users. A token reaches a handler as its digest, the digests of
-- fresh tokens and the verdict of the password hasher as arguments; the rate limit and the audit
-- rows are left out. A handler commits before it reads the balance for its reply.
pub mod Revoked
pub mod Kept
pub mod History
pub mod Ended
mod Tests
use opsark_admin.Common.{
  ℕ, ◌+◌, Bool, true, false, ◌&&◌, ◌||◌, not, Option, none, some, List, [], ◌∷◌, String, any, leb,
  ltb, ◌==◌, if◌then◌else◌,
}
use opsark_admin.Common.Table.{Table, get, update, insert}
use opsark_admin.Errors.{
  api_error, integrity_error, user_not_found, user_session_expired, invalid_credentials,
  user_status_conflict, user_session_not_found,
}
use opsark_admin.Exec.{Exec, pure, raise, gets, modify, ◌>>=◌, ◌>>◌, match_option}
use opsark_admin.Models.{Db, UserAccount, UserSession, CreditAccount}
use opsark_admin.Credits.{balance}
use opsark_admin.Accounts.{text_eq}

unfoldable pub write_sessions : (Table UserSession → Table UserSession) → Exec Db Unit
write_sessions f = modify (λ db. record db { sessions = f db.sessions })

unfoldable pub write_users : (Table UserAccount → Table UserAccount) → Exec Db Unit
write_users f = modify (λ db. record db { users = f db.users })

-- The result is the user's `disabled`.
unfoldable pub lock_user : ℕ → Bool → Exec Db Bool
lock_user user_id active_only = do
  row ← gets (λ db. get user_id db.users)
  match_option row
      (raise
        (if active_only then api_error 401 user_session_expired else api_error 404 user_not_found))
      λ user.
        if active_only && user.disabled
        then raise (api_error 401 user_session_expired)
        else pure user.disabled

-- The first row that passes a test.
unfoldable pub find_session : (UserSession → Bool) → Table UserSession → Option (ℕ × UserSession)
find_session p [] = none
find_session p ((id, row) ∷ rows) = if p row then some (id, row) else find_session p rows

unfoldable pub find_user : String → Table UserAccount → Option (ℕ × UserAccount)
find_user email [] = none
find_user email ((id, row) ∷ rows) =
    if text_eq row.email email then some (id, row) else find_user email rows

-- The unique constraints of the two hashes, for a row that is written.
unfoldable pub hash_taken : ℕ → ℕ → ℕ → Table UserSession → Bool
hash_taken own access refresh =
    any (λ (id, row).
      not (id == own) && ((row.access_hash == access) || (row.refresh_hash == refresh)))

unfoldable pub add_session : ℕ → UserSession → Exec Db Unit
add_session id session = do
  same_id ← gets (λ db. get id db.sessions)
  taken ← gets (λ db. hash_taken id session.access_hash session.refresh_hash db.sessions)
  match_option same_id (if taken then raise integrity_error else write_sessions (insert id session))
      λ _. raise integrity_error

unfoldable pub issue_session : ℕ → ℕ → ℕ → ℕ → ℕ → Exec Db Unit
issue_session user_id id access refresh now = do
  lock_user user_id true
  add_session id (record {
    user_id = user_id;
    access_hash = access;
    refresh_hash = refresh;
    access_expires = now + 900000;
    refresh_expires = now + 2592000000;
    revoked = false;
  })

unfoldable pub login : String → Bool → ℕ → ℕ → ℕ → ℕ → Exec Db CreditAccount
login email valid id access refresh now = do
  user ← gets (λ db. find_user email db.users)
  match_option user (raise (api_error 401 invalid_credentials)) λ (user_id, row).
      if not valid || row.disabled
      then raise (api_error 401 invalid_credentials)
      else do issue_session user_id id access refresh now; balance user_id

-- The bearer's digest is missing if the header is no "Bearer ouc_" one.
unfoldable pub require_user : Option ℕ → ℕ → Exec Db (ℕ × UserSession)
require_user bearer now = do
  session ←
      match_option bearer (pure none)
        λ hash. gets (λ db. find_session (λ row. row.access_hash == hash) db.sessions)
  match_option session (raise (api_error 401 user_session_expired)) λ (id, row).
      if row.revoked || leb row.access_expires now
      then raise (api_error 401 user_session_expired)
      else do
        user ← gets (λ db. get row.user_id db.users)
        match_option user (raise (api_error 401 user_session_expired)) λ account.
            if account.disabled then raise (api_error 401 user_session_expired) else pure (id, row)

unfoldable pub rotated : ℕ → ℕ → ℕ → UserSession → UserSession
rotated access refresh now row = record row {
  access_hash = access;
  refresh_hash = refresh;
  access_expires = now + 900000;
}

-- The conditional UPDATE; the lock has shown that the user is enabled.
unfoldable pub rotate_session : ℕ → UserSession → ℕ → ℕ → ℕ → Exec Db Unit
rotate_session id row access refresh now =
    if row.revoked || leb row.refresh_expires now
    then raise (api_error 401 user_session_expired)
    else do
      taken ← gets (λ db. hash_taken id access refresh db.sessions)
      if taken
          then raise integrity_error
          else write_sessions (update id (rotated access refresh now))

unfoldable pub refresh_session : ℕ → ℕ → ℕ → ℕ → Exec Db CreditAccount
refresh_session presented access refresh now = do
  found ← gets (λ db. find_session (λ row. row.refresh_hash == presented) db.sessions)
  match_option found (raise (api_error 401 user_session_expired)) λ (id, row). do
    lock_user row.user_id true
    rotate_session id row access refresh now
    balance row.user_id

abbrev pub revoke : UserSession → UserSession
revoke row = record row { revoked = true }

-- `revoked=True` for all of a user's sessions.
unfoldable pub revoke_where : ℕ → Table UserSession → Table UserSession
revoke_where user_id [] = []
revoke_where user_id ((id, row) ∷ rows) =
    (id, if row.user_id == user_id then revoke row else row) ∷ revoke_where user_id rows

-- The dependency `require_user` gives the session.
unfoldable pub logout : Option ℕ → ℕ → Exec Db Unit
logout bearer now = do session ← require_user bearer now; write_sessions (update session.0 revoke)

abbrev pub same_flag : Bool → Bool → Bool
same_flag true b = b
same_flag false b = not b

unfoldable pub set_disabled : Bool → UserAccount → UserAccount
set_disabled disabled row = record row { disabled = disabled }

unfoldable pub set_user_status : ℕ → Bool → Bool → Exec Db Unit
set_user_status user_id expected_disabled disabled = do
  current ← lock_user user_id false
  if not (same_flag current expected_disabled)
      then raise (api_error 409 user_status_conflict)
      else if same_flag current disabled
      then pure tt
      else do
        write_users (update user_id (set_disabled disabled))
        if disabled then write_sessions (revoke_where user_id) else pure tt

unfoldable pub revoke_all_sessions : ℕ → Exec Db Unit
revoke_all_sessions user_id = do lock_user user_id false; write_sessions (revoke_where user_id)

unfoldable pub revoke_user_session : ℕ → ℕ → Exec Db Unit
revoke_user_session user_id session_id = do
  lock_user user_id false
  session ← gets (λ db. get session_id db.sessions)
  match_option session (raise (api_error 404 user_session_not_found)) λ row.
      if row.user_id == user_id
      then write_sessions (update session_id revoke)
      else raise (api_error 404 user_session_not_found)
