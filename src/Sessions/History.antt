-- ===== src/Sessions/History.antt =====
-- app/accounts.py: any sequence of the requests that touch sessions.
use opsark_admin.Common.{
  ℕ, ◌≡◌, ◌≢◌, Bool, true, ◌||◌, Option, none, some, List, [], ◌∷◌, String, leb, ◌==◌, arith,
  Bool-cases, Option-cases, inl, inr,
}
use opsark_admin.Common.Table.{get}
use opsark_admin.Errors.{ok}
use opsark_admin.Exec.{◌>>=◌}
use opsark_admin.Models.{Db, UserSession}
use opsark_admin.Sessions
use opsark_admin.Sessions.{find_session, require_user}
use opsark_admin.Sessions.Revoked.{IsRevoked, find_session-AllRevoked}
use opsark_admin.Sessions.Kept.{
  login-Keeps, refresh_session-Keeps, logout-Keeps, set_user_status-Keeps,
  revoke_all_sessions-Keeps, revoke_user_session-Keeps,
}

pub data SessionRequest : Type 0 where
  login : String → Bool → ℕ → ℕ → ℕ → ℕ → SessionRequest
  refresh_session : ℕ → ℕ → ℕ → ℕ → SessionRequest
  logout : Option ℕ → ℕ → SessionRequest
  set_user_status : ℕ → Bool → Bool → SessionRequest
  revoke_all_sessions : ℕ → SessionRequest
  revoke_user_session : ℕ → ℕ → SessionRequest

-- The rows after one request.
unfoldable pub handle : SessionRequest → Db → Db
handle (SessionRequest.login email valid id access refresh now) db =
    (opsark_admin.Sessions.login email valid id access refresh now db).1
handle (SessionRequest.refresh_session presented access refresh now) db =
    (opsark_admin.Sessions.refresh_session presented access refresh now db).1
handle (SessionRequest.logout bearer now) db = (opsark_admin.Sessions.logout bearer now db).1
handle (SessionRequest.set_user_status u expected disabled) db =
    (opsark_admin.Sessions.set_user_status u expected disabled db).1
handle (SessionRequest.revoke_all_sessions u) db =
    (opsark_admin.Sessions.revoke_all_sessions u db).1
handle (SessionRequest.revoke_user_session u id) db =
    (opsark_admin.Sessions.revoke_user_session u id db).1

unfoldable pub handle_all : List SessionRequest → Db → Db
handle_all [] db = db
handle_all (request ∷ requests) db = handle_all requests (handle request db)

handle-IsRevoked :
    (id : ℕ) (request : SessionRequest) (db : Db)
    → IsRevoked id db
    → IsRevoked id (handle request db)
unfolding handle
handle-IsRevoked id (SessionRequest.login email valid k access refresh now) db h =
    (login-Keeps id email valid k access refresh now).at db h
handle-IsRevoked id (SessionRequest.refresh_session presented access refresh now) db h =
    (refresh_session-Keeps id presented access refresh now).at db h
handle-IsRevoked id (SessionRequest.logout bearer now) db h = (logout-Keeps id bearer now).at db h
handle-IsRevoked id (SessionRequest.set_user_status u expected disabled) db h =
    (set_user_status-Keeps id u expected disabled).at db h
handle-IsRevoked id (SessionRequest.revoke_all_sessions u) db h =
    (revoke_all_sessions-Keeps id u).at db h
handle-IsRevoked id (SessionRequest.revoke_user_session u k) db h =
    (revoke_user_session-Keeps id u k).at db h

pub handle_all-IsRevoked :
    (id : ℕ) (requests : List SessionRequest) (db : Db)
    → IsRevoked id db
    → IsRevoked id (handle_all requests db)
unfolding handle_all
handle_all-IsRevoked id [] db h = h
handle_all-IsRevoked id (request ∷ requests) db h =
    handle_all-IsRevoked id requests (handle request db) (handle-IsRevoked id request db h)

pub require_user-IsRevoked :
    (id : ℕ) (db : Db) (bearer : Option ℕ) (now : ℕ) (row : UserSession)
    → IsRevoked id db
    → (require_user bearer now db).0 ≢ ok (id, row)
unfolding require_user ◌>>=◌
require_user-IsRevoked id db none now row h e = cc e
require_user-IsRevoked id db (some hash) now row h e =
    elim (Option-cases (find_session (λ r. r.access_hash == hash) db.sessions)) [
      | inl missing ↦ cc (rw missing at e)
      | inr ((j, r), found) ↦ elim (Bool-cases (r.revoked || leb r.access_expires now)) [
        | inl over ↦ cc (rw (found, over) at e)
        | inr live ↦ elim (Option-cases (get r.user_id db.users)) [
          | inl unknown ↦ cc (rw (found, live, unknown) at e)
          | inr (account, known) ↦ elim (Bool-cases account.disabled) [
            | inl disabled ↦ cc (rw (found, live, known, disabled) at e)
            | inr enabled ↦
                let same : ok (j, r) ≡ ok (id, row) = rw (found, live, known, enabled) at e in
                let same_id : j ≡ id = cc same in
                let revoked : r.revoked ≡ true =
                  find_session-AllRevoked id (λ r'. r'.access_hash == hash) db.sessions r h.revoked
                    (rw (← same_id) found) in
                ground (arith, live, revoked)
          ]
        ]
      ]
    ]
