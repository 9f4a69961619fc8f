-- ===== src/Sessions/Tests.antt =====
-- app/accounts.py at one user with a session.
use opsark_admin.Common.{◌≢◌, refl, true, false, some, List, [], ◌∷◌}
use opsark_admin.Errors.{ok}
use opsark_admin.Models.{Db, UserAccount, UserSession}
use opsark_admin.Sessions.{require_user}
use opsark_admin.Sessions.History.{SessionRequest, handle_all}
use opsark_admin.Sessions.Ended.{handle_all-require_user}
use opsark_admin.Credits.Samples.{db}

abbrev user : UserAccount
user = record { email = "a@b.c"; password_hash = 77; disabled = false; created_at = 5 }

abbrev old_session : UserSession
old_session = record {
  user_id = 1;
  access_hash = 100;
  refresh_hash = 200;
  access_expires = 900000;
  refresh_expires = 2592000000;
  revoked = false;
}

abbrev with_session : Db
with_session = record db { users = (1, user) ∷ []; sessions = (4, old_session) ∷ [] }

abbrev disabling : SessionRequest
disabling = SessionRequest.set_user_status 1 false true

abbrev later_requests : List SessionRequest
later_requests =
    SessionRequest.refresh_session 200 101 201 50
    ∷ SessionRequest.set_user_status 1 true false
    ∷ SessionRequest.login "a@b.c" true 6 102 202 60
    ∷ []

handle_all-require_user_example :
    (require_user (some 100) 70 (handle_all (disabling ∷ later_requests) with_session)).0
    ≢ ok (4, old_session)
handle_all-require_user_example =
    handle_all-require_user 4 with_session old_session disabling (refl, tt) refl
      (user, refl, refl, refl, refl, refl) later_requests (some 100) 70 old_session
