-- ===== src/Sessions/Ended.antt =====
-- app/accounts.py: the requests that end a session, and what follows them.
use opsark_admin.Common.{
  ℕ, ◌≡◌, ◌≢◌, refl, true, false, Option, none, some, List, [], ◌∷◌, ◌==◌, arith, Bool-cases, inl,
  inr,
}
use opsark_admin.Common.Table.{Table, get, update, IsKeyed, get-update_self, update-IsKeyed}
use opsark_admin.Errors.{ok}
use opsark_admin.Exec.{◌>>=◌}
use opsark_admin.Models.{Db, UserAccount, UserSession}
use opsark_admin.Sessions.{
  write_sessions, write_users, lock_user, require_user, revoke, revoke_where, logout,
  set_user_status, revoke_all_sessions, revoke_user_session,
}
use opsark_admin.Sessions.Revoked.{IsRevoked, AllRevoked}
use opsark_admin.Sessions.History.{
  SessionRequest, handle, handle_all, handle_all-IsRevoked, require_user-IsRevoked,
}

get-AllRevoked : (id : ℕ) (t : Table UserSession) → get id t ≡ none → AllRevoked id t
get-AllRevoked id [] h = tt
get-AllRevoked id ((j, row) ∷ t) h = elim (Bool-cases (id == j)) [
  | inl hit ↦ cc (rw hit at h)
  | inr miss ↦ (λ e. absurd (ground (arith, miss, e)), get-AllRevoked id t (rw miss at h))
]

-- A key stands once, so that its first row is its only one.
keyed-AllRevoked :
    (id : ℕ) (t : Table UserSession) (row : UserSession)
    → IsKeyed t
    → get id t ≡ some row
    → row.revoked ≡ true
    → AllRevoked id t
keyed-AllRevoked id [] row keyed found over = tt
keyed-AllRevoked id ((j, r) ∷ t) row keyed found over = elim (Bool-cases (id == j)) [
  | inl hit ↦
      let first : some r ≡ some row = rw hit at found in
      let same : r ≡ row = cc first in
      let equal : id ≡ j = ground (arith, hit) in
      (λ e. rw same over, get-AllRevoked id t (rw equal keyed.0))
  | inr miss ↦ (
    λ e. absurd (ground (arith, miss, e)),
    keyed-AllRevoked id t row keyed.1 (rw miss at found) over,
  )
]

get-revoke_where :
    (id u : ℕ) (t : Table UserSession) (row : UserSession)
    → get id t ≡ some row
    → row.user_id ≡ u
    → get id (revoke_where u t) ≡ some (revoke row)
unfolding revoke_where
get-revoke_where id u [] row found own = cc found
get-revoke_where id u ((j, r) ∷ t) row found own = elim (Bool-cases (id == j)) [
  | inl hit ↦
      let first : some r ≡ some row = rw hit at found in
      let same : r ≡ row = cc first in
      let mine : (row.user_id == u) ≡ true = ground (arith, own) in rw (hit, same, mine) refl
  | inr miss ↦ rw miss (get-revoke_where id u t row (rw miss at found) own)
]

get-revoke_where-none :
    (id u : ℕ) (t : Table UserSession) → get id t ≡ none → get id (revoke_where u t) ≡ none
unfolding revoke_where
get-revoke_where-none id u [] h = refl
get-revoke_where-none id u ((j, r) ∷ t) h = elim (Bool-cases (id == j)) [
  | inl hit ↦ cc (rw hit at h)
  | inr miss ↦ rw miss (get-revoke_where-none id u t (rw miss at h))
]

revoke_where-IsKeyed : (u : ℕ) (t : Table UserSession) → IsKeyed t → IsKeyed (revoke_where u t)
unfolding revoke_where
revoke_where-IsKeyed u [] h = tt
revoke_where-IsKeyed u ((j, r) ∷ t) h =
    (get-revoke_where-none j u t h.0, revoke_where-IsKeyed u t h.1)

get-IsRevoked :
    (id : ℕ) (db : Db) (row : UserSession)
    → IsKeyed db.sessions
    → get id db.sessions ≡ some (revoke row)
    → IsRevoked id db
get-IsRevoked id db row keyed found = record {
  there = λ missing. cc (rw missing at found);
  revoked = keyed-AllRevoked id db.sessions (revoke row) keyed found refl;
}

-- The requests that end the session of a row: its own log-out, and those of the staff on its user.
abbrev pub Ends : ℕ → UserSession → SessionRequest → Db → Type 0
Ends id row (SessionRequest.login email valid k access refresh now) db = ⊥
Ends id row (SessionRequest.refresh_session presented access refresh now) db = ⊥
Ends id row (SessionRequest.logout bearer now) db =
    (accepted : UserSession) × ((require_user bearer now db).0 ≡ ok (id, accepted))
Ends id row (SessionRequest.set_user_status u expected disabled) db =
    (account : UserAccount) × (get u db.users ≡ some account)
    × (row.user_id ≡ u)
    × (account.disabled ≡ false)
    × (expected ≡ false)
    × (disabled ≡ true)
Ends id row (SessionRequest.revoke_all_sessions u) db =
    (account : UserAccount) × (get u db.users ≡ some account) × (row.user_id ≡ u)
Ends id row (SessionRequest.revoke_user_session u k) db =
    (account : UserAccount) × (get u db.users ≡ some account) × (row.user_id ≡ u) × (k ≡ id)

get-revoke :
    (id : ℕ) (t : Table UserSession) (row : UserSession)
    → get id t ≡ some row
    → get id (update id revoke t) ≡ some (revoke row)
get-revoke id t row found = rw (get-update_self id revoke t, found) refl

require_user-reads : (bearer : Option ℕ) (now : ℕ) (db : Db) → (require_user bearer now db).1 ≡ db
unfolding require_user ◌>>=◌
require_user-reads none now db = refl
require_user-reads (some hash) now db = ground arith

logout-IsRevoked :
    (id now : ℕ) (bearer : Option ℕ) (row accepted : UserSession) (db : Db)
    → IsKeyed db.sessions
    → get id db.sessions ≡ some row
    → (require_user bearer now db).0 ≡ ok (id, accepted)
    → IsRevoked id (logout bearer now db).1
unfolding logout write_sessions ◌>>=◌
logout-IsRevoked id now bearer row accepted db keyed found taken =
    rw (taken, require_user-reads bearer now db)
      (get-IsRevoked id _ row (update-IsKeyed id revoke db.sessions keyed)
        (get-revoke id db.sessions row found))

revoke_user_session-IsRevoked :
    (id u : ℕ) (row : UserSession) (account : UserAccount) (db : Db)
    → IsKeyed db.sessions
    → get id db.sessions ≡ some row
    → get u db.users ≡ some account
    → row.user_id ≡ u
    → IsRevoked id (revoke_user_session u id db).1
unfolding revoke_user_session lock_user write_sessions ◌>>=◌
revoke_user_session-IsRevoked id u row account db keyed found known own =
    let mine : (row.user_id == u) ≡ true = ground (arith, own) in
    rw (known, found, mine)
      (get-IsRevoked id _ row (update-IsKeyed id revoke db.sessions keyed)
        (get-revoke id db.sessions row found))

revoke_all_sessions-IsRevoked :
    (id u : ℕ) (row : UserSession) (account : UserAccount) (db : Db)
    → IsKeyed db.sessions
    → get id db.sessions ≡ some row
    → get u db.users ≡ some account
    → row.user_id ≡ u
    → IsRevoked id (revoke_all_sessions u db).1
unfolding revoke_all_sessions lock_user write_sessions ◌>>=◌
revoke_all_sessions-IsRevoked id u row account db keyed found known own = rw known (
    get-IsRevoked id _ row (revoke_where-IsKeyed u db.sessions keyed)
      (get-revoke_where id u db.sessions row found own))

set_user_status-IsRevoked :
    (id u : ℕ) (row : UserSession) (account : UserAccount) (db : Db)
    → IsKeyed db.sessions
    → get id db.sessions ≡ some row
    → get u db.users ≡ some account
    → row.user_id ≡ u
    → account.disabled ≡ false
    → IsRevoked id (set_user_status u false true db).1
unfolding set_user_status lock_user write_sessions write_users ◌>>=◌
set_user_status-IsRevoked id u row account db keyed found known own enabled =
    rw (known, enabled)
      (get-IsRevoked id _ row (revoke_where-IsKeyed u db.sessions keyed)
        (get-revoke_where id u db.sessions row found own))

handle-Ends :
    (id : ℕ) (request : SessionRequest) (row : UserSession) (db : Db)
    → IsKeyed db.sessions
    → get id db.sessions ≡ some row
    → Ends id row request db
    → IsRevoked id (handle request db)
unfolding handle
handle-Ends id (SessionRequest.login email valid k access refresh now) row db keyed found h =
    absurd h
handle-Ends id (SessionRequest.refresh_session presented access refresh now) row db keyed found h =
    absurd h
handle-Ends id (SessionRequest.logout bearer now) row db keyed found (accepted, taken) =
    logout-IsRevoked id now bearer row accepted db keyed found taken
handle-Ends id (SessionRequest.set_user_status u expected disabled) row db keyed found
      (account, known, own, enabled, expects, disables) =
    rw (expects, disables)
      (set_user_status-IsRevoked id u row account db keyed found known own enabled)
handle-Ends id (SessionRequest.revoke_all_sessions u) row db keyed found (account, known, own) =
    revoke_all_sessions-IsRevoked id u row account db keyed found known own
handle-Ends id (SessionRequest.revoke_user_session u k) row db keyed found
      (account, known, own, same) =
    rw same (revoke_user_session-IsRevoked id u row account db keyed found known own)

-- Once a stored session is ended, by a log-out with its own accepted token, by the staff's
-- revocation of it or of all of its user's sessions, or by disabling its enabled user, no token is
-- accepted for it again at any time, whatever sequence of logins, refreshes, log-outs, revocations
-- and changes of users' status follows, and so also where its user is enabled again. The key of the
-- session stands once in the table.
pub handle_all-require_user :
    (id : ℕ) (db : Db) (row : UserSession) (request : SessionRequest)
    → IsKeyed db.sessions
    → get id db.sessions ≡ some row
    → Ends id row request db
    → (requests : List SessionRequest) (bearer : Option ℕ) (now : ℕ) (accepted : UserSession)
    → (require_user bearer now (handle_all (request ∷ requests) db)).0 ≢ ok (id, accepted)
unfolding handle_all
handle_all-require_user id db row request keyed found ended requests bearer now accepted =
    require_user-IsRevoked id (handle_all (request ∷ requests) db) bearer now accepted (
      handle_all-IsRevoked id requests (handle request db)
        (handle-Ends id request row db keyed found ended))
