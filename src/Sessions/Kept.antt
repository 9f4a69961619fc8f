-- ===== src/Sessions/Kept.antt =====
-- app/accounts.py: no request makes a revoked session a live one.
use opsark_admin.Common.{
  ℕ, ◌≡◌, ◌≢◌, refl, Bool, true, Option, none, String, arith, Bool-cases, Option-cases, inl, inr,
}
use opsark_admin.Common.Table.{Table, get, update, get-update, get-insert}
use opsark_admin.Exec.{◌>>=◌}
use opsark_admin.Exec.Keeps.{Keeps, keeps_rules, Keeps-modify}
use opsark_admin.Models.{UserSession, UserAccount}
use opsark_admin.Credits.{balance}
use opsark_admin.Sessions.{
  write_sessions, write_users, lock_user, add_session, issue_session, login, require_user, rotated,
  rotate_session, refresh_session, revoke, revoke_where, logout, set_user_status,
  revoke_all_sessions, revoke_user_session, hash_taken,
}
use opsark_admin.Sessions.Revoked.{
  IsRevoked, AllRevoked, update-AllRevoked, insert-AllRevoked, revoke_where-AllRevoked,
  get-revoke_where,
}

module _ (id : ℕ) where
  write_sessions-Keeps :
      (f : Table UserSession → Table UserSession)
      → ((t : Table UserSession) → get id t ≢ none → get id (f t) ≢ none)
      → ((t : Table UserSession) → AllRevoked id t → AllRevoked id (f t))
      → Keeps (IsRevoked id) (write_sessions f)
  unfolding write_sessions
  write_sessions-Keeps f there revoked =
      Keeps-modify _ λ db h. record {
        there = there db.sessions h.there;
        revoked = revoked db.sessions h.revoked;
      }

  update-Keeps :
      (k : ℕ) (f : UserSession → UserSession)
      → ((row : UserSession) → row.revoked ≡ true → (f row).revoked ≡ true)
      → Keeps (IsRevoked id) (write_sessions (update k f))
  update-Keeps k f keep =
      write_sessions-Keeps (update k f) (λ t h e. h (update_none k f t e))
        (λ t h. update-AllRevoked id k f t keep h)
    where
      update_none :
          (k : ℕ) (f : UserSession → UserSession) (t : Table UserSession)
          → get id (update k f t) ≡ none
          → get id t ≡ none
      update_none k f t e = ground (arith, get-update k id f t)

  revoke-Keeps : (k : ℕ) → Keeps (IsRevoked id) (write_sessions (update k revoke))
  revoke-Keeps k = update-Keeps k revoke (λ row h. refl)

  rotated-Keeps :
      (k access refresh now : ℕ)
      → Keeps (IsRevoked id) (write_sessions (update k (rotated access refresh now)))
  unfolding rotated
  rotated-Keeps k access refresh now = update-Keeps k (rotated access refresh now) (λ row h. h)

  revoke_where-Keeps : (u : ℕ) → Keeps (IsRevoked id) (write_sessions (revoke_where u))
  revoke_where-Keeps u =
      write_sessions-Keeps (revoke_where u) (get-revoke_where id u) (revoke_where-AllRevoked id u)

  add_session-Keeps : (k : ℕ) (s : UserSession) → Keeps (IsRevoked id) (add_session k s)
  unfolding add_session write_sessions ◌>>=◌
  add_session-Keeps k s = record {
    at = λ db h. elim (Option-cases (get k db.sessions)) [
      | inr (row, taken) ↦ rw taken h
      | inl free ↦ elim (Bool-cases (hash_taken k s.access_hash s.refresh_hash db.sessions)) [
        | inl collides ↦ rw (free, collides) h
        | inr fresh ↦
            let ne : id ≢ k = λ e. h.there (rw e free) in
            rw (free, fresh)
              (record {
                there = λ e. h.there (ground (arith, get-insert k id s db.sessions free));
                revoked = insert-AllRevoked id k s db.sessions ne h.revoked;
              })
      ]
    ];
  }

  write_users-Keeps :
      (f : Table UserAccount → Table UserAccount) → Keeps (IsRevoked id) (write_users f)
  unfolding write_users
  write_users-Keeps f = Keeps-modify _ λ db h. record { there = h.there; revoked = h.revoked }

  lock_user-Keeps : (u : ℕ) (active : Bool) → Keeps (IsRevoked id) (lock_user u active)
  unfolding lock_user
  lock_user-Keeps u active = search keeps_rules depth 8

  balance-Keeps : (u : ℕ) → Keeps (IsRevoked id) (balance u)
  unfolding balance
  balance-Keeps u = search keeps_rules

  issue_session-Keeps :
      (u k access refresh now : ℕ) → Keeps (IsRevoked id) (issue_session u k access refresh now)
  unfolding issue_session
  issue_session-Keeps u k access refresh now =
      search (keeps_rules, lock_user-Keeps, add_session-Keeps)

  pub login-Keeps :
      (email : String) (valid : Bool) (k access refresh now : ℕ)
      → Keeps (IsRevoked id) (login email valid k access refresh now)
  unfolding login
  login-Keeps email valid k access refresh now =
      search (keeps_rules, issue_session-Keeps, balance-Keeps) depth 10

  require_user-Keeps :
      (bearer : Option ℕ) (now : ℕ) → Keeps (IsRevoked id) (require_user bearer now)
  unfolding require_user
  require_user-Keeps bearer now = search keeps_rules depth 14

  rotate_session-Keeps :
      (k : ℕ) (row : UserSession) (access refresh now : ℕ)
      → Keeps (IsRevoked id) (rotate_session k row access refresh now)
  unfolding rotate_session
  rotate_session-Keeps k row access refresh now = search (keeps_rules, rotated-Keeps) depth 8

  pub refresh_session-Keeps :
      (presented access refresh now : ℕ)
      → Keeps (IsRevoked id) (refresh_session presented access refresh now)
  unfolding refresh_session
  refresh_session-Keeps presented access refresh now =
      search (keeps_rules, lock_user-Keeps, rotate_session-Keeps, balance-Keeps) depth 12

  pub logout-Keeps : (bearer : Option ℕ) (now : ℕ) → Keeps (IsRevoked id) (logout bearer now)
  unfolding logout
  logout-Keeps bearer now = search (keeps_rules, require_user-Keeps, revoke-Keeps)

  pub set_user_status-Keeps :
      (u : ℕ) (expected disabled : Bool)
      → Keeps (IsRevoked id) (set_user_status u expected disabled)
  unfolding set_user_status
  set_user_status-Keeps u expected disabled =
      search (keeps_rules, lock_user-Keeps, write_users-Keeps, revoke_where-Keeps) depth 12

  pub revoke_all_sessions-Keeps : (u : ℕ) → Keeps (IsRevoked id) (revoke_all_sessions u)
  unfolding revoke_all_sessions
  revoke_all_sessions-Keeps u = search (keeps_rules, lock_user-Keeps, revoke_where-Keeps)

  pub revoke_user_session-Keeps : (u k : ℕ) → Keeps (IsRevoked id) (revoke_user_session u k)
  unfolding revoke_user_session
  revoke_user_session-Keeps u k = search (keeps_rules, lock_user-Keeps, revoke-Keeps) depth 10
