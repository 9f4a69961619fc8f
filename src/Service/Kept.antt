-- ===== src/Service/Kept.antt =====
-- The service as a whole: a property of accounts, ledger and journal that the writes of each of
-- its transactions keep, every step keeps.
use opsark_admin.Common.{ℕ, Bool, Option, none, some, String, List}
use opsark_admin.Common.Int.{ℤ}
use opsark_admin.Common.Table.{Table}
use opsark_admin.Exec.Keeps.{Keeps, keeps_rules, Keeps-modify, Keeps-catch, Keeps-transaction}
use opsark_admin.Models.{Db, UserAccount, UserSession, RegistrationPolicy, ModelCall}
use opsark_admin.Credits.{write_calls, balance, change, begin_direct_call}
use opsark_admin.Credits.Settle.{Settlement, settle}
use opsark_admin.Accounts.History.{Operation, perform}
use opsark_admin.Sessions.{
  login, require_user, rotate_session, refresh_session, logout, set_user_status,
  revoke_all_sessions, revoke_user_session,
}
use opsark_admin.Sessions.History
use opsark_admin.Sessions.History.{SessionRequest}
use opsark_admin.Registration.{add_account, initial_grant, write_policy, save_policy}
use opsark_admin.Registration.Granted.{
  write_users-Keeps, write_sessions-Keeps, lock_user-Keeps, issue_session-Keeps, open_account-Keeps,
  register-Keeps,
}
use opsark_admin.Gateway.{Admission, begin_for, enter, admit}
use opsark_admin.Gateway.Slots.{record_outcome-Keeps}
use opsark_admin.Gateway.Admitted.{add_call-Keeps, on_refusal-Keeps}
use opsark_admin.Service.{
  Step, performed, admitted, finished, registered, joined, handled, policy_saved,
}

-- A property that says nothing of users, sessions and the policy.
module _ {P : Db → Type 0}
    (frame : (db : Db) (users : Table UserAccount) (sessions : Table UserSession)
        (policy : Option RegistrationPolicy)
      → P db
      → P (record db { users = users; sessions = sessions; policy = policy })) where
  frame_users :
      (db : Db) (users : Table UserAccount) (sessions : Table UserSession)
      → P db
      → P (record db { users = users; sessions = sessions })
  frame_users db users sessions h = frame db users sessions db.policy h

  balance-Keeps : (u : ℕ) → Keeps P (balance u)
  unfolding balance
  balance-Keeps u = search keeps_rules

  write_policy-Keeps : (row : RegistrationPolicy) → Keeps P (write_policy row)
  unfolding write_policy
  write_policy-Keeps row = Keeps-modify _ (λ db h. frame db db.users db.sessions (some row) h)

  pub save_policy-Keeps :
      (aliases : List String) (body : RegistrationPolicy) → Keeps P (save_policy aliases body)
  unfolding save_policy
  save_policy-Keeps aliases body = search (keeps_rules, write_policy-Keeps) depth 12

  login-Keeps :
      (email : String) (valid : Bool) (id access refresh now : ℕ)
      → Keeps P (login email valid id access refresh now)
  unfolding login
  login-Keeps email valid id access refresh now =
      search (keeps_rules, issue_session-Keeps frame_users, balance-Keeps) depth 12

  require_user-Keeps : (bearer : Option ℕ) (now : ℕ) → Keeps P (require_user bearer now)
  unfolding require_user
  require_user-Keeps bearer now = search keeps_rules depth 16

  rotate_session-Keeps :
      (id : ℕ) (row : UserSession) (access refresh now : ℕ)
      → Keeps P (rotate_session id row access refresh now)
  unfolding rotate_session
  rotate_session-Keeps id row access refresh now =
      search (keeps_rules, write_sessions-Keeps frame_users) depth 12

  refresh_session-Keeps :
      (presented access refresh now : ℕ) → Keeps P (refresh_session presented access refresh now)
  unfolding refresh_session
  refresh_session-Keeps presented access refresh now =
      search (keeps_rules, lock_user-Keeps frame_users, rotate_session-Keeps, balance-Keeps) depth
        12

  logout-Keeps : (bearer : Option ℕ) (now : ℕ) → Keeps P (logout bearer now)
  unfolding logout
  logout-Keeps bearer now =
      search (keeps_rules, require_user-Keeps, write_sessions-Keeps frame_users)

  set_user_status-Keeps :
      (u : ℕ) (expected disabled : Bool) → Keeps P (set_user_status u expected disabled)
  unfolding set_user_status
  set_user_status-Keeps u expected disabled =
      search
        (
          keeps_rules,
          lock_user-Keeps frame_users,
          write_users-Keeps frame_users,
          write_sessions-Keeps frame_users,
        )
        depth 12

  revoke_all_sessions-Keeps : (u : ℕ) → Keeps P (revoke_all_sessions u)
  unfolding revoke_all_sessions
  revoke_all_sessions-Keeps u =
      search (keeps_rules, lock_user-Keeps frame_users, write_sessions-Keeps frame_users)

  revoke_user_session-Keeps : (u id : ℕ) → Keeps P (revoke_user_session u id)
  unfolding revoke_user_session
  revoke_user_session-Keeps u id =
      search (keeps_rules, lock_user-Keeps frame_users, write_sessions-Keeps frame_users) depth 12

  handle-Keeps :
      (request : SessionRequest) (db : Db)
      → P db
      → P (opsark_admin.Sessions.History.handle request db)
  unfolding opsark_admin.Sessions.History.handle
  handle-Keeps (SessionRequest.login email valid id access refresh now) db h =
      (login-Keeps email valid id access refresh now).at db h
  handle-Keeps (SessionRequest.refresh_session presented access refresh now) db h =
      (refresh_session-Keeps presented access refresh now).at db h
  handle-Keeps (SessionRequest.logout bearer now) db h = (logout-Keeps bearer now).at db h
  handle-Keeps (SessionRequest.set_user_status u expected disabled) db h =
      (set_user_status-Keeps u expected disabled).at db h
  handle-Keeps (SessionRequest.revoke_all_sessions u) db h = (revoke_all_sessions-Keeps u).at db h
  handle-Keeps (SessionRequest.revoke_user_session u id) db h =
      (revoke_user_session-Keeps u id).at db h

  module _ (keeps_perform : (op : Operation) (db : Db) → P db → P (perform op db))
      (keeps_calls : (f : Table ModelCall → Table ModelCall) → Keeps P (write_calls f))
      (keeps_settle : (id : ℕ) (s : Settlement) (now : ℕ) → Keeps P (settle id s now))
      (keeps_begin : (u id k hash now : ℕ) → Keeps P (begin_direct_call u id k hash now))
      (keeps_account : (u : ℕ) → Keeps P (add_account u))
      (keeps_grant : (u : ℕ) (tokens : ℤ) (reason : String) (now : ℕ)
        → Keeps P (change u (initial_grant tokens reason now))) where
    begin_for-Keeps : (user : Option ℕ) (a : Admission) → Keeps P (begin_for user a)
    unfolding begin_for
    begin_for-Keeps none a = search keeps_rules
    begin_for-Keeps (some user) a = keeps_begin user _ _ _ _

    enter-Keeps : (a : Admission) → Keeps P (enter a)
    unfolding enter
    enter-Keeps a = search (keeps_rules, add_call-Keeps keeps_calls, begin_for-Keeps)

    admit-Keeps : (a : Admission) → Keeps P (admit a)
    unfolding admit
    admit-Keeps a =
        Keeps-catch _ _ (Keeps-transaction _ (enter-Keeps a)) (on_refusal-Keeps keeps_calls a)

    pub Step-Keeps : {db after : Db} → Step db after → P db → P after
    Step-Keeps (performed op db) h = keeps_perform op db h
    Step-Keeps (admitted a db) h = (admit-Keeps a).at db h
    Step-Keeps (finished c pending dispatched status code http db) h =
        (Keeps-transaction _ (
            record_outcome-Keeps keeps_calls keeps_settle c pending dispatched status code http)).at
          db h
    Step-Keeps (registered id email hash reason fresh now db) h =
        (register-Keeps frame_users keeps_account keeps_grant id email hash reason fresh now).at db
          h
    Step-Keeps (joined id user tokens reason now db) h =
        (Keeps-transaction _
            (open_account-Keeps frame_users keeps_account keeps_grant id user tokens reason now)).at
          db h
    Step-Keeps (handled request db) h = handle-Keeps request db h
    Step-Keeps (policy_saved aliases body db) h = (save_policy-Keeps aliases body).at db h
