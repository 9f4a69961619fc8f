-- ===== src/Github/Tests.antt =====
-- app/github_auth.py: a flow that was authorised for user 1.
use opsark_admin.Common.{◌≡◌, refl, false, some, none, [], ◌∷◌}
use opsark_admin.Errors.{ok}
use opsark_admin.Exec.{◌>>=◌, transaction}
use opsark_admin.Models.{UserAccount}
use opsark_admin.Sessions.{lock_user, hash_taken, add_session, issue_session, write_sessions}
use opsark_admin.Credits.Samples.{db}
use opsark_admin.Registration.{Tokens}
use opsark_admin.Github.{
  authorized, sign_in, GithubFlow, Hub, on_rows, write_flow, active_user, signed_in, finish_flow,
  spend, consume, complete_flow, complete_found, complete,
}
use opsark_admin.Github.Steps.{here, complete-complete}

abbrev user : UserAccount
user = record { email = "a@b.c"; password_hash = 5; disabled = false; created_at = 1 }

abbrev flow : GithubFlow
flow = record {
  state_hash = 11;
  native_challenge = 12;
  status = authorized;
  user_id = some 1;
  mode = sign_in;
  expires_at = 600;
  error = none;
}

abbrev hub : Hub
hub = record {
  db = record db { users = (1, user) ∷ [] };
  flows = (3, flow) ∷ [];
  identities = (77, 1) ∷ [];
}

abbrev fresh : Tokens
fresh = record { session_id = 4; access = 41; refresh = 42 }

signed : (complete 3 12 none fresh 100 hub).0 ≡ ok (signed_in 1)
unfolding complete complete_found complete_flow consume active_user spend write_flow finish_flow
    on_rows issue_session lock_user add_session hash_taken write_sessions transaction ◌>>=◌
signed = refl

complete-complete_example :
    ¬ ((complete 3 12 none fresh 101 (complete 3 12 none fresh 100 hub).1).0 ≡ ok (signed_in 1))
complete-complete_example =
    complete-complete 3 12 none fresh 100 hub (signed_in 1) refl signed
      (complete 3 12 none fresh 100 hub).1 here 12 none fresh 101 (signed_in 1)
