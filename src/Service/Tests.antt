-- ===== src/Service/Tests.antt =====
-- The service as a whole: a new user, a call of a model, and its outcome after a refresh.
use opsark_admin.Common.{true, false, none, some}
use opsark_admin.Common.Int.{pos}
use opsark_admin.Models.{Db, Actor, UserAccount, succeeded}
use opsark_admin.Accounts.History.{Operation, perform}
use opsark_admin.Credits.Audit.{IsTrail}
use opsark_admin.Credits.Sound.{IsSound}
use opsark_admin.Exec.{transaction}
use opsark_admin.Registration.{open_account}
use opsark_admin.Parameters.Routes.{chat_completions}
use opsark_admin.Gateway.{Admission, admit}
use opsark_admin.Gateway.Usage.{Pending}
use opsark_admin.Gateway.Exchange.{Call, record_outcome}
use opsark_admin.Service.{empty_db, Reach, start, later, joined, admitted, performed, finished}
use opsark_admin.Service.Reached.{Reach-IsTrail, Reach-IsSound}

abbrev user : UserAccount
user = record { email = "a@b.c"; password_hash = 5; disabled = false; created_at = 10 }

abbrev admission : Admission
admission = record {
  call_id = 7;
  user_id = some 1;
  idempotency_key = 3;
  request_hash = 4;
  now = 20;
}

abbrev call : Call
call = record {
  call_id = 7;
  user_id = some 1;
  protocol = chat_completions;
  schema_requested = false;
  capability_error = none;
  elapsed = 12;
  ended_at = 50;
}

abbrev counts : Pending
counts = record {
  http_status = some 200;
  input_tokens = some (pos 30);
  output_tokens = some (pos 12);
}

abbrev with_user : Db
with_user = (transaction (open_account 1 user (pos 100) "grant" 10) empty_db).1

abbrev with_call : Db
with_call = (admit admission with_user).1

abbrev refreshed : Db
refreshed = perform (Operation.refresh Actor.gateway 40) with_call

abbrev final_db : Db
final_db = (transaction (record_outcome call counts true succeeded none none) refreshed).1

reached : Reach final_db
reached =
    later
      (later
        (later (later start (joined 1 user (pos 100) "grant" 10 empty_db))
          (admitted admission with_user))
        (performed (Operation.refresh Actor.gateway 40) with_call))
      (finished call counts true succeeded none none refreshed)

Reach-IsTrail_example : IsTrail final_db
Reach-IsTrail_example = Reach-IsTrail reached

Reach-IsSound_example : IsSound final_db
Reach-IsSound_example = Reach-IsSound reached
