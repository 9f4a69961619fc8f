-- ===== src/Registration/Tests.antt =====
-- app/accounts.py: a registration at the small database of Credits/Samples.antt.
use opsark_admin.Common.{◌≡◌, refl, true, false, some, [], ◌∷◌}
use opsark_admin.Common.Int.{pos}
use opsark_admin.Errors.{ok, err, api_error, policy_conflict}
use opsark_admin.Exec.{◌>>=◌}
use opsark_admin.Models.{Db, RegistrationPolicy}
use opsark_admin.Credits.Balance.{IsBalanced}
use opsark_admin.Credits.Samples.{db, db-IsBalanced}
use opsark_admin.Registration.{Tokens, policy_of, write_policy, next_policy, save_policy}
use opsark_admin.Registration.Policy.{save_policy-save_policy}

abbrev open_policy : RegistrationPolicy
open_policy = record {
  enabled = true;
  initial_tokens = pos 50;
  allowed_models = "fast" ∷ [];
  revision = 3;
}

abbrev shut_policy : RegistrationPolicy
shut_policy = record open_policy { enabled = false }

abbrev open_db : Db
open_db = record db { policy = some open_policy }

abbrev fresh : Tokens
fresh = record { session_id = 4; access = 41; refresh = 42 }

open_db-IsBalanced : IsBalanced open_db
open_db-IsBalanced = record {
  available_sum = db-IsBalanced.available_sum;
  reserved_sum = db-IsBalanced.reserved_sum;
  nonneg = db-IsBalanced.nonneg;
}

saved : (save_policy ("fast" ∷ []) open_policy open_db).0 ≡ ok (next_policy open_policy)
unfolding save_policy policy_of write_policy next_policy ◌>>=◌
saved = refl

save_policy-save_policy_example :
    ((policy_of open_db).revision ≡ 3)
    × (next_policy open_policy ≡ record open_policy { revision = 4 })
    × (policy_of (save_policy ("fast" ∷ []) open_policy open_db).1 ≡ next_policy open_policy)
    × (save_policy ("fast" ∷ []) shut_policy (save_policy ("fast" ∷ []) open_policy open_db).1
        ≡ (err (api_error 409 policy_conflict), (save_policy ("fast" ∷ []) open_policy open_db).1))
save_policy-save_policy_example =
    save_policy-save_policy ("fast" ∷ []) ("fast" ∷ []) open_policy (next_policy open_policy)
      shut_policy open_db saved refl refl
