-- ===== src/Registration/Policy.antt =====
-- app/accounts.py, `save_policy`: the optimistic lock of the registration policy.
use opsark_admin.Common.{◌≡◌, ◌+◌, List, String, all, some, true, refl, arith}
use opsark_admin.Errors.{ok, err, api_error, policy_conflict}
use opsark_admin.Exec.{◌>>=◌}
use opsark_admin.Models.{Db, RegistrationPolicy}
use opsark_admin.Registration.{is_in, policy_of, write_policy, next_policy, save_policy}

save_policy_ok :
    (aliases : List String) (body row : RegistrationPolicy) (db : Db)
    → (save_policy aliases body db).0 ≡ ok row
    → ((policy_of db).revision ≡ body.revision)
      × (row ≡ record body { revision = body.revision + 1 })
      × ((save_policy aliases body db).1
          ≡ record db { policy = some (record body { revision = body.revision + 1 }) })
unfolding save_policy policy_of write_policy next_policy ◌>>=◌
save_policy_ok aliases body row db done = ground arith

save_policy_stale :
    (later : List String) (second current : RegistrationPolicy) (db : Db)
    → all (λ name. is_in name later) second.allowed_models ≡ true
    → current.revision ≡ second.revision + 1
    → save_policy later second (record db { policy = some current })
      ≡ (err (api_error 409 policy_conflict), record db { policy = some current })
unfolding save_policy policy_of write_policy next_policy ◌>>=◌
save_policy_stale later second current db known ahead = ground (arith, known, ahead)

-- A policy is saved only over the revision that its body was read at, no policy having the revision
-- zero. What is saved, returned and in force then is the body with the next revision, so that a
-- second body that was read at the same revision is refused as a conflict and changes nothing, if
-- its models have routes.
pub save_policy-save_policy :
    (aliases later : List String) (body row second : RegistrationPolicy) (db : Db)
    → (save_policy aliases body db).0 ≡ ok row
    → second.revision ≡ body.revision
    → all (λ name. is_in name later) second.allowed_models ≡ true
    → ((policy_of db).revision ≡ body.revision)
      × (row ≡ record body { revision = body.revision + 1 })
      × (policy_of (save_policy aliases body db).1 ≡ row)
      × (save_policy later second (save_policy aliases body db).1
          ≡ (err (api_error 409 policy_conflict), (save_policy aliases body db).1))
unfolding policy_of
save_policy-save_policy aliases later body row second db done same known =
    let (current, made, written) = save_policy_ok aliases body row db done in
    (
      current,
      made,
      rw (written, made) refl,
      rw written (
          save_policy_stale later second (record body { revision = body.revision + 1 }) db known
            (ground (arith, same))),
    )
