-- ===== src/Skills/Tests.antt =====
-- app/skill_sync.py at a user with one skill.
use opsark_admin.Common.{ℕ, ◌≡◌, refl, ◌+◌, ◌*◌, false, Option, none, some, [], ◌∷◌, arith}
use opsark_admin.Errors.{api_error, ok, err, skill_revision_conflict}
use opsark_admin.Exec.{◌>>=◌}
use opsark_admin.Skills.{UserCloud, result_of, mutate, apply_mutation}
use opsark_admin.Skills.Sync.{mutate-mutate, mutate_conflict}

abbrev digest : ℕ → ℕ → Option ℕ → ℕ
digest skill base payload = skill * 1000 + base

abbrev cloud : UserCloud
cloud = record {
  skills = (3, record { revision = 4; updated_at = 10; deleted = false; payload = some 8 }) ∷ [];
  mutations = [];
}

first_done : (mutate digest 3 4 50 (some 9) 20 cloud).0 ≡ ok (result_of 3 4 (some 9) 20)
unfolding mutate apply_mutation ◌>>=◌
first_done = refl

mutate-mutate_example :
    mutate digest 3 4 50 (some 9) 90 (mutate digest 3 4 50 (some 9) 20 cloud).1
    ≡ mutate digest 3 4 50 (some 9) 20 cloud
mutate-mutate_example = mutate-mutate digest 3 4 50 (some 9) 20 cloud refl first_done 90

mutate_conflict_example :
    mutate digest 3 4 51 none 30 (mutate digest 3 4 50 (some 9) 20 cloud).1
    ≡ (err (api_error 409 skill_revision_conflict), (mutate digest 3 4 50 (some 9) 20 cloud).1)
mutate_conflict_example =
    mutate_conflict digest 3 4 50 (some 9) 20 cloud refl first_done 51 none 30 refl (omega arith)
