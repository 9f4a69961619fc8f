-- ===== src/Skills.antt =====
-- app/skill_sync.py, `mutate`: a user's synchronized skills, which change by compare-and-swap on
-- their revisions, each mutation once. The state is the rows of one user, since the handler touches
-- no other's; a skill's content is opaque. The checks of the request's format, of credentials in
-- the content and of the rate come before this.
pub mod Sync
mod Tests
use opsark_admin.Common.{
  ℕ, ◌+◌, Bool, true, false, ◌&&◌, not, Option, none, some, leb, ◌==◌, if◌then◌else◌, length,
}
use opsark_admin.Common.Table.{Table, get, update, insert}
use opsark_admin.Errors.{
  api_error, mutation_conflict, skill_revision_conflict, skill_not_found, skill_limit,
}
use opsark_admin.Exec.{Exec, pure, raise, gets, modify, ◌>>=◌, ◌>>◌, match_option}

pub record UserSkill : Type 0 where
  pub revision : ℕ
  pub updated_at : ℕ
  pub deleted : Bool
  pub payload : Option ℕ

pub record Reply : Type 0 where
  pub id : ℕ
  pub revision : ℕ
  pub deleted : Bool
  pub updated_at : ℕ

pub record CloudMutation : Type 0 where
  pub request_hash : ℕ
  pub response : Reply
  pub created_at : ℕ

pub record UserCloud : Type 0 where
  pub skills : Table UserSkill
  pub mutations : Table CloudMutation

-- `payload is None`
abbrev pub is_missing {ℓ} : {A : Type ℓ} → Option A → Bool
is_missing none = true
is_missing (some a) = false

-- `row.revision if row else 0`
abbrev pub revision_of : Option UserSkill → ℕ
revision_of none = 0
revision_of (some row) = row.revision

unfoldable pub new_values : ℕ → Option ℕ → ℕ → UserSkill
new_values base payload now = record {
  revision = base + 1;
  updated_at = now;
  deleted = is_missing payload;
  payload = payload;
}

unfoldable pub result_of : ℕ → ℕ → Option ℕ → ℕ → Reply
result_of skill_id base payload now = record {
  id = skill_id;
  revision = base + 1;
  deleted = is_missing payload;
  updated_at = now;
}

-- The row is added or replaced.
unfoldable pub put_skill : ℕ → UserSkill → Option UserSkill → Table UserSkill → Table UserSkill
put_skill skill_id values none skills = insert skill_id values skills
put_skill skill_id values (some row) skills = update skill_id (λ _. values) skills

module _ (digest : ℕ → ℕ → Option ℕ → ℕ) where
  unfoldable pub after_mutation :
      ℕ → ℕ → ℕ → Option ℕ → ℕ → Option UserSkill → UserCloud → UserCloud
  after_mutation skill_id base mutation_id payload now row cloud = record {
    skills = put_skill skill_id (new_values base payload now) row cloud.skills;
    mutations =
        insert mutation_id
          (record {
            request_hash = digest skill_id base payload;
            response = result_of skill_id base payload now;
            created_at = now;
          })
          cloud.mutations;
  }

  unfoldable pub apply_mutation : ℕ → ℕ → ℕ → Option ℕ → ℕ → Exec UserCloud Reply
  apply_mutation skill_id base mutation_id payload now = do
    row ← gets (λ cloud. get skill_id cloud.skills)
    count ← gets (λ cloud. length cloud.skills)
    if not (revision_of row == base)
        then raise (api_error 409 skill_revision_conflict)
        else if is_missing row && is_missing payload
        then raise (api_error 404 skill_not_found)
        else if is_missing row && leb 200 count
        then raise (api_error 409 skill_limit)
        else do
          modify (after_mutation skill_id base mutation_id payload now row)
          pure (result_of skill_id base payload now)

  unfoldable pub mutate : ℕ → ℕ → ℕ → Option ℕ → ℕ → Exec UserCloud Reply
  mutate skill_id base mutation_id payload now = do
    previous ← gets (λ cloud. get mutation_id cloud.mutations)
    match_option previous (apply_mutation skill_id base mutation_id payload now) λ p.
        if p.request_hash == digest skill_id base payload
        then pure p.response
        else raise (api_error 409 mutation_conflict)
