-- ===== src/Updates.antt =====
-- app/client_updates.py and app/cloud_common.py: the releases of the client, what a client is told of
-- them, and the oldest version that the cloud functions accept. A version's text is the triple that
-- `version_tuple` reads, which no other text gives; a request arrives validated, and the contact
-- data and audit rows are left out.
pub mod Latest
mod Tests
use opsark_admin.Common.{
  ℕ, ◌+◌, Bool, true, false, ◌&&◌, ◌||◌, not, Option, none, some, List, [], ◌∷◌, any, ltb, ◌==◌,
  if◌then◌else◌,
}
use opsark_admin.Common.Table.{Table, get, update, insert}
use opsark_admin.Errors.{
  Error, api_error, integrity_error, client_update_required, client_policy_conflict, release_exists,
  release_not_found,
}
use opsark_admin.Exec.{Exec, pure, raise, gets, modify, catch, ◌>>=◌, ◌>>◌, match_option}

pub record Version : Type 0 where
  pub major : ℕ
  pub minor : ℕ
  pub patch : ℕ

-- The order of tuples.
abbrev pub earlier : Version → Version → Bool
earlier a b =
    ltb a.major b.major
    || ((a.major == b.major)
        && (ltb a.minor b.minor || ((a.minor == b.minor) && ltb a.patch b.patch)))

abbrev pub same_version : Version → Version → Bool
same_version a b = (a.major == b.major) && ((a.minor == b.minor) && (a.patch == b.patch))

pub data Platform : Type 0 where
  macos windows linux : Platform

pub data Arch : Type 0 where
  aarch64 x86_64 : Arch

abbrev pub platform_eq : Platform → Platform → Bool
platform_eq macos macos = true
platform_eq windows windows = true
platform_eq linux linux = true
platform_eq _ _ = false

abbrev pub arch_eq : Arch → Arch → Bool
arch_eq aarch64 aarch64 = true
arch_eq x86_64 x86_64 = true
arch_eq _ _ = false

pub record ClientRelease : Type 0 where
  pub platform : Platform
  pub arch : Arch
  pub version : Version
  pub enabled : Bool
  pub created_at : ℕ

pub record ClientPolicy : Type 0 where
  pub min_cloud_version : Version
  pub revision : ℕ

pub record Updates : Type 0 where
  pub policy_row : Option ClientPolicy
  pub releases : Table ClientRelease

abbrev pub zero_version : Version
zero_version = record { major = 0; minor = 0; patch = 0 }

-- `policy`
abbrev pub policy : Updates → ClientPolicy
policy db = elim db.policy_row [
  | none ↦ record { min_cloud_version = zero_version; revision = 0 }
  | some row ↦ row
]

unfoldable pub write_policy : ClientPolicy → Exec Updates Unit
write_policy row = modify (λ db. record db { policy_row = some row })

unfoldable pub next_policy : ClientPolicy → ClientPolicy
next_policy body = record body { revision = body.revision + 1 }

unfoldable pub save_policy : ClientPolicy → Exec Updates ClientPolicy
save_policy body = do
  current ← gets (λ db. db.policy_row)
  match_option current
      (if body.revision == 0
        then write_policy (next_policy body)
        else raise (api_error 409 client_policy_conflict))
      λ row.
        if row.revision == body.revision
        then write_policy (next_policy body)
        else raise (api_error 409 client_policy_conflict)
  gets policy

-- The unique constraint over platform, architecture and version.
unfoldable pub is_published : ClientRelease → Table ClientRelease → Bool
is_published r = any (λ (id, row).
    platform_eq row.platform r.platform
    && (arch_eq row.arch r.arch && same_version row.version r.version))

unfoldable pub add_release : ℕ → ClientRelease → Exec Updates Unit
add_release id row = do
  same_id ← gets (λ db. get id db.releases)
  taken ← gets (λ db. is_published row db.releases)
  match_option same_id
      (if taken
        then raise integrity_error
        else modify (λ db. record db { releases = insert id row db.releases }))
      λ _. raise integrity_error

unfoldable pub on_published : Error → Exec Updates Unit
on_published integrity_error = raise (api_error 409 release_exists)
on_published e = raise e

unfoldable pub publish : ℕ → Platform → Arch → Version → ℕ → Exec Updates Unit
publish id platform arch version now =
    catch
      (add_release id (record {
        platform = platform;
        arch = arch;
        version = version;
        enabled = true;
        created_at = now;
      }))
      on_published

unfoldable pub disable : ClientRelease → ClientRelease
disable row = record row { enabled = false }

unfoldable pub withdraw : ℕ → Exec Updates Unit
withdraw id = do
  row ← gets (λ db. get id db.releases)
  match_option row (raise (api_error 404 release_not_found))
      λ r. modify (λ db. record db { releases = update id disable db.releases })

abbrev pub fits : Platform → Arch → ClientRelease → Bool
fits platform arch r = r.enabled && (platform_eq r.platform platform && arch_eq r.arch arch)

-- The rows of the query.
abbrev pub enabled_for : Platform → Arch → Table ClientRelease → List ClientRelease
enabled_for platform arch [] = []
enabled_for platform arch ((id, r) ∷ rows) =
    if fits platform arch r
    then r ∷ enabled_for platform arch rows
    else enabled_for platform arch rows

-- Python's `max(rows, key=...)`: the first of the greatest.
abbrev pub max_from : ClientRelease → List ClientRelease → ClientRelease
max_from best [] = best
max_from best (r ∷ rows) = max_from (if earlier best.version r.version then r else best) rows

unfoldable pub latest : List ClientRelease → Option ClientRelease
latest [] = none
latest (r ∷ rows) = some (max_from r rows)

pub record ClientInfo : Type 0 where
  pub min_cloud_version : Version
  pub update_required : Bool
  pub offered : Option ClientRelease

abbrev pub if_newer : Version → Option ClientRelease → Option ClientRelease
if_newer current none = none
if_newer current (some r) = if earlier current r.version then some r else none

unfoldable pub client_info : Platform → Arch → Version → Updates → ClientInfo
client_info platform arch current db = record {
  min_cloud_version = (policy db).min_cloud_version;
  update_required = earlier current (policy db).min_cloud_version;
  offered = if_newer current (latest (enabled_for platform arch db.releases));
}

-- A header that is no version counts as too old.
unfoldable pub check_cloud_version : Option Version → Exec Updates Unit
check_cloud_version header = do
  row ← gets policy
  if same_version row.min_cloud_version zero_version then pure tt else elim header [
    | none ↦ raise (api_error 426 client_update_required)
    | some version ↦
        if earlier version row.min_cloud_version
        then raise (api_error 426 client_update_required)
        else pure tt
  ]
