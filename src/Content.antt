-- ===== src/Content.antt =====
-- app/official_content.py: the drafts and the releases of the official skills and tools. An item is
-- its id, its version and the rest, which is only compared; the items of a body arrive validated,
-- `payload` is the size of the text that the items make, and the audit rows are left out.
pub mod Increasing
pub mod Available
mod Tests
use opsark_admin.Common.{
  ℕ, ◌+◌, Bool, true, false, ◌&&◌, ◌||◌, not, Option, none, some, List, [], ◌∷◌, any, leb, ltb, max,
  ◌==◌, if◌then◌else◌,
}
use opsark_admin.Common.Table.{Table, get, update, insert}
use opsark_admin.Errors.{
  Error, api_error, integrity_error, draft_conflict, incompatible_core, release_version_conflict,
  release_not_found, release_withdrawn, content_too_large,
}
use opsark_admin.Exec.{
  Exec, pure, raise, gets, modify, catch, transaction, ◌>>=◌, ◌>>◌, match_option,
}
use opsark_admin.Updates.{Version, earlier}

pub data Kind : Type 0 where
  skills tools : Kind

abbrev pub kind_eq : Kind → Kind → Bool
kind_eq skills skills = true
kind_eq tools tools = true
kind_eq _ _ = false

abbrev pub is_skills : Kind → Bool
is_skills skills = true
is_skills tools = false

pub record ContentItem : Type 0 where
  pub id : ℕ
  pub version : ℕ
  pub content : ℕ

pub record OfficialContentDraft : Type 0 where
  pub revision : ℕ
  pub items : List ContentItem

pub record OfficialContentRelease : Type 0 where
  pub kind : Kind
  pub version : ℕ
  pub min_core_version : Version
  pub schema_version : ℕ
  pub items : List ContentItem
  pub enabled : Bool
  pub created_at : ℕ

pub record Contents : Type 0 where
  pub drafts : Kind → Option OfficialContentDraft
  pub releases : Table OfficialContentRelease

unfoldable pub write_draft : Kind → OfficialContentDraft → Exec Contents Unit
write_draft kind row =
    modify λ db. record db { drafts = λ k. if kind_eq k kind then some row else db.drafts k }

unfoldable pub save_draft : Kind → ℕ → List ContentItem → Exec Contents Unit
save_draft kind revision items = do
  current ← gets (λ db. db.drafts kind)
  match_option current
      (if revision == 0
        then write_draft kind (record { revision = 1; items = items })
        else raise (api_error 409 draft_conflict))
      λ row.
        if not (revision == 0) && (row.revision == revision)
        then write_draft kind (record { revision = revision + 1; items = items })
        else raise (api_error 409 draft_conflict)

-- `order_by(version.desc()).limit(1)` for a kind.
unfoldable pub newest : Kind → Table OfficialContentRelease → Option OfficialContentRelease
newest kind [] = none
newest kind ((id, row) ∷ rows) =
    let rest = newest kind rows in
    if kind_eq row.kind kind
    then elim rest [
      | none ↦ some row
      | some other ↦ if ltb row.version other.version then some other else some row
    ]
    else rest

-- `previous and body.version <= previous.version`
abbrev pub is_stale : Option OfficialContentRelease → ℕ → Bool
is_stale none version = false
is_stale (some previous) version = leb version previous.version

unfoldable pub find_item : ℕ → List ContentItem → Option ContentItem
find_item id [] = none
find_item id (x ∷ items) = if x.id == id then some x else find_item id items

-- `max(item["version"], old["version"] + int(changed))`
abbrev pub raised : ContentItem → Option ContentItem → ContentItem
raised x none = x
raised x (some old) = record x {
  version = max x.version (if x.content == old.content then old.version else old.version + 1);
}

abbrev pub raise_all : List ContentItem → List ContentItem → List ContentItem
raise_all olds [] = []
raise_all olds (x ∷ items) = raised x (find_item x.id olds) ∷ raise_all olds items

abbrev pub items_of : Option OfficialContentRelease → List ContentItem → List ContentItem
items_of none defaults = defaults
items_of (some previous) defaults = previous.items

-- The items of a publication; only skills have versions of their own.
unfoldable pub published_items :
    Kind → Option OfficialContentRelease → List ContentItem → List ContentItem → List ContentItem
published_items skills previous defaults items = raise_all (items_of previous defaults) items
published_items tools previous defaults items = items

-- The unique constraint over kind and version.
unfoldable pub is_taken : Kind → ℕ → Table OfficialContentRelease → Bool
is_taken kind version = any (λ (id, row). kind_eq row.kind kind && row.version == version)

unfoldable pub add_release : ℕ → OfficialContentRelease → Exec Contents Unit
add_release id row = do
  same_id ← gets (λ db. get id db.releases)
  taken ← gets (λ db. is_taken row.kind row.version db.releases)
  match_option same_id
      (if taken
        then raise integrity_error
        else modify (λ db. record db { releases = insert id row db.releases }))
      λ _. raise integrity_error

unfoldable pub on_taken : Error → Exec Contents Unit
on_taken integrity_error = raise (api_error 409 release_version_conflict)
on_taken e = raise e

pub record PublishInput : Type 0 where
  pub kind : Kind
  pub revision : ℕ
  pub version : ℕ
  pub min_core_version : Version

unfoldable pub new_release : PublishInput → List ContentItem → ℕ → OfficialContentRelease
new_release body items now = record {
  kind = body.kind;
  version = body.version;
  min_core_version = body.min_core_version;
  schema_version = 2;
  items = items;
  enabled = true;
  created_at = now;
}

-- The rest of `publish` for the draft whose revision was raised.
unfoldable pub publish_draft :
    ℕ
    → PublishInput
    → List ContentItem
    → List ContentItem
    → (List ContentItem → ℕ)
    → ℕ
    → Exec Contents Unit
publish_draft id body defaults draft payload now = do
  previous ← gets (λ db. newest body.kind db.releases)
  if is_stale previous body.version then raise (api_error 409 release_version_conflict) else do
    let items = published_items body.kind previous defaults draft
    write_draft body.kind (record { revision = body.revision + 1; items = items })
    if ltb 1048576 (payload items)
        then raise (api_error 422 content_too_large)
        else do add_release id (new_release body items now)

-- `core` is the version of the catalogue, and `defaults` are its skills. A request that raises is
-- rolled back.
unfoldable pub publish :
    Version → List ContentItem → (List ContentItem → ℕ) → ℕ → PublishInput → ℕ → Exec Contents Unit
publish core defaults payload id body now =
    if earlier body.min_core_version core then raise (api_error 422 incompatible_core) else do
      draft ← gets (λ db. db.drafts body.kind)
      match_option draft (raise (api_error 409 draft_conflict)) λ row.
          if row.revision == body.revision
          then catch (transaction (publish_draft id body defaults row.items payload now)) on_taken
          else raise (api_error 409 draft_conflict)

unfoldable pub find_release : Kind → ℕ → Exec Contents OfficialContentRelease
find_release kind id = do
  found ← gets (λ db. get id db.releases)
  match_option found (raise (api_error 404 release_not_found))
      λ row. if kind_eq row.kind kind then pure row else raise (api_error 404 release_not_found)

unfoldable pub disable : OfficialContentRelease → OfficialContentRelease
disable row = record row { enabled = false }

unfoldable pub withdraw : Kind → ℕ → Exec Contents Unit
withdraw kind id = do
  row ← find_release kind id
  modify (λ db. record db { releases = update id disable db.releases })

unfoldable pub download : Kind → ℕ → Exec Contents OfficialContentRelease
download kind id = do
  row ← find_release kind id
  if row.enabled then pure row else raise (api_error 410 release_withdrawn)

-- The test of `available_content`.
unfoldable pub is_compatible : Version → ℕ → OfficialContentRelease → Bool
is_compatible core protocol row =
    not (earlier core row.min_core_version)
    && (leb row.schema_version protocol
        && not (is_skills row.kind && ((row.schema_version == 2) && ltb protocol 3)))

-- `order_by(version.desc())`
unfoldable pub put_down :
    OfficialContentRelease → List OfficialContentRelease → List OfficialContentRelease
put_down row [] = row ∷ []
put_down row (x ∷ rows) =
    let rest = put_down row rows in if ltb row.version x.version then x ∷ rest else row ∷ x ∷ rows

unfoldable pub enabled_rows : Kind → Table OfficialContentRelease → List OfficialContentRelease
enabled_rows kind [] = []
enabled_rows kind ((id, row) ∷ rows) =
    let rest = enabled_rows kind rows in
    if row.enabled && kind_eq row.kind kind then put_down row rest else rest

unfoldable pub first_compatible :
    Version → ℕ → List OfficialContentRelease → Option OfficialContentRelease
first_compatible core protocol [] = none
first_compatible core protocol (row ∷ rows) =
    if is_compatible core protocol row then some row else first_compatible core protocol rows

-- `available_content` for one kind.
unfoldable pub available :
    Version → ℕ → Kind → Table OfficialContentRelease → Option OfficialContentRelease
available core protocol kind rows = first_compatible core protocol (enabled_rows kind rows)
