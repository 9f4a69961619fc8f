-- ===== src/Content/Tests.antt =====
-- app/official_content.py: a second publication of skills.
use opsark_admin.Common.{ℕ, ◌≡◌, refl, true, some, List, [], ◌∷◌}
use opsark_admin.Errors.{ok}
use opsark_admin.Exec.{transaction, ◌>>=◌}
use opsark_admin.Updates.{Version}
use opsark_admin.Content.{
  skills, ContentItem, OfficialContentDraft, OfficialContentRelease, Contents, write_draft, newest,
  find_item, published_items, new_release, is_taken, add_release, PublishInput, publish_draft,
  publish, available,
}
use opsark_admin.Content.Increasing.{
  IsPublished, IsRaised, publish-IsPublished, published_items-IsRaised,
}
use opsark_admin.Content.Available.{IsBest, available-IsBest}

abbrev core : Version
core = record { major = 1; minor = 0; patch = 0 }

abbrev item : ContentItem
item = record { id = 5; version = 2; content = 30 }

abbrev changed_item : ContentItem
changed_item = record item { content = 31 }

abbrev release : OfficialContentRelease
release = record {
  kind = skills;
  version = 4;
  min_core_version = core;
  schema_version = 2;
  items = item ∷ [];
  enabled = true;
  created_at = 10;
}

abbrev draft : OfficialContentDraft
draft = record { revision = 3; items = changed_item ∷ [] }

abbrev db : Contents
db = record { drafts = λ kind. some draft; releases = (1, release) ∷ [] }

abbrev body : PublishInput
body = record { kind = skills; revision = 3; version = 5; min_core_version = core }

abbrev size : List ContentItem → ℕ
size items = 100

published : (publish core [] size 2 body 20 db).0 ≡ ok tt
unfolding publish publish_draft newest published_items new_release add_release is_taken write_draft
    find_item transaction ◌>>=◌
published = refl

publish-IsPublished_example : IsPublished 2 body db (publish core [] size 2 body 20 db).1
publish-IsPublished_example = publish-IsPublished core [] size 2 body 20 db published

published_items-IsRaised_example :
    IsRaised
      (find_item 5 (item ∷ []))
      (find_item 5 (published_items skills (some release) [] (changed_item ∷ [])))
published_items-IsRaised_example = published_items-IsRaised (some release) [] (changed_item ∷ []) 5

available-IsBest_example : IsBest core 3 skills db.releases (available core 3 skills db.releases)
available-IsBest_example = available-IsBest core 3 skills db.releases
