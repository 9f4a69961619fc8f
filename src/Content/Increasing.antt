-- ===== src/Content/Increasing.antt =====
-- app/official_content.py, `publish`: the versions of releases and of their items only rise.
use opsark_admin.Common.{
  ℕ, ◌≡◌, refl, ◌≤◌, ◌<◌, true, false, Option, none, some, List, [], ◌∷◌, ◌==◌, arith, Bool-cases,
  Option-cases, inl, inr, ap,
}
use opsark_admin.Common.Table.{Table, get, insert, get-insert}
use opsark_admin.Errors.{
  Error, ok, api_error, integrity_error, value_error, unhandled_error, transport, cancelled_error,
}
use opsark_admin.Exec.{Exec, catch, transaction, ◌>>=◌}
use opsark_admin.Exec.Keeps.{Result-cases, transaction_done, catch_returns, catch_raises}
use opsark_admin.Updates.{Version, earlier}
use opsark_admin.Content.{
  Kind, skills, kind_eq, ContentItem, OfficialContentRelease, Contents, write_draft, newest,
  is_stale, find_item, raised, raise_all, published_items, items_of, new_release, add_release,
  on_taken, PublishInput, publish_draft, publish,
}

-- Every release of the kind has a lower version.
abbrev pub AllBelow : Kind → ℕ → Table OfficialContentRelease → Type 0
AllBelow kind v [] = Unit
AllBelow kind v ((id, row) ∷ rows) =
    (kind_eq row.kind kind ≡ true → row.version < v) × AllBelow kind v rows

-- None is above the newest one.
newest-AllBelow :
    (kind : Kind) (v : ℕ) (rows : Table OfficialContentRelease)
    → is_stale (newest kind rows) v ≡ false
    → AllBelow kind v rows
unfolding newest
newest-AllBelow kind v [] fresh = tt
newest-AllBelow kind v ((id, row) ∷ rows) fresh =
    let step : (is_stale (newest kind rows) v ≡ false)
        × (kind_eq row.kind kind ≡ true → row.version < v) =
      ground arith in
    (step.1, newest-AllBelow kind v rows step.0)

-- What a publication that returns has written.
pub record IsPublished (id : ℕ) (body : PublishInput) (before after : Contents) : Type 0 where
  pub row :
      (r : OfficialContentRelease) × (get id after.releases ≡ some r)
      × (r.kind ≡ body.kind)
      × (r.version ≡ body.version)
  pub above : AllBelow body.kind body.version before.releases

abbrev items_for : PublishInput → List ContentItem → List ContentItem → Contents → List ContentItem
items_for body defaults draft db =
    published_items body.kind (newest body.kind db.releases) defaults draft

publish_draft_ok :
    (id : ℕ) (body : PublishInput) (defaults draft : List ContentItem)
    (payload : List ContentItem → ℕ) (now : ℕ) (db : Contents)
    → (publish_draft id body defaults draft payload now db).0 ≡ ok tt
    → (is_stale (newest body.kind db.releases) body.version ≡ false)
      × (get id db.releases ≡ none)
      × ((publish_draft id body defaults draft payload now db).1.releases
          ≡ insert id (new_release body (items_for body defaults draft db) now) db.releases)
unfolding publish_draft write_draft add_release ◌>>=◌
publish_draft_ok id body defaults draft payload now db done = ground arith

publish_draft-IsPublished :
    (id : ℕ) (body : PublishInput) (defaults draft : List ContentItem)
    (payload : List ContentItem → ℕ) (now : ℕ) (db : Contents)
    → (publish_draft id body defaults draft payload now db).0 ≡ ok tt
    → IsPublished id body db (publish_draft id body defaults draft payload now db).1
unfolding new_release
publish_draft-IsPublished id body defaults draft payload now db done =
    let (fresh, free, written) = publish_draft_ok id body defaults draft payload now db done in
    record {
      row = (
        new_release body (items_for body defaults draft db) now,
        rw (written, get-insert id id _ db.releases free) (ground arith),
        refl,
        refl,
      );
      above = newest-AllBelow body.kind body.version db.releases fresh;
    }

on_taken-raises : (e : Error) (db : Contents) → ¬ ((on_taken e db).0 ≡ ok tt)
unfolding on_taken ◌>>=◌
on_taken-raises (api_error status code) db done = absurd (ground arith)
on_taken-raises integrity_error db done = absurd (ground arith)
on_taken-raises value_error db done = absurd (ground arith)
on_taken-raises unhandled_error db done = absurd (ground arith)
on_taken-raises (transport failure) db done = absurd (ground arith)
on_taken-raises cancelled_error db done = absurd (ground arith)

caught-IsPublished :
    (id : ℕ) (body : PublishInput) (db : Contents) (m : Exec Contents Unit)
    → ((m db).0 ≡ ok tt → IsPublished id body db (m db).1)
    → (catch (transaction m) on_taken db).0 ≡ ok tt
    → IsPublished id body db (catch (transaction m) on_taken db).1
caught-IsPublished id body db m good done = elim (Result-cases (transaction m db).0) [
  | inl (_, returned) ↦
      let (ran, kept) = transaction_done m db tt returned in
      rw (catch_returns (transaction m) on_taken db tt returned, kept) (good ran)
  | inr (e, raised) ↦
      absurd (on_taken-raises e _ (rw (catch_raises (transaction m) on_taken db e raised) at done))
]

publish_ok :
    (core : Version) (defaults : List ContentItem) (payload : List ContentItem → ℕ) (id : ℕ)
    (body : PublishInput) (now : ℕ) (db : Contents)
    → (publish core defaults payload id body now db).0 ≡ ok tt
    → (draft : List ContentItem) × (publish core defaults payload id body now db
        ≡ catch (transaction (publish_draft id body defaults draft payload now)) on_taken db)
unfolding publish ◌>>=◌
publish_ok core defaults payload id body now db done =
    elim (Bool-cases (earlier body.min_core_version core)) [
      | inl old ↦ absurd (ground (arith, rw old at done))
      | inr fine ↦ elim (Option-cases (db.drafts body.kind)) [
        | inl missing ↦ absurd (ground (arith, rw (fine, missing) at done))
        | inr (row, there) ↦ elim (Bool-cases (row.revision == body.revision)) [
          | inl current ↦ (row.items, rw (fine, there, current) refl)
          | inr other ↦ absurd (ground (arith, rw (fine, there, other) at done))
        ]
      ]
    ]

-- A publication that returns has added a release of the kind and the version of the body, which is
-- above the version of every release of the kind there was: the versions of a kind only rise, and
-- none is used twice.
pub publish-IsPublished :
    (core : Version) (defaults : List ContentItem) (payload : List ContentItem → ℕ) (id : ℕ)
    (body : PublishInput) (now : ℕ) (db : Contents)
    → (publish core defaults payload id body now db).0 ≡ ok tt
    → IsPublished id body db (publish core defaults payload id body now db).1
publish-IsPublished core defaults payload id body now db done =
    let (draft, same) = publish_ok core defaults payload id body now db done in
    rw same (
      caught-IsPublished id body db (publish_draft id body defaults draft payload now)
        (publish_draft-IsPublished id body defaults draft payload now db) (rw same at done))

-- The item has gone on from an earlier one.
abbrev pub IsRaised : Option ContentItem → Option ContentItem → Type 0
IsRaised (some old) (some new) =
    (old.version ≤ new.version) × ((new.content == old.content) ≡ false → old.version < new.version)
IsRaised _ _ = Unit

raised-IsRaised : (x : ContentItem) (old : Option ContentItem) → IsRaised old (some (raised x old))
raised-IsRaised x none = tt
raised-IsRaised x (some old) = (ground arith, λ e. ground arith)

raised-id : (x : ContentItem) (old : Option ContentItem) → (raised x old).id ≡ x.id
raised-id x none = refl
raised-id x (some old) = refl

raise_all-IsRaised :
    (olds items : List ContentItem) (id : ℕ)
    → IsRaised (find_item id olds) (find_item id (raise_all olds items))
unfolding find_item
raise_all-IsRaised olds [] id = elim (Option-cases (find_item id olds)) [
  | inl none_ ↦ rw none_ tt
  | inr (old, there) ↦ rw there tt
]
raise_all-IsRaised olds (x ∷ items) id = elim (Bool-cases (x.id == id)) [
  | inl hit ↦
      let e : x.id ≡ id = ground (arith, hit) in
      rw (raised-id x (find_item x.id olds), hit, ap (λ n. find_item n olds) e)
        (raised-IsRaised x (find_item id olds))
  | inr miss ↦ rw (raised-id x (find_item x.id olds), miss) (raise_all-IsRaised olds items id)
]

-- In a publication of skills, no item has a lower version than the item of that id in the release
-- before, and a higher one if anything but its version differs.
pub published_items-IsRaised :
    (previous : Option OfficialContentRelease) (defaults items : List ContentItem) (id : ℕ)
    → IsRaised
        (find_item id (items_of previous defaults))
        (find_item id (published_items skills previous defaults items))
unfolding published_items
published_items-IsRaised previous defaults items id =
    raise_all-IsRaised (items_of previous defaults) items id
