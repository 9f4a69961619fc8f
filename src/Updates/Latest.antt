-- ===== src/Updates/Latest.antt =====
-- app/client_updates.py, `client_info`: the release that a client is offered.
use opsark_admin.Common.{
  ◌≡◌, refl, true, false, ◌&&◌, Option, none, some, List, [], ◌∷◌, arith, if◌then◌else◌, Bool-cases,
  inl, inr, ◌⊎◌, ◌∙◌,
}
use opsark_admin.Common.Table.{Table}
use opsark_admin.Updates.{
  Version, earlier, Platform, Arch, platform_eq, arch_eq, ClientRelease, Updates, fits, enabled_for,
  max_from, latest, if_newer, client_info,
}

earlier_trans : (a b c : Version) → earlier b a ≡ false → earlier c b ≡ false → earlier c a ≡ false
earlier_trans a b c p q = ground arith

-- No row is newer.
abbrev IsNewest : Version → List ClientRelease → Type 0
IsNewest v [] = Unit
IsNewest v (r ∷ rows) = (earlier v r.version ≡ false) × IsNewest v rows

IsNewest-mono :
    (v w : Version) (rows : List ClientRelease)
    → earlier w v ≡ false
    → IsNewest v rows
    → IsNewest w rows
IsNewest-mono v w [] h n = tt
IsNewest-mono v w (r ∷ rows) h n = (earlier_trans r.version v w n.0 h, IsNewest-mono v w rows h n.1)

-- The row is in the list.
abbrev IsOneOf : ClientRelease → List ClientRelease → Type 0
IsOneOf r [] = ⊥
IsOneOf r (x ∷ rows) = (r ≡ x) ⊎ IsOneOf r rows

abbrev newer_of : ClientRelease → ClientRelease → ClientRelease
newer_of best r = if earlier best.version r.version then r else best

newer_of_lem :
    (best r : ClientRelease)
    → ((newer_of best r ≡ r) ⊎ (newer_of best r ≡ best))
      × ((earlier (newer_of best r).version best.version ≡ false)
          × (earlier (newer_of best r).version r.version ≡ false))
newer_of_lem best r = elim (Bool-cases (earlier best.version r.version)) [
  | inl newer ↦ rw newer (inl refl, (ground (arith, newer), ground arith))
  | inr older ↦ rw older (inr refl, (ground arith, older))
]

-- The greatest of a row and a list is one of them, and none of them is newer.
max_from_lem :
    (best : ClientRelease) (rows : List ClientRelease)
    → IsOneOf (max_from best rows) (best ∷ rows)
      × IsNewest (max_from best rows).version (best ∷ rows)
max_from_lem best [] = (inl refl, (ground arith, tt))
max_from_lem best (r ∷ rows) =
    let (found, (first, rest)) = max_from_lem (newer_of best r) rows in
    let (one, (over_best, over_r)) = newer_of_lem best r in
    let m = (max_from (newer_of best r) rows).version in
    let pick = (newer_of best r).version in
    (
      elim found [
        | inl here ↦ elim one [
          | inl is_r ↦ inr (inl (here ∙ is_r))
          | inr is_best ↦ inl (here ∙ is_best)
        ]
        | inr there ↦ inr (inr there)
      ],
      (
        earlier_trans best.version pick m over_best first,
        (earlier_trans r.version pick m over_r first, rest),
      ),
    )

fits_all :
    (platform : Platform) (arch : Arch) (r : ClientRelease) (rows : Table ClientRelease)
    → IsOneOf r (enabled_for platform arch rows)
    → fits platform arch r ≡ true
fits_all platform arch r [] h = absurd h
fits_all platform arch r ((id, x) ∷ rows) h = elim (Bool-cases (fits platform arch x)) [
  | inl good ↦ elim (rw good at h) [
    | inl same ↦ rw same good
    | inr later ↦ fits_all platform arch r rows later
  ]
  | inr bad ↦ fits_all platform arch r rows (rw bad at h)
]

-- The row is in the table.
abbrev pub IsRowOf : ClientRelease → Table ClientRelease → Type 0
IsRowOf r [] = ⊥
IsRowOf r ((id, x) ∷ rows) = (r ≡ x) ⊎ IsRowOf r rows

-- A release for a client: enabled, and for its platform and architecture.
pub record IsFor (platform : Platform) (arch : Arch) (r : ClientRelease) : Type 0 where
  pub enabled : r.enabled ≡ true
  pub of_platform : r.platform ≡ platform
  pub of_arch : r.arch ≡ arch

fits-IsFor :
    (platform : Platform) (arch : Arch) (r : ClientRelease)
    → fits platform arch r ≡ true
    → IsFor platform arch r
fits-IsFor platform arch r h = record {
  enabled = ground (arith, h);
  of_platform = platform_same r.platform platform (ground (arith, h));
  of_arch = arch_same r.arch arch (ground (arith, h));
}
  where
    platform_same : (a b : Platform) → platform_eq a b ≡ true → a ≡ b
    platform_same a b h = ground (arith, h)

    arch_same : (a b : Arch) → arch_eq a b ≡ true → a ≡ b
    arch_same a b h = ground (arith, h)

IsFor-fits :
    (platform : Platform) (arch : Arch) (r : ClientRelease)
    → IsFor platform arch r
    → fits platform arch r ≡ true
IsFor-fits platform arch r h = rw (h.enabled, h.of_platform, h.of_arch) (itself platform arch)
  where
    itself : (p : Platform) (a : Arch) → (platform_eq p p && arch_eq a a) ≡ true
    itself p a = ground arith

enabled_for_complete :
    (platform : Platform) (arch : Arch) (r : ClientRelease) (rows : Table ClientRelease)
    → IsRowOf r rows
    → fits platform arch r ≡ true
    → IsOneOf r (enabled_for platform arch rows)
enabled_for_complete platform arch r [] found good = absurd found
enabled_for_complete platform arch r ((id, x) ∷ rows) (inl here) good =
    let fitting : fits platform arch x ≡ true = rw here at good in rw fitting (inl here)
enabled_for_complete platform arch r ((id, x) ∷ rows) (inr later) good =
    let rest = enabled_for_complete platform arch r rows later good in
    elim (Bool-cases (fits platform arch x)) [
      | inl there ↦ rw there (inr rest)
      | inr absent ↦ rw absent rest
    ]

enabled_for-only :
    (platform : Platform) (arch : Arch) (r : ClientRelease) (rows : Table ClientRelease)
    → IsOneOf r (enabled_for platform arch rows)
    → IsRowOf r rows
enabled_for-only platform arch r [] h = absurd h
enabled_for-only platform arch r ((id, x) ∷ rows) h = elim (Bool-cases (fits platform arch x)) [
  | inl good ↦ elim (rw good at h) [
    | inl same ↦ inl same
    | inr later ↦ inr (enabled_for-only platform arch r rows later)
  ]
  | inr bad ↦ inr (enabled_for-only platform arch r rows (rw bad at h))
]

IsNewest-all :
    (v : Version) (r : ClientRelease) (rows : List ClientRelease)
    → IsNewest v rows
    → IsOneOf r rows
    → earlier v r.version ≡ false
IsNewest-all v r [] h found = absurd found
IsNewest-all v r (x ∷ rows) h (inl same) = rw same h.0
IsNewest-all v r (x ∷ rows) h (inr later) = IsNewest-all v r rows h.1 later

-- No release for the client in the table is newer than a version.
abbrev pub NoneNewer : Platform → Arch → Version → Table ClientRelease → Type 0
NoneNewer platform arch v rows =
    (r : ClientRelease) → IsRowOf r rows → IsFor platform arch r → earlier v r.version ≡ false

query-NoneNewer :
    (platform : Platform) (arch : Arch) (v : Version) (rows : Table ClientRelease)
    → IsNewest v (enabled_for platform arch rows)
    → NoneNewer platform arch v rows
query-NoneNewer platform arch v rows h r found good =
    IsNewest-all v r (enabled_for platform arch rows) h
      (enabled_for_complete platform arch r rows found (IsFor-fits platform arch r good))

-- What a client of a version may be offered of a table.
abbrev pub IsOffer : Platform → Arch → Version → Table ClientRelease → Option ClientRelease → Type 0
IsOffer platform arch current rows none = NoneNewer platform arch current rows
IsOffer platform arch current rows (some r) =
    IsRowOf r rows
    × IsFor platform arch r
    × (earlier current r.version ≡ true)
    × NoneNewer platform arch r.version rows

if_newer-IsOffer :
    (platform : Platform) (arch : Arch) (current : Version) (rows : Table ClientRelease)
    (query : List ClientRelease)
    → enabled_for platform arch rows ≡ query
    → IsOffer platform arch current rows (if_newer current (latest query))
unfolding latest
if_newer-IsOffer platform arch current rows [] e =
    query-NoneNewer platform arch current rows (rw e tt)
if_newer-IsOffer platform arch current rows (first ∷ rest) e =
    let best = max_from first rest in
    let (found, newest) = max_from_lem first rest in
    let listed : IsOneOf best (enabled_for platform arch rows) = rw e found in
    elim (Bool-cases (earlier current best.version)) [
      | inl newer ↦ rw newer (
        enabled_for-only platform arch best rows listed,
        fits-IsFor platform arch best (fits_all platform arch best rows listed),
        newer,
        query-NoneNewer platform arch best.version rows (rw e newest),
      )
      | inr older ↦ rw older (
          query-NoneNewer platform arch current rows
            (rw e (IsNewest-mono best.version current (first ∷ rest) older newest)))
    ]

-- A client is offered a release of the table that is enabled, for its platform and architecture and
-- newer than its own version, and than which no other such release of the table is newer. It is
-- offered none only if no enabled release of the table for its platform and architecture is newer
-- than its own version.
pub client_info-IsOffer :
    (platform : Platform) (arch : Arch) (current : Version) (db : Updates)
    → IsOffer platform arch current db.releases (client_info platform arch current db).offered
unfolding client_info
client_info-IsOffer platform arch current db =
    if_newer-IsOffer platform arch current db.releases (enabled_for platform arch db.releases) refl
