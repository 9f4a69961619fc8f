-- ===== src/Content/Available.antt =====
-- app/official_content.py, `available_content`: the release that a client gets.
use opsark_admin.Common.{
  ℕ, ◌≡◌, ◌≤◌, ◌⊎◌, refl, Bool, true, false, ◌&&◌, Option, none, some, List, [], ◌∷◌, ltb, arith,
  Bool-cases, inl, inr,
}
use opsark_admin.Common.Table.{Table}
use opsark_admin.Updates.{Version}
use opsark_admin.Content.{
  Kind, skills, tools, kind_eq, OfficialContentRelease, is_compatible, put_down, enabled_rows,
  first_compatible, available,
}

-- No row of a list has more than a version.
abbrev pub AllUpTo : ℕ → List OfficialContentRelease → Type 0
AllUpTo v [] = Unit
AllUpTo v (row ∷ rows) = (row.version ≤ v) × AllUpTo v rows

abbrev IsSorted : List OfficialContentRelease → Type 0
IsSorted [] = Unit
IsSorted (row ∷ rows) = AllUpTo row.version rows × IsSorted rows

AllUpTo-mono :
    (v w : ℕ) (rows : List OfficialContentRelease) → v ≤ w → AllUpTo v rows → AllUpTo w rows
AllUpTo-mono v w [] le h = tt
AllUpTo-mono v w (row ∷ rows) le h = (omega (arith, h.0), AllUpTo-mono v w rows le h.1)

AllUpTo-put_down :
    (v : ℕ) (row : OfficialContentRelease) (rows : List OfficialContentRelease)
    → row.version ≤ v
    → AllUpTo v rows
    → AllUpTo v (put_down row rows)
unfolding put_down
AllUpTo-put_down v row [] le h = (le, tt)
AllUpTo-put_down v row (x ∷ rows) le h = elim (Bool-cases (ltb row.version x.version)) [
  | inl lower ↦ rw lower (h.0, AllUpTo-put_down v row rows le h.1)
  | inr higher ↦ rw higher (le, h)
]

put_down-IsSorted :
    (row : OfficialContentRelease) (rows : List OfficialContentRelease)
    → IsSorted rows
    → IsSorted (put_down row rows)
unfolding put_down
put_down-IsSorted row [] h = (tt, tt)
put_down-IsSorted row (x ∷ rows) h = elim (Bool-cases (ltb row.version x.version)) [
  | inl lower ↦ rw lower (
    AllUpTo-put_down x.version row rows (ground (arith, lower)) h.0,
    put_down-IsSorted row rows h.1,
  )
  | inr higher ↦
      let le : x.version ≤ row.version = ground (arith, higher) in
      rw higher ((le, AllUpTo-mono x.version row.version rows le h.0), h)
]

enabled_rows-IsSorted :
    (kind : Kind) (rows : Table OfficialContentRelease) → IsSorted (enabled_rows kind rows)
unfolding enabled_rows
enabled_rows-IsSorted kind [] = tt
enabled_rows-IsSorted kind ((id, row) ∷ rows) =
    elim (Bool-cases (row.enabled && kind_eq row.kind kind)) [
      | inl there ↦ rw there (put_down-IsSorted row _ (enabled_rows-IsSorted kind rows))
      | inr not_there ↦ rw not_there (enabled_rows-IsSorted kind rows)
    ]

-- What a client may get among rows: a compatible row such that no compatible row has a higher
-- version, or nothing, if no row is compatible.
abbrev NoneAbove :
    Version → ℕ → Option OfficialContentRelease → List OfficialContentRelease → Type 0
NoneAbove core protocol best [] = Unit
NoneAbove core protocol none (row ∷ rows) =
    (is_compatible core protocol row ≡ false) × NoneAbove core protocol none rows
NoneAbove core protocol (some best) (row ∷ rows) =
    (is_compatible core protocol row ≡ true → row.version ≤ best.version)
    × NoneAbove core protocol (some best) rows

below_all :
    (core : Version) (protocol : ℕ) (best : OfficialContentRelease)
    (rows : List OfficialContentRelease)
    → AllUpTo best.version rows
    → NoneAbove core protocol (some best) rows
below_all core protocol best [] h = tt
below_all core protocol best (row ∷ rows) h = (λ e. h.0, below_all core protocol best rows h.1)

after_refused :
    (core : Version) (protocol : ℕ) (best : Option OfficialContentRelease)
    (row : OfficialContentRelease) (rows : List OfficialContentRelease)
    → is_compatible core protocol row ≡ false
    → NoneAbove core protocol best rows
    → NoneAbove core protocol best (row ∷ rows)
after_refused core protocol none row rows refused h = (refused, h)
after_refused core protocol (some best) row rows refused h = (λ e. absurd (ground arith), h)

first-NoneAbove :
    (core : Version) (protocol : ℕ) (rows : List OfficialContentRelease)
    → IsSorted rows
    → NoneAbove core protocol (first_compatible core protocol rows) rows
unfolding first_compatible
first-NoneAbove core protocol [] h = tt
first-NoneAbove core protocol (row ∷ rows) h = elim (Bool-cases (is_compatible core protocol row)) [
  | inl good ↦ rw good (λ e. omega arith, below_all core protocol row rows h.0)
  | inr bad ↦ rw bad (
      after_refused core protocol (first_compatible core protocol rows) row rows bad
        (first-NoneAbove core protocol rows h.1))
]

true_not_false : (b : Bool) → b ≡ true → b ≡ false → ⊥
true_not_false b holds fails = ground (arith, holds, fails)

-- The row is in the list, and in the table.
abbrev IsOneOf : OfficialContentRelease → List OfficialContentRelease → Type 0
IsOneOf row [] = ⊥
IsOneOf row (x ∷ rows) = (row ≡ x) ⊎ IsOneOf row rows

abbrev pub IsRowOf : OfficialContentRelease → Table OfficialContentRelease → Type 0
IsRowOf row [] = ⊥
IsRowOf row ((id, x) ∷ rows) = (row ≡ x) ⊎ IsRowOf row rows

-- A client may get a row that is enabled, of the kind and compatible.
pub record MayGet (core : Version) (protocol : ℕ) (kind : Kind) (row : OfficialContentRelease)
    : Type 0 where
  pub enabled : row.enabled ≡ true
  pub of_kind : row.kind ≡ kind
  pub compatible : is_compatible core protocol row ≡ true

kind_eq_same : (a b : Kind) → kind_eq a b ≡ true → a ≡ b
kind_eq_same a b h = ground arith

kind_eq_refl : (a : Kind) → kind_eq a a ≡ true
kind_eq_refl skills = refl
kind_eq_refl tools = refl

-- The list has the row that was put into it, and the others.
put_down-IsOneOf :
    (new row : OfficialContentRelease) (rows : List OfficialContentRelease)
    → (row ≡ new) ⊎ IsOneOf row rows
    → IsOneOf row (put_down new rows)
unfolding put_down
put_down-IsOneOf new row [] h = h
put_down-IsOneOf new row (x ∷ rows) h = elim (Bool-cases (ltb new.version x.version)) [
  | inr higher ↦ rw higher h
  | inl lower ↦ rw lower (elim h [
    | inl is_new ↦ inr (put_down-IsOneOf new row rows (inl is_new))
    | inr (inl is_x) ↦ inl is_x
    | inr (inr later) ↦ inr (put_down-IsOneOf new row rows (inr later))
  ])
]

IsOneOf-put_down :
    (new row : OfficialContentRelease) (rows : List OfficialContentRelease)
    → IsOneOf row (put_down new rows)
    → (row ≡ new) ⊎ IsOneOf row rows
unfolding put_down
IsOneOf-put_down new row [] h = h
IsOneOf-put_down new row (x ∷ rows) h = elim (Bool-cases (ltb new.version x.version)) [
  | inr higher ↦ rw higher at h
  | inl lower ↦ elim (rw lower at h) [
    | inl is_x ↦ inr (inl is_x)
    | inr rest ↦ elim (IsOneOf-put_down new row rows rest) [
      | inl is_new ↦ inl is_new
      | inr later ↦ inr (inr later)
    ]
  ]
]

-- The rows of the query are the enabled ones of the kind, and all of them.
enabled_rows_complete :
    (kind : Kind) (row : OfficialContentRelease) (rows : Table OfficialContentRelease)
    → IsRowOf row rows
    → row.enabled ≡ true
    → row.kind ≡ kind
    → IsOneOf row (enabled_rows kind rows)
unfolding enabled_rows
enabled_rows_complete kind row [] found on same = absurd found
enabled_rows_complete kind row ((id, x) ∷ rows) found on same =
    elim (Bool-cases (x.enabled && kind_eq x.kind kind)) [
      | inl there ↦ rw there (
          put_down-IsOneOf x row (enabled_rows kind rows) (elim found [
            | inl here ↦ inl here
            | inr later ↦ inr (enabled_rows_complete kind row rows later on same)
          ]))
      | inr absent ↦ rw absent (elim found [
        | inl here ↦
            let known : (row.enabled && kind_eq row.kind kind) ≡ true =
              rw (on, same) (kind_eq_refl kind) in
            absurd (true_not_false _ known (rw here absent))
        | inr later ↦ enabled_rows_complete kind row rows later on same
      ])
    ]

enabled_rows-only :
    (kind : Kind) (row : OfficialContentRelease) (rows : Table OfficialContentRelease)
    → IsOneOf row (enabled_rows kind rows)
    → IsRowOf row rows × (row.enabled ≡ true) × (row.kind ≡ kind)
unfolding enabled_rows
enabled_rows-only kind row [] found = absurd found
enabled_rows-only kind row ((id, x) ∷ rows) found =
    elim (Bool-cases (x.enabled && kind_eq x.kind kind)) [
      | inl there ↦ elim (IsOneOf-put_down x row (enabled_rows kind rows) (rw there at found)) [
        | inl here ↦ (
          inl here,
          rw here (ground (arith, there)),
          rw here (kind_eq_same x.kind kind (ground (arith, there))),
        )
        | inr later ↦
            let (below, on, same) = enabled_rows-only kind row rows later in (inr below, on, same)
      ]
      | inr absent ↦
          let (below, on, same) = enabled_rows-only kind row rows (rw absent at found) in
          (inr below, on, same)
    ]

NoneAbove-none :
    (core : Version) (protocol : ℕ) (row : OfficialContentRelease)
    (rows : List OfficialContentRelease)
    → NoneAbove core protocol none rows
    → IsOneOf row rows
    → is_compatible core protocol row ≡ false
NoneAbove-none core protocol row [] h found = absurd found
NoneAbove-none core protocol row (x ∷ rows) h (inl here) = rw here h.0
NoneAbove-none core protocol row (x ∷ rows) h (inr later) =
    NoneAbove-none core protocol row rows h.1 later

NoneAbove-some :
    (core : Version) (protocol : ℕ) (best row : OfficialContentRelease)
    (rows : List OfficialContentRelease)
    → NoneAbove core protocol (some best) rows
    → IsOneOf row rows
    → is_compatible core protocol row ≡ true
    → row.version ≤ best.version
NoneAbove-some core protocol best row [] h found good = absurd found
NoneAbove-some core protocol best row (x ∷ rows) h (inl here) good = rw here (h.0 (rw here at good))
NoneAbove-some core protocol best row (x ∷ rows) h (inr later) good =
    NoneAbove-some core protocol best row rows h.1 later good

first-IsOneOf :
    (core : Version) (protocol : ℕ) (rows : List OfficialContentRelease)
    (best : OfficialContentRelease)
    → first_compatible core protocol rows ≡ some best
    → IsOneOf best rows × (is_compatible core protocol best ≡ true)
unfolding first_compatible
first-IsOneOf core protocol [] best h = cc h
first-IsOneOf core protocol (row ∷ rows) best h =
    elim (Bool-cases (is_compatible core protocol row)) [
      | inl good ↦ let same : best ≡ row = cc (rw good at h) in (inl same, rw same good)
      | inr bad ↦
          let (found, good) = first-IsOneOf core protocol rows best (rw bad at h) in
          (inr found, good)
    ]

-- The right one of the rows of a table for a client: one that it may get, and none that it may get
-- has a higher version; or none, if it may get no row.
abbrev pub IsBest :
    Version → ℕ → Kind → Table OfficialContentRelease → Option OfficialContentRelease → Type 0
IsBest core protocol kind rows none =
    (row : OfficialContentRelease) → IsRowOf row rows → ¬ (MayGet core protocol kind row)
IsBest core protocol kind rows (some best) =
    IsRowOf best rows
    × MayGet core protocol kind best
    × ((row : OfficialContentRelease)
        → IsRowOf row rows
        → MayGet core protocol kind row
        → row.version ≤ best.version)

-- A client gets a row of the table that is enabled, of the kind and compatible with it, and no other
-- such row of the table has a higher version; it gets none only if the table has no such row.
pub available-IsBest :
    (core : Version) (protocol : ℕ) (kind : Kind) (rows : Table OfficialContentRelease)
    → IsBest core protocol kind rows (available core protocol kind rows)
unfolding available
available-IsBest core protocol kind rows =
    go (first_compatible core protocol (enabled_rows kind rows)) refl
  where
    go :
        (best : Option OfficialContentRelease)
        → first_compatible core protocol (enabled_rows kind rows) ≡ best
        → IsBest core protocol kind rows best
    go none e = λ row found may. true_not_false _ may.compatible (
        NoneAbove-none core protocol row (enabled_rows kind rows)
          (rw e at (
            first-NoneAbove core protocol (enabled_rows kind rows)
              (enabled_rows-IsSorted kind rows)))
          (enabled_rows_complete kind row rows found may.enabled may.of_kind))
    go (some best) e =
        let (listed, good) = first-IsOneOf core protocol (enabled_rows kind rows) best e in
        let (found, on, same) = enabled_rows-only kind best rows listed in
        (
          found,
          record { enabled = on; of_kind = same; compatible = good },
          λ row there may.
              NoneAbove-some core protocol best row (enabled_rows kind rows)
                (rw e at (
                  first-NoneAbove core protocol (enabled_rows kind rows)
                    (enabled_rows-IsSorted kind rows)))
                (enabled_rows_complete kind row rows there may.enabled may.of_kind) may.compatible,
        )
