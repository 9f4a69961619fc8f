-- ===== src/Common/Table.antt =====
-- A database table by its primary key: the rows in insertion order, each key once.
use Prim.Native.Nat.{ℕ}
use mathlib.Core.Path.{◌≡◌, refl}
use mathlib.Core.Logic.{◌≢◌}
use mathlib.Core.Option.{Option, none, some}
use mathlib.Core.Option
use mathlib.Core.List.{List, [], ◌∷◌, ◌++◌}
use native.Mathlib.Omega.{arith}
use opsark_admin.Common.Tests.{◌==◌, if◌then◌else◌}

abbrev pub Table {ℓ} : Type ℓ → Type ℓ
Table V = List (ℕ × V)

module _ {ℓ} {V : Type ℓ} where
  -- `db.get(Model, key)`
  abbrev pub get : ℕ → Table V → Option V
  get k [] = none
  get k ((j, v) ∷ t) = if k == j then some v else get k t

  -- `UPDATE ... WHERE key = k`
  abbrev pub update : ℕ → (V → V) → Table V → Table V
  update k f [] = []
  update k f ((j, v) ∷ t) = if k == j then (j, f v) ∷ t else (j, v) ∷ update k f t

  -- `INSERT`, for a key that is not there yet.
  abbrev pub insert : ℕ → V → Table V → Table V
  insert k v t = t ++ (k, v) ∷ []

  -- No key stands twice.
  abbrev pub IsKeyed : Table V → Type ℓ
  IsKeyed [] = Unit
  IsKeyed ((k, v) ∷ t) = (get k t ≡ none) × IsKeyed t

  pub get-update :
      (k j : ℕ) (f : V → V) (t : Table V)
      → get j (update k f t) ≡ (if k == j then Option.map f (get j t) else get j t)
  get-update k j f [] = ground arith
  get-update k j f ((i, v) ∷ t) = ground (arith, get-update k j f t)

  pub get-update_self :
      (k : ℕ) (f : V → V) (t : Table V) → get k (update k f t) ≡ Option.map f (get k t)
  get-update_self k f [] = refl
  get-update_self k f ((i, v) ∷ t) = ground (arith, get-update_self k f t)

  pub get-update_ne : (k j : ℕ) (f : V → V) (t : Table V) → j ≢ k → get j (update k f t) ≡ get j t
  get-update_ne k j f [] h = refl
  get-update_ne k j f ((i, v) ∷ t) h = ground (arith, get-update_ne k j f t h)

  pub get-insert :
      (k j : ℕ) (v : V) (t : Table V)
      → get k t ≡ none
      → get j (insert k v t) ≡ (if k == j then some v else get j t)
  get-insert k j v [] h = ground arith
  get-insert k j v ((i, w) ∷ t) h = ground (arith, get-insert k j v t)

  pub update-IsKeyed : (k : ℕ) (f : V → V) (t : Table V) → IsKeyed t → IsKeyed (update k f t)
  update-IsKeyed k f [] h = tt
  update-IsKeyed k f ((i, v) ∷ t) h = ground (arith, update-IsKeyed k f t h.1, get-update k i f t)

  pub insert-IsKeyed :
      (k : ℕ) (v : V) (t : Table V) → get k t ≡ none → IsKeyed t → IsKeyed (insert k v t)
  insert-IsKeyed k v [] e h = (refl, tt)
  insert-IsKeyed k v ((i, w) ∷ t) e h = ground (arith, insert-IsKeyed k v t, get-insert k i v t)

  -- A row that was just inserted is the one that is updated.
  pub update-insert :
      (k : ℕ) (f : V → V) (v : V) (t : Table V)
      → get k t ≡ none
      → update k f (insert k v t) ≡ insert k (f v) t
  update-insert k f v [] e = ground arith
  update-insert k f v ((i, w) ∷ t) e = ground (arith, update-insert k f v t)

  -- An update of a key that is not there changes nothing.
  pub update_missing : (k : ℕ) (f : V → V) (t : Table V) → get k t ≡ none → update k f t ≡ t
  update_missing k f [] e = refl
  update_missing k f ((i, w) ∷ t) e = ground (arith, update_missing k f t)
