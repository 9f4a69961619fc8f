-- ===== src/Exec.antt =====
-- Code that reads and writes a state and may raise. What was written before a raise stays written,
-- so the state comes back beside the error: it is the transaction that undoes it.
pub mod Keeps
use opsark_admin.Common.{Option, none, some}
use opsark_admin.Errors.{Error, Result, ok, err}

abbrev pub Exec {ℓ} : Type ℓ → Type ℓ → Type ℓ
Exec S A = S → Result A × S

module _ {ℓ} {S A : Type ℓ} where
  pub raise : Error → Exec S A
  raise e db = (err e, db)

  pub pure : A → Exec S A
  pure x db = (ok x, db)

  pub lift : Result A → Exec S A
  lift r db = (r, db)

  pub gets : (S → A) → Exec S A
  gets read db = (ok (read db), db)

  recover : Result A → (Error → Exec S A) → Exec S A
  recover (ok a) handler s = (ok a, s)
  recover (err e) handler s = handler e s

  -- `try: ... except ...:`, with the handler over every exception.
  pub catch : Exec S A → (Error → Exec S A) → Exec S A
  unfolding recover
  catch m handler s = let (r, s') = m s in recover r handler s'

  -- A request: what it wrote is committed if it returns and rolled back if it raises.
  unfoldable pub transaction : Exec S A → Exec S A
  transaction m s = let (r, s') = m s in elim r [ ok a ↦ (ok a, s') | err e ↦ (err e, s) ]

pub modify {ℓ} : {S : Type ℓ} → (S → S) → Exec S Unit
modify f s = (ok tt, f s)

module _ {ℓ} {S A B : Type ℓ} where
  abbrev continue : Result A → (A → Exec S B) → Exec S B
  continue (err e) next db = (err e, db)
  continue (ok a) next db = next a db

  -- A branch on a value that may be missing.
  unfoldable pub match_option : Option A → Exec S B → (A → Exec S B) → Exec S B
  match_option none absent present = absent
  match_option (some a) absent present = present a

  infixl 10 ◌>>=◌ ◌>>◌
  -- Opening this opens the other actions too.
  unfoldable pub ◌>>=◌ : Exec S A → (A → Exec S B) → Exec S B
  unfolding pure raise gets lift modify catch recover match_option
  ◌>>=◌ first next db = let (r, after) = first db in continue r next after

  abbrev pub ◌>>◌ : Exec S A → Exec S B → Exec S B
  first >> second = first >>= λ x. second
