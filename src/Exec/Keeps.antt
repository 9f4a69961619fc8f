-- ===== src/Exec/Keeps.antt =====
-- Invariants of actions, one rule for each way to build an action.
use opsark_admin.Common.{
  ◌⊎◌, inl, inr, ◌≡◌, refl, ap, sym, ◌∙◌, arith, Bool, true, false, Option, none, some,
  if◌then◌else◌,
}
use opsark_admin.Errors.{Error, Result, ok, err}
use opsark_admin.Exec.{
  Exec, pure, raise, gets, lift, modify, catch, recover, transaction, ◌>>=◌, match_option,
}

-- `m` keeps `P`, whether it returns or raises.
pub record Keeps {ℓ} {S B : Type ℓ} (Inv : S → Type ℓ) (action : Exec S B) : Type ℓ where
  pub at : (before : S) → Inv before → Inv (action before).1

pub Result-cases {ℓ} :
    {A : Type ℓ} (r : Result A) → ((a : A) × (r ≡ ok a)) ⊎ ((e : Error) × (r ≡ err e))
Result-cases (ok a) = inl (a, refl)
Result-cases (err e) = inr (e, refl)

-- A request commits or leaves everything as it was.
pub transaction_lem {ℓ} :
    {S A : Type ℓ} (P : S → Type ℓ) (m : Exec S A) (s : S)
    → P s
    → ((a : A) → (m s).0 ≡ ok a → P (m s).1)
    → P (transaction m s).1
unfolding transaction
transaction_lem P m s before after = elim (Result-cases (m s).0) [
  | inl (a, done) ↦ rw (transaction, done) (after a done)
  | inr (e, refused) ↦ rw (transaction, refused) before
]

pub transaction_returns {ℓ} :
    {S A : Type ℓ} (m : Exec S A) (s : S) (a : A)
    → (m s).0 ≡ ok a
    → transaction m s ≡ (ok a, (m s).1)
unfolding transaction
transaction_returns m s a done = rw (transaction, done) refl

pub ok_not_err {ℓ} : {A : Type ℓ} (r : Result A) (a : A) (e : Error) → r ≡ ok a → ¬ (r ≡ err e)
ok_not_err r a e returned raised = ground arith

pub transaction_done {ℓ} :
    {S A : Type ℓ} (m : Exec S A) (s : S) (a : A)
    → (transaction m s).0 ≡ ok a
    → ((m s).0 ≡ ok a) × ((transaction m s).1 ≡ (m s).1)
unfolding transaction
transaction_done m s a done = elim (Result-cases (m s).0) [
  | inl (b, returned) ↦ (
    returned ∙ sym (ap (λ p. p.0) (transaction_returns m s b returned)) ∙ done,
    ap (λ p. p.1) (transaction_returns m s b returned),
  )
  | inr (e, raised) ↦ absurd (ok_not_err (err e) a e (rw (transaction, raised) at done) refl)
]

pub transaction_raises {ℓ} :
    {S A : Type ℓ} (m : Exec S A) (s : S) (e : Error)
    → (transaction m s).0 ≡ err e
    → (transaction m s).1 ≡ s
unfolding transaction
transaction_raises m s e refused = elim (Result-cases (m s).0) [
  | inl (a, done) ↦
      absurd (
        ok_not_err (transaction m s).0 a e (ap (λ p. p.0) (transaction_returns m s a done)) refused)
  | inr (first, raised) ↦ rw (transaction, raised) refl
]

module _ {ℓ} {S A : Type ℓ} where
  pub catch_returns :
      (m : Exec S A) (handler : Error → Exec S A) (s : S) (a : A)
      → (m s).0 ≡ ok a
      → catch m handler s ≡ (ok a, (m s).1)
  unfolding catch recover
  catch_returns m handler s a done = rw done refl

  pub catch_raises :
      (m : Exec S A) (handler : Error → Exec S A) (s : S) (e : Error)
      → (m s).0 ≡ err e
      → catch m handler s ≡ handler e (m s).1
  unfolding catch recover
  catch_raises m handler s e raised = rw raised refl

module _ {ℓ} {S A : Type ℓ} {P : S → Type ℓ} where
  pub Keeps-lift : (r : Result A) → Keeps P (lift r)
  unfolding lift
  Keeps-lift r = record { at = λ s same. same }

  pub Keeps-gets : (read : S → A) → Keeps P (gets read)
  unfolding gets
  Keeps-gets read = record { at = λ s same. same }

  pub Keeps-pure : (x : A) → Keeps P (pure x)
  unfolding pure
  Keeps-pure x = record { at = λ s same. same }

  pub Keeps-raise : (e : Error) → Keeps P (raise {A = A} e)
  unfolding raise
  Keeps-raise e = record { at = λ s same. same }

  pub Keeps-if : (b : Bool) (m n : Exec S A) → Keeps P m → Keeps P n → Keeps P (if b then m else n)
  Keeps-if true m n km kn = km
  Keeps-if false m n km kn = kn

  -- The branch behind a guard may use that the guard has failed.
  pub Keeps-guard :
      (b : Bool) (m n : Exec S A)
      → Keeps P m
      → (b ≡ false → Keeps P n)
      → Keeps P (if b then m else n)
  Keeps-guard true m n km kn = km
  Keeps-guard false m n km kn = kn refl

  Keeps-recover :
      (r : Result A) (handler : Error → Exec S A) (s : S)
      → ((e : Error) → Keeps P (handler e))
      → P s
      → P (recover r handler s).1
  unfolding recover
  Keeps-recover (ok a) handler s kh h = h
  Keeps-recover (err e) handler s kh h = (kh e).at s h

  pub Keeps-catch :
      (m : Exec S A) (handler : Error → Exec S A)
      → Keeps P m
      → ((e : Error) → Keeps P (handler e))
      → Keeps P (catch m handler)
  unfolding catch
  Keeps-catch m handler km kh = record {
    at = λ s h. Keeps-recover (m s).0 handler (m s).1 kh (km.at s h);
  }

  -- The same where only this run of the action is known to keep `P`.
  pub catch_lem :
      (m : Exec S A) (handler : Error → Exec S A) (s : S)
      → P (m s).1
      → ((e : Error) → Keeps P (handler e))
      → P (catch m handler s).1
  unfolding catch
  catch_lem m handler s h kh = Keeps-recover (m s).0 handler (m s).1 kh h

  pub Keeps-transaction : (m : Exec S A) → Keeps P m → Keeps P (transaction m)
  Keeps-transaction m km = record { at = λ s h. transaction_lem P m s h (λ a done. km.at s h) }

pub Keeps-modify {ℓ} :
    {S : Type ℓ} {P : S → Type ℓ} (f : S → S) → ((s : S) → P s → P (f s)) → Keeps P (modify f)
unfolding modify
Keeps-modify f h = record { at = h }

module _ {ℓ} {S A B : Type ℓ} {P : S → Type ℓ} where
  Keeps-continue :
      (r : Result A) (f : A → Exec S B) → ((a : A) → Keeps P (f a)) → Keeps P (lift r >>= f)
  unfolding ◌>>=◌
  Keeps-continue (ok a) f kf = kf a
  Keeps-continue (err e) f kf = record { at = λ s h. h }

  pub Keeps-bind :
      (first : Exec S A) (next : A → Exec S B)
      → Keeps P first
      → ((x : A) → Keeps P (next x))
      → Keeps P (first >>= next)
  unfolding ◌>>=◌
  Keeps-bind first next kept keeps = record {
    at = λ db h. (Keeps-continue (first db).0 next keeps).at (first db).1 (kept.at db h);
  }

  pub Keeps-match_option :
      (o : Option A) (absent : Exec S B) (present : A → Exec S B)
      → Keeps P absent
      → ((a : A) → Keeps P (present a))
      → Keeps P (match_option o absent present)
  unfolding match_option
  Keeps-match_option none absent present ka kp = ka
  Keeps-match_option (some a) absent present ka kp = kp a

-- If two actions return, then so did the first one.
pub bind_returns {ℓ} :
    {S A B : Type ℓ} (first : Exec S A) (next : A → Exec S B) (s : S) (b : B)
    → ((first >>= next) s).0 ≡ ok b
    → (a : A) × ((first s).0 ≡ ok a) × ((first >>= next) s ≡ next a (first s).1)
unfolding ◌>>=◌
bind_returns first next s b done = elim (Result-cases (first s).0) [
  | inl (a, returned) ↦ (a, returned, rw returned refl)
  | inr (e, raised) ↦ absurd (ok_not_err (err e) b e (rw raised at done) refl)
]

-- An action that ends in a raise does not return.
pub bind-raise {ℓ} :
    {S A B : Type ℓ} (first : Exec S A) (e : Error) (s : S) (b : B)
    → ¬ (((first >>= λ x. raise e) s).0 ≡ ok b)
unfolding ◌>>=◌ raise
bind-raise first e s b done = elim (Result-cases (first s).0) [
  | inl (a, returned) ↦ absurd (ok_not_err (err e) b e (rw returned at done) refl)
  | inr (other, raised) ↦ absurd (ok_not_err (err other) b other (rw raised at done) refl)
]

pub ruleset keeps_rules = (
  Keeps-pure, Keeps-raise, Keeps-gets, Keeps-lift, Keeps-if, Keeps-catch, Keeps-modify, Keeps-bind,
  Keeps-match_option,
)
