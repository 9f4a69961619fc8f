-- ===== src/Security/Queue.antt =====
-- app/security.py, `Limiter`: the queue of one key.
use opsark_admin.Common.{
  ℕ, ◌≡◌, refl, false, none, some, List, [], ◌∷◌, ◌++◌, ◌+◌, ◌≤◌, leb, ltb, if◌then◌else◌, length,
  arith, Bool-cases, Option-cases, ◌≢◌, inl, inr, suc,
}
use opsark_admin.Security.{last, is_recent, drop_expired}

-- How many of the events lie in the window that ends at `t`.
abbrev pub recent : ℕ → ℕ → List ℕ → ℕ
recent window t [] = 0
recent window t (e ∷ events) =
    if ltb t (e + window) then suc (recent window t events) else recent window t events

-- The events are in order, and none is later than `now`.
abbrev pub IsTimed : ℕ → List ℕ → Type 0
IsTimed now [] = Unit
IsTimed now (e ∷ []) = e ≤ now
IsTimed now (e ∷ d ∷ events) = (e ≤ d) × IsTimed now (d ∷ events)

pub recent-append :
    (window t : ℕ) (xs ys : List ℕ)
    → recent window t (xs ++ ys) ≡ recent window t xs + recent window t ys
recent-append window t [] ys = omega arith
recent-append window t (x ∷ xs) ys = ground (arith, recent-append window t xs ys)

pub recent_le_length : (window t : ℕ) (xs : List ℕ) → recent window t xs ≤ length xs
recent_le_length window t [] = omega arith
recent_le_length window t (x ∷ xs) = ground (arith, recent_le_length window t xs)

pub recent_mono :
    (window t t' : ℕ) (xs : List ℕ) → t ≤ t' → recent window t' xs ≤ recent window t xs
recent_mono window t t' [] h = omega arith
recent_mono window t t' (x ∷ xs) h = ground (arith, recent_mono window t t' xs h)

pub recent-drop_expired :
    (window now t : ℕ) (xs : List ℕ)
    → now ≤ t
    → recent window t (drop_expired now window xs) ≡ recent window t xs
recent-drop_expired window now t [] h = refl
recent-drop_expired window now t (x ∷ xs) h = ground (arith, recent-drop_expired window now t xs h)

pub IsTimed-mono : (now now' : ℕ) (xs : List ℕ) → now ≤ now' → IsTimed now xs → IsTimed now' xs
IsTimed-mono now now' [] h p = tt
IsTimed-mono now now' (x ∷ []) h p = omega (arith, p)
IsTimed-mono now now' (x ∷ y ∷ xs) h p = (p.0, IsTimed-mono now now' (y ∷ xs) h p.1)

IsTimed-tail : (now x : ℕ) (xs : List ℕ) → IsTimed now (x ∷ xs) → IsTimed now xs
IsTimed-tail now x [] p = tt
IsTimed-tail now x (y ∷ xs) p = p.1

pub drop_expired-IsTimed :
    (now at window : ℕ) (xs : List ℕ) → IsTimed now xs → IsTimed now (drop_expired at window xs)
drop_expired-IsTimed now at window [] p = tt
drop_expired-IsTimed now at window (x ∷ xs) p = elim (Bool-cases (leb (x + window) at)) [
  | inl gone ↦ rw gone (drop_expired-IsTimed now at window xs (IsTimed-tail now x xs p))
  | inr kept ↦ rw kept p
]

pub append-IsTimed : (now : ℕ) (xs : List ℕ) → IsTimed now xs → IsTimed now (xs ++ now ∷ [])
append-IsTimed now [] p = omega arith
append-IsTimed now (x ∷ []) p = (p, omega arith)
append-IsTimed now (x ∷ y ∷ xs) p = (p.0, append-IsTimed now (y ∷ xs) p.1)

first_le_last : (now x d : ℕ) (xs : List ℕ) → IsTimed now (x ∷ xs) → last (x ∷ xs) ≡ some d → x ≤ d
first_le_last now x d [] p e = ground arith
first_le_last now x d (y ∷ xs) p e =
    let rest = first_le_last now y d xs p.1 e in omega (arith, p.0, rest)

-- Where the last event left a window, every event did.
pub recent_zero :
    (now window t d : ℕ) (xs : List ℕ)
    → IsTimed now xs
    → last xs ≡ some d
    → d + window ≤ t
    → recent window t xs ≡ 0
recent_zero now window t d [] p e h = refl
recent_zero now window t d (x ∷ []) p e h = ground arith
recent_zero now window t d (x ∷ y ∷ xs) p e h =
    let le = first_le_last now x d (y ∷ xs) p e in
    ground (arith, le, recent_zero now window t d (y ∷ xs) p.1 e h)

last_ne_none : (x : ℕ) (xs : List ℕ) → last (x ∷ xs) ≢ none
last_ne_none x [] e = cc e
last_ne_none x (y ∷ xs) e = last_ne_none y xs e

-- A queue that is not recent any more has no event in a window of up to an hour.
pub forgotten :
    (now window t at : ℕ) (xs : List ℕ)
    → IsTimed now xs
    → window ≤ 3600000
    → at ≤ t
    → is_recent at xs ≡ false
    → recent window t xs ≡ 0
forgotten now window t at [] p w h e = refl
forgotten now window t at (x ∷ xs) p w h e = elim (Option-cases (last (x ∷ xs))) [
  | inl missing ↦ absurd (last_ne_none x xs missing)
  | inr (d, found) ↦
      recent_zero now window t d (x ∷ xs) p found (ground (arith, rw (is_recent, found) at e))
]
