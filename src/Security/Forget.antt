-- ===== src/Security/Forget.antt =====
-- app/security.py, `Limiter`: the queues by their keys, before and after idle ones are dropped.
use opsark_admin.Common.{
  ℕ, ◌≡◌, refl, Bool, false, none, some, List, [], ◌∷◌, ltb, if◌then◌else◌, length, filter, arith,
  Bool-cases, Option-cases, inl, inr, ◌==◌, ◌⊎◌,
}
use opsark_admin.Common.Table.{
  Table, get, IsKeyed, get-update, get-insert, update-IsKeyed, insert-IsKeyed,
}
use opsark_admin.Security.{is_recent, forget, events_of, set_events}

get-filter :
    (p : List ℕ → Bool) (k : ℕ) (t : Table (List ℕ))
    → IsKeyed t
    → get k (filter (λ (key, v). p v) t)
      ≡ elim (get k t) [ none ↦ none | some v ↦ if p v then some v else none ]
get-filter p k [] h = refl
get-filter p k ((j, v) ∷ t) h = elim (Bool-cases (k == j)) [
  | inl here ↦
      let e : k ≡ j = ground (arith, here) in
      elim (Bool-cases (p v)) [
        | inl passes ↦ rw (passes, here, passes) refl
        | inr fails ↦
            let gone : get k t ≡ none = rw e h.0 in
            rw (fails, here, fails, get-filter p k t h.1, gone) refl
      ]
  | inr there ↦ elim (Bool-cases (p v)) [
    | inl passes ↦ rw (passes, there, get-filter p k t h.1) refl
    | inr fails ↦ rw (fails, there, get-filter p k t h.1) refl
  ]
]

filter-IsKeyed :
    (p : List ℕ → Bool) (t : Table (List ℕ)) → IsKeyed t → IsKeyed (filter (λ (key, v). p v) t)
filter-IsKeyed p [] h = tt
filter-IsKeyed p ((j, v) ∷ t) h = elim (Bool-cases (p v)) [
  | inl passes ↦ rw passes (rw (get-filter p j t h.1, h.0) refl, filter-IsKeyed p t h.1)
  | inr fails ↦ rw fails (filter-IsKeyed p t h.1)
]

pub set_events-IsKeyed :
    (key : ℕ) (events : List ℕ) (t : Table (List ℕ)) → IsKeyed t → IsKeyed (set_events key events t)
set_events-IsKeyed key events t h = elim (Option-cases (get key t)) [
  | inl missing ↦ rw (set_events, missing) (insert-IsKeyed key events t missing h)
  | inr (old, found) ↦ rw (set_events, found) (update-IsKeyed key (λ _. events) t h)
]

pub events_of-set_events :
    (key j : ℕ) (events : List ℕ) (t : Table (List ℕ))
    → events_of j (set_events key events t) ≡ (if key == j then events else events_of j t)
events_of-set_events key j events t = elim (Option-cases (get key t)) [
  | inl missing ↦
      rw (set_events, missing, events_of, get-insert key j events t missing) (ground arith)
  | inr (old, found) ↦
      rw (set_events, found, events_of, get-update key j (λ _. events) t) (ground (arith, found))
]

pub forget-IsKeyed : (now : ℕ) (t : Table (List ℕ)) → IsKeyed t → IsKeyed (forget now t)
unfolding forget
forget-IsKeyed now t h = elim (Bool-cases (ltb 10000 (length t))) [
  | inl many ↦ rw many (filter-IsKeyed (is_recent now) t h)
  | inr few ↦ rw few h
]

-- A queue stays, or it is dropped for not being recent.
pub forget_cases :
    (now k : ℕ) (t : Table (List ℕ))
    → IsKeyed t
    → (events_of k (forget now t) ≡ events_of k t)
      ⊎ ((events_of k (forget now t) ≡ []) × (is_recent now (events_of k t) ≡ false))
unfolding forget
forget_cases now k t h = elim (Bool-cases (ltb 10000 (length t))) [
  | inr few ↦ rw few (inl refl)
  | inl many ↦ elim (Option-cases (get k t)) [
    | inl missing ↦ rw (many, events_of, get-filter (is_recent now) k t h, missing) (inl refl)
    | inr (v, found) ↦ elim (Bool-cases (is_recent now v)) [
      | inl passes ↦
          rw (many, events_of, get-filter (is_recent now) k t h, found, passes) (inl refl)
      | inr fails ↦
          rw (many, events_of, get-filter (is_recent now) k t h, found, fails) (inr (refl, refl))
    ]
  ]
]
