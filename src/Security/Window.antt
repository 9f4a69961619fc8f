-- ===== src/Security/Window.antt =====
-- app/security.py, `Limiter`: any sequence of requests against the sliding window.
use opsark_admin.Common.{
  ℕ, ◌≡◌, refl, true, false, List, [], ◌∷◌, ◌++◌, ◌≤◌, leb, if◌then◌else◌, length, arith,
  Bool-cases, inl, inr, ◌==◌, ◌⊎◌,
}
use opsark_admin.Common.Table.{Table, IsKeyed}
use opsark_admin.Errors.{ok, err}
use opsark_admin.Exec.{◌>>=◌}
use opsark_admin.Security.{forget, events_of, set_events, drop_expired, check}
use opsark_admin.Security.Forget.{
  set_events-IsKeyed, events_of-set_events, forget-IsKeyed, forget_cases,
}
use opsark_admin.Security.Queue.{
  recent, IsTimed, recent-append, recent_le_length, recent-drop_expired, IsTimed-mono,
  drop_expired-IsTimed, append-IsTimed, forgotten,
}

-- A run of the limiter: its queues, and every request that it let pass, with its key and time.
pub record Served : Type 0 where
  pub entries : Table (List ℕ)
  pub accepted : List (ℕ × ℕ)

abbrev pub times : ℕ → List (ℕ × ℕ) → List ℕ
times key [] = []
times key ((j, now) ∷ log) = if key == j then now ∷ times key log else times key log

times-append :
    (key j now : ℕ) (log : List (ℕ × ℕ))
    → times key (log ++ (j, now) ∷ [])
      ≡ (if key == j then times key log ++ now ∷ [] else times key log)
times-append key j now [] = ground arith
times-append key j now ((i, e) ∷ log) = ground (arith, times-append key j now log)

module _ (limit window : ℕ → ℕ) where
  unfoldable pub serve : ℕ × ℕ → Served → Served
  serve (key, now) st =
      let (result, entries) = check key (limit key) (window key) now st.entries in
      record {
        entries = entries;
        accepted = elim result [ ok a ↦ st.accepted ++ (key, now) ∷ [] | err e ↦ st.accepted ];
      }

  unfoldable pub serve_all : List (ℕ × ℕ) → Served → Served
  serve_all [] st = st
  serve_all (request ∷ requests) st = serve_all requests (serve request st)

-- The requests come in order of time, the first not before `start` and the last not after `now`.
abbrev pub IsOrdered : ℕ → List (ℕ × ℕ) → ℕ → Type 0
IsOrdered start [] now = start ≤ now
IsOrdered start ((key, at) ∷ requests) now = (start ≤ at) × IsOrdered at requests now

record Inv (limit window : ℕ → ℕ) (now : ℕ) (st : Served) : Type 0 where
  pub keyed : IsKeyed st.entries
  pub timed : (k : ℕ) → IsTimed now (events_of k st.entries)
  pub covers :
      (k t : ℕ)
      → now ≤ t
      → recent (window k) t (times k st.accepted) ≤ recent (window k) t (events_of k st.entries)
  pub bounded : (k t : ℕ) → now ≤ t → recent (window k) t (times k st.accepted) ≤ limit k

module _ (limit window : ℕ → ℕ) (hour : (k : ℕ) → window k ≤ 3600000) (key at now : ℕ) (st : Served)
    (h : Inv limit window now st) (later : now ≤ at) where
  abbrev base : Table (List ℕ)
  base = forget at st.entries

  base-IsKeyed : IsKeyed base
  base-IsKeyed = forget-IsKeyed at st.entries h.keyed

  base-IsTimed : (k : ℕ) → IsTimed at (events_of k base)
  base-IsTimed k = elim (forget_cases at k st.entries h.keyed) [
    | inl same ↦ rw same (IsTimed-mono now at (events_of k st.entries) later (h.timed k))
    | inr (gone, old) ↦ rw gone tt
  ]

  base_covers :
      (k t : ℕ)
      → at ≤ t
      → recent (window k) t (times k st.accepted) ≤ recent (window k) t (events_of k base)
  base_covers k t le = elim (forget_cases at k st.entries h.keyed) [
    | inl same ↦ rw same (h.covers k t (omega (arith, later, le)))
    | inr (gone, old) ↦ rw gone (
        omega (
          arith,
          h.covers k t (omega (arith, later, le)),
          forgotten now (window k) t at (events_of k st.entries) (h.timed k) (hour k) le old,
        ))
  ]

  abbrev pruned : List ℕ
  pruned = drop_expired at (window key) (events_of key base)

  pruned-IsTimed : IsTimed at pruned
  pruned-IsTimed = drop_expired-IsTimed at at (window key) (events_of key base) (base-IsTimed key)

  pruned_covers :
      (t : ℕ)
      → at ≤ t
      → recent (window key) t (times key st.accepted) ≤ recent (window key) t pruned
  pruned_covers t le =
      rw (recent-drop_expired (window key) at t (events_of key base) le) (base_covers key t le)

  abbrev when_refused : Served
  when_refused = record { entries = set_events key pruned base; accepted = st.accepted }

  abbrev when_accepted : Served
  when_accepted = record {
    entries = set_events key (pruned ++ at ∷ []) (set_events key pruned base);
    accepted = st.accepted ++ (key, at) ∷ [];
  }

  serve_cases :
      (serve limit window (key, at) st ≡ when_refused)
      ⊎ ((leb (limit key) (length pruned) ≡ false)
          × (serve limit window (key, at) st ≡ when_accepted))
  unfolding serve check ◌>>=◌
  serve_cases = elim (Bool-cases (leb (limit key) (length pruned))) [
    | inl full ↦ rw full (inl refl)
    | inr room ↦ rw room (inr (refl, refl))
  ]

  when_refused-Inv : Inv limit window at when_refused
  when_refused-Inv = record {
    keyed = set_events-IsKeyed key pruned base base-IsKeyed;
    timed = λ k. elim (Bool-cases (key == k)) [
      | inl mine ↦ rw (events_of-set_events key k pruned base, mine) pruned-IsTimed
      | inr other ↦ rw (events_of-set_events key k pruned base, other) (base-IsTimed k)
    ];
    covers = λ k t le. elim (Bool-cases (key == k)) [
      | inl mine ↦
          let e : k ≡ key = ground (arith, mine) in
          rw (events_of-set_events key k pruned base, mine, e) (pruned_covers t le)
      | inr other ↦ rw (events_of-set_events key k pruned base, other) (base_covers k t le)
    ];
    bounded = λ k t le. h.bounded k t (omega (arith, later, le));
  }

  accepted_covers :
      (t : ℕ)
      → at ≤ t
      → recent (window key) t (times key st.accepted ++ at ∷ [])
        ≤ recent (window key) t (pruned ++ at ∷ [])
  accepted_covers t le =
      rw
        (
          recent-append (window key) t (times key st.accepted) (at ∷ []),
          recent-append (window key) t pruned (at ∷ []),
        )
        (omega (arith, pruned_covers t le))

  accepted_bounded :
      (t : ℕ)
      → at ≤ t
      → leb (limit key) (length pruned) ≡ false
      → recent (window key) t (times key st.accepted ++ at ∷ []) ≤ limit key
  accepted_bounded t le room =
      let a = accepted_covers t le in
      let b = recent_le_length (window key) t pruned in
      let c = recent-append (window key) t pruned (at ∷ []) in ground (arith, a, b, c, room)

  twice :
      (k : ℕ)
      → events_of k when_accepted.entries
        ≡ (if key == k then pruned ++ at ∷ [] else events_of k base)
  twice k = elim (Bool-cases (key == k)) [
    | inl mine ↦
        rw (events_of-set_events key k (pruned ++ at ∷ []) (set_events key pruned base), mine) refl
    | inr other ↦
        rw
          (
            events_of-set_events key k (pruned ++ at ∷ []) (set_events key pruned base),
            other,
            events_of-set_events key k pruned base,
            other,
          )
          refl
  ]

  same_key : (k : ℕ) → k ≡ key → (k == key) ≡ true
  same_key k e = ground (arith, e)

  when_accepted-Inv : leb (limit key) (length pruned) ≡ false → Inv limit window at when_accepted
  when_accepted-Inv room = record {
    keyed =
        set_events-IsKeyed key (pruned ++ at ∷ []) (set_events key pruned base)
          (set_events-IsKeyed key pruned base base-IsKeyed);
    timed = λ k. elim (Bool-cases (key == k)) [
      | inl mine ↦ rw (twice k, mine) (append-IsTimed at pruned pruned-IsTimed)
      | inr other ↦ rw (twice k, other) (base-IsTimed k)
    ];
    covers = λ k t le. elim (Bool-cases (key == k)) [
      | inl mine ↦
          let e : k ≡ key = ground (arith, mine) in
          rw (twice k, mine, times-append k key at st.accepted, same_key k e, e)
            (accepted_covers t le)
      | inr other ↦
          let apart : (k == key) ≡ false = ground (arith, other) in
          rw (twice k, other, times-append k key at st.accepted, apart) (base_covers k t le)
    ];
    bounded = λ k t le. elim (Bool-cases (key == k)) [
      | inl mine ↦
          let e : k ≡ key = ground (arith, mine) in
          rw (times-append k key at st.accepted, same_key k e, e) (accepted_bounded t le room)
      | inr other ↦
          let apart : (k == key) ≡ false = ground (arith, other) in
          rw (times-append k key at st.accepted, apart) (h.bounded k t (omega (arith, later, le)))
    ];
  }

  serve-Inv : Inv limit window at (serve limit window (key, at) st)
  serve-Inv = elim serve_cases [
    | inl refused ↦ rw refused when_refused-Inv
    | inr (room, accepted) ↦ rw accepted (when_accepted-Inv room)
  ]

start-Inv : (limit window : ℕ → ℕ) → Inv limit window 0 (record { entries = []; accepted = [] })
start-Inv limit window = record {
  keyed = tt;
  timed = λ k. tt;
  covers = λ k t le. omega arith;
  bounded = λ k t le. omega arith;
}

module _ (limit window : ℕ → ℕ) (hour : (k : ℕ) → window k ≤ 3600000) where
  serve_all-Inv :
      (requests : List (ℕ × ℕ)) (start now : ℕ) (st : Served)
      → Inv limit window start st
      → IsOrdered start requests now
      → Inv limit window now (serve_all limit window requests st)
  unfolding serve_all
  serve_all-Inv [] start now st h order = record {
    keyed = h.keyed;
    timed = λ k. IsTimed-mono start now (events_of k st.entries) order (h.timed k);
    covers = λ k t le. h.covers k t (omega (arith, order, le));
    bounded = λ k t le. h.bounded k t (omega (arith, order, le));
  }
  serve_all-Inv ((key, at) ∷ requests) start now st h order =
      serve_all-Inv requests at now (serve limit window (key, at) st)
        (serve-Inv limit window hour key at start st h order.0) order.1

  -- Where the windows are an hour at most, and whatever requests for whatever keys have come in the
  -- order of time, the limiter that began empty has let pass for each key no more requests of the
  -- window that ends now than the key's limit, although it forgets idle keys.
  pub serve_all_bounded :
      (requests : List (ℕ × ℕ)) (now : ℕ)
      → IsOrdered 0 requests now
      → (k : ℕ)
      → recent (window k) now (
          times k
            (serve_all limit window requests (record { entries = []; accepted = [] })).accepted)
        ≤ limit k
  serve_all_bounded requests now order k =
      (serve_all-Inv requests 0 now _ (start-Inv limit window) order).bounded k now (omega arith)
