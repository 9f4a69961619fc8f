-- ===== src/Github/Spent.antt =====
-- app/github_auth.py: a flow that was completed stays used up, whatever requests follow.
use opsark_admin.Common.{
  ℕ, ◌≡◌, refl, true, false, Option, some, ◌⊎◌, inl, inr, arith, ◌==◌, Bool-cases, Option-cases,
}
use opsark_admin.Common.Table.{Table, get, update, get-update, get-update_self, get-insert}
use opsark_admin.Errors.{Error, ok, err}
use opsark_admin.Exec.{◌>>=◌}
use opsark_admin.Exec.Keeps.{Keeps, keeps_rules, Result-cases, transaction_done, transaction_raises}
use opsark_admin.Registration.{Tokens}
use opsark_admin.Github.{
  consumed, GithubFlow, Hub, write_flow, is_pending, is_waiting, is_authorized, set_status,
  claim_flow, take_flow, Completion, complete_found, complete, add_flow, find_flow,
}
use opsark_admin.Github.Once.{is_consumed, IsConsumed, is_over, complete_flow_ok}

-- What a completion that returns has done.
abbrev Done : ℕ → Hub → Hub → Completion → Type 0
Done id hub after c =
    (flow : GithubFlow) × (get id hub.flows ≡ some flow)
    × (((is_waiting flow.status ≡ true) × (is_over c ≡ false) × (after.flows ≡ hub.flows))
        ⊎ ((is_authorized flow.status ≡ true)
            × (after.flows ≡ update id (set_status consumed) hub.flows)))

module _ (id proof : ℕ) (bearer : Option ℕ) (fresh : Tokens) (now : ℕ) (hub : Hub) where
  complete_found_ok :
      (c : Completion)
      → (complete_found id proof bearer fresh now hub).0 ≡ ok c
      → Done id hub (complete_found id proof bearer fresh now hub).1 c
  unfolding complete_found ◌>>=◌
  complete_found_ok c done = elim (Option-cases (get id hub.flows)) [
    | inl missing ↦ absurd (ground (arith, rw missing at done))
    | inr (flow, there) ↦ (
      flow,
      there,
      rw there (complete_flow_ok id flow bearer fresh now proof hub c (rw there at done)),
    )
  ]

  complete_ok :
      (c : Completion)
      → (complete id proof bearer fresh now hub).0 ≡ ok c
      → Done id hub (complete id proof bearer fresh now hub).1 c
  unfolding complete
  complete_ok c done =
      let (found, kept) = transaction_done (complete_found id proof bearer fresh now) hub c done in
      rw kept (complete_found_ok c found)

  -- A sign-in or a link that goes through uses the flow up.
  pub complete-IsConsumed :
      (c : Completion)
      → is_over c ≡ true
      → (complete id proof bearer fresh now hub).0 ≡ ok c
      → IsConsumed id (complete id proof bearer fresh now hub).1
  unfolding set_status
  complete-IsConsumed c over done =
      let (flow, there, how) = complete_ok c done in
      elim how [
        | inl (waits, open_yet, same) ↦ absurd (ground arith)
        | inr (good, moved) ↦ rw (moved, get-update_self, there) refl
      ]

  -- A flow that is used up is refused.
  pub spent_refused :
      (c : Completion) → IsConsumed id hub → ¬ ((complete id proof bearer fresh now hub).0 ≡ ok c)
  spent_refused c spent done =
      let (flow, there, how) = complete_ok c done in
      let used : is_consumed (some flow) ≡ true = rw there at spent in
      elim how [
        | inl (waits, open_yet, same) ↦ absurd (ground arith)
        | inr (good, moved) ↦ absurd (ground arith)
      ]

  refused_same :
      (e : Error)
      → (complete id proof bearer fresh now hub).0 ≡ err e
      → (complete id proof bearer fresh now hub).1 ≡ hub
  unfolding complete
  refused_same e refused =
      transaction_raises (complete_found id proof bearer fresh now) hub e refused

module _ (k : ℕ) where
  pub updated-IsConsumed :
      (id : ℕ) (f : GithubFlow → GithubFlow) (flows : Table GithubFlow)
      → (id == k) ≡ false
      → is_consumed (get k flows) ≡ true
      → is_consumed (get k (update id f flows)) ≡ true
  updated-IsConsumed id f flows other h = rw (get-update, other) h

  pub complete-Keeps :
      (id proof : ℕ) (bearer : Option ℕ) (fresh : Tokens) (now : ℕ) (hub : Hub)
      → IsConsumed k hub
      → IsConsumed k (complete id proof bearer fresh now hub).1
  complete-Keeps id proof bearer fresh now hub h =
      elim (Result-cases (complete id proof bearer fresh now hub).0) [
        | inr (e, refused) ↦ rw (refused_same id proof bearer fresh now hub e refused) h
        | inl (c, done) ↦
            let (flow, there, how) = complete_ok id proof bearer fresh now hub c done in
            elim how [
              | inl (waits, open_yet, same) ↦ rw same h
              | inr (good, moved) ↦ elim (Bool-cases (id == k)) [
                | inl own ↦
                    let e : id ≡ k = ground (arith, own) in
                    absurd (spent_refused id proof bearer fresh now hub c (rw e h) done)
                | inr other ↦ rw moved (updated-IsConsumed id _ hub.flows other h)
              ]
            ]
      ]

  claim_flow-Keeps : (id : ℕ) → Keeps (IsConsumed k) (claim_flow id)
  unfolding claim_flow write_flow set_status ◌>>=◌
  claim_flow-Keeps id = record {
    at = λ hub h. elim (Option-cases (get id hub.flows)) [
      | inl missing ↦ rw missing h
      | inr (flow, there) ↦ elim (Bool-cases (is_pending flow.status)) [
        | inl fresh ↦ elim (Bool-cases (id == k)) [
          | inl own ↦
              let e : id ≡ k = ground (arith, own) in absurd (ground (arith, rw (← e, there) at h))
          | inr other ↦ rw (there, fresh) (updated-IsConsumed id _ hub.flows other h)
        ]
        | inr used ↦ rw (there, used) h
      ]
    ];
  }

  pub take_flow-Keeps : (state now : ℕ) → Keeps (IsConsumed k) (take_flow state now)
  unfolding take_flow
  take_flow-Keeps state now = search (keeps_rules, claim_flow-Keeps)

  pub add_flow-Keeps : (id : ℕ) (flow : GithubFlow) → Keeps (IsConsumed k) (add_flow id flow)
  unfolding add_flow ◌>>=◌
  add_flow-Keeps id flow = record {
    at = λ hub h. elim (Option-cases (get id hub.flows)) [
      | inr (old, taken) ↦ rw taken h
      | inl free ↦ elim (Bool-cases (id == k)) [
        | inl own ↦
            let e : id ≡ k = ground (arith, own) in absurd (ground (arith, rw (← e, free) at h))
        | inr other ↦ elim (Option-cases (find_flow flow.state_hash hub.flows)) [
          | inl single ↦ rw (free, single, get-insert id k flow hub.flows free, other) h
          | inr (old, there) ↦ rw (free, there) h
        ]
      ]
    ];
  }
