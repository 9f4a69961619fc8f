-- ===== src/Github/Steps.antt =====
-- app/github_auth.py: sequences of requests. A callback that is under way holds a flow that it has set
-- to "exchanging", which no other request does.
use opsark_admin.Common.{
  ℕ, ◌≡◌, true, false, Option, none, some, String, inl, inr, arith, ◌==◌, Bool-cases, Option-cases,
}
use opsark_admin.Common.Table.{get}
use opsark_admin.Errors.{
  Error, Result, ok, api_error, integrity_error, value_error, unhandled_error, transport,
  cancelled_error,
}
use opsark_admin.Exec.{Exec, ◌>>=◌}
use opsark_admin.Exec.Keeps.{Keeps, keeps_rules, Keeps-modify, Keeps-transaction}
use opsark_admin.Models.{Db}
use opsark_admin.Registration.{Tokens}
use opsark_admin.Github.{
  exchanging, Mode, sign_in, link, GithubFlow, Hub, on_rows, write_flow, add_identity, identity_of,
  active_user, link_identity, NewUser, enrol_identity, sign_in_identity, resolve_as,
  resolve_identity, take_flow, exchange, on_exchange, end_callback, Completion, complete, owner_for,
  start,
}
use opsark_admin.Github.Once.{IsConsumed, is_over}
use opsark_admin.Github.Spent.{
  complete-Keeps, take_flow-Keeps, add_flow-Keeps, updated-IsConsumed, spent_refused,
  complete-IsConsumed,
}

pub data Step (hub : Hub) : Hub → Type 0 where
  started :
      (id state challenge : ℕ) (mode : Mode) (bearer : Option ℕ) (now : ℕ)
      → Step hub (start id state challenge mode bearer now hub).1
  taken : (state now : ℕ) → Step hub (take_flow state now hub).1
  ended :
      (id : ℕ) (flow : GithubFlow) (new : NewUser) (identity : Result (ℕ × String)) (now : ℕ)
      → get id hub.flows ≡ some flow
      → flow.status ≡ exchanging
      → Step hub (end_callback id new identity now hub).1
  completed :
      (id proof : ℕ) (bearer : Option ℕ) (fresh : Tokens) (now : ℕ)
      → Step hub (complete id proof bearer fresh now hub).1

pub data Steps (hub : Hub) : Hub → Type 0 where
  here : Steps hub hub
  next : {middle after : Hub} → Steps hub middle → Step middle after → Steps hub after

module _ (k : ℕ) where
  on_rows-Keeps : {A : Type 0} (m : Exec Db A) → Keeps (IsConsumed k) (on_rows m)
  unfolding on_rows
  on_rows-Keeps m = record { at = λ hub h. h }

  owner_for-Keeps :
      (mode : Mode) (bearer : Option ℕ) (now : ℕ) → Keeps (IsConsumed k) (owner_for mode bearer now)
  unfolding owner_for
  owner_for-Keeps link bearer now = search (keeps_rules, on_rows-Keeps)
  owner_for-Keeps sign_in bearer now = search keeps_rules

  start-Keeps :
      (id state challenge : ℕ) (mode : Mode) (bearer : Option ℕ) (now : ℕ)
      → Keeps (IsConsumed k) (start id state challenge mode bearer now)
  unfolding start
  start-Keeps id state challenge mode bearer now =
      search (keeps_rules, owner_for-Keeps, add_flow-Keeps k)

  add_identity-Keeps : (g u : ℕ) → Keeps (IsConsumed k) (add_identity g u)
  unfolding add_identity ◌>>=◌
  add_identity-Keeps g u = record {
    at = λ hub h. elim (Option-cases (get g hub.identities)) [
      | inl free ↦ elim (Option-cases (identity_of u hub.identities)) [
        | inl single ↦ rw (free, single) h
        | inr (owned, has) ↦ rw (free, has) h
      ]
      | inr (owner, there) ↦ rw there h
    ];
  }

  active_user-Keeps : (u : Option ℕ) → Keeps (IsConsumed k) (active_user u)
  unfolding active_user
  active_user-Keeps none = search keeps_rules
  active_user-Keeps (some u) = search keeps_rules

  link_identity-Keeps : (u : Option ℕ) (g : ℕ) → Keeps (IsConsumed k) (link_identity u g)
  unfolding link_identity
  link_identity-Keeps u g = search (keeps_rules, active_user-Keeps, add_identity-Keeps) depth 12

  enrol_identity-Keeps :
      (new : NewUser) (g : ℕ) (email : String) (now : ℕ)
      → Keeps (IsConsumed k) (enrol_identity new g email now)
  unfolding enrol_identity
  enrol_identity-Keeps new g email now =
      search (keeps_rules, on_rows-Keeps, add_identity-Keeps) depth 12

  sign_in_identity-Keeps :
      (new : NewUser) (g : ℕ) (email : String) (now : ℕ)
      → Keeps (IsConsumed k) (sign_in_identity new g email now)
  unfolding sign_in_identity
  sign_in_identity-Keeps new g email now =
      search (keeps_rules, enrol_identity-Keeps, active_user-Keeps) depth 8

  resolve_as-Keeps :
      (mode : Mode) (new : NewUser) (u : Option ℕ) (g : ℕ) (email : String) (now : ℕ)
      → Keeps (IsConsumed k) (resolve_as mode new u g email now)
  unfolding resolve_as
  resolve_as-Keeps link new u g email now = link_identity-Keeps u g
  resolve_as-Keeps sign_in new u g email now = sign_in_identity-Keeps new g email now

  module _ (id : ℕ) (other : (id == k) ≡ false) where
    write_flow-Keeps : (f : GithubFlow → GithubFlow) → Keeps (IsConsumed k) (write_flow id f)
    unfolding write_flow
    write_flow-Keeps f = Keeps-modify _ (λ hub h. updated-IsConsumed k id f hub.flows other h)

    exchange-Keeps :
        (flow : GithubFlow) (new : NewUser) (identity : Result (ℕ × String)) (now : ℕ)
        → Keeps (IsConsumed k) (exchange id flow new identity now)
    unfolding exchange resolve_identity
    exchange-Keeps flow new identity now =
        search (keeps_rules, resolve_as-Keeps, write_flow-Keeps) depth 8

    on_exchange-Keeps : (e : Error) → Keeps (IsConsumed k) (on_exchange id e)
    unfolding on_exchange
    on_exchange-Keeps (api_error status code) = search write_flow-Keeps
    on_exchange-Keeps integrity_error = search write_flow-Keeps
    on_exchange-Keeps value_error = search write_flow-Keeps
    on_exchange-Keeps unhandled_error = search write_flow-Keeps
    on_exchange-Keeps (transport failure) = search write_flow-Keeps
    on_exchange-Keeps cancelled_error = search keeps_rules

    end_callback-Keeps :
        (new : NewUser) (identity : Result (ℕ × String)) (now : ℕ)
        → Keeps (IsConsumed k) (end_callback id new identity now)
    unfolding end_callback
    end_callback-Keeps new identity now =
        search (keeps_rules, Keeps-transaction, exchange-Keeps, on_exchange-Keeps) depth 8

  ended-IsConsumed :
      (hub : Hub) (id : ℕ) (flow : GithubFlow) (new : NewUser) (identity : Result (ℕ × String))
      (now : ℕ)
      → get id hub.flows ≡ some flow
      → flow.status ≡ exchanging
      → IsConsumed k hub
      → IsConsumed k (end_callback id new identity now hub).1
  ended-IsConsumed hub id flow new identity now there held h = elim (Bool-cases (id == k)) [
    | inl own ↦
        let e : id ≡ k = ground (arith, own) in absurd (ground (arith, held, rw (← e, there) at h))
    | inr other ↦ (end_callback-Keeps id other new identity now).at hub h
  ]

  Step-IsConsumed : {hub after : Hub} → Step hub after → IsConsumed k hub → IsConsumed k after
  Step-IsConsumed {hub} (started id state challenge mode bearer now) h =
      (start-Keeps id state challenge mode bearer now).at hub h
  Step-IsConsumed {hub} (taken state now) h = (take_flow-Keeps k state now).at hub h
  Step-IsConsumed {hub} (ended id flow new identity now there held) h =
      ended-IsConsumed hub id flow new identity now there held h
  Step-IsConsumed {hub} (completed id proof bearer fresh now) h =
      complete-Keeps k id proof bearer fresh now hub h

  Steps-IsConsumed : {hub after : Hub} → Steps hub after → IsConsumed k hub → IsConsumed k after
  Steps-IsConsumed here h = h
  Steps-IsConsumed (next steps step) h = Step-IsConsumed step (Steps-IsConsumed steps h)

-- A flow is completed at most once: after a sign-in or a link that went through, and whatever
-- requests follow, in whatever order, no later completion with the same flow returns, whoever makes
-- it and whatever proof it carries.
pub complete-complete :
    (id proof : ℕ) (bearer : Option ℕ) (fresh : Tokens) (now : ℕ) (hub : Hub) (c : Completion)
    → is_over c ≡ true
    → (complete id proof bearer fresh now hub).0 ≡ ok c
    → (later : Hub) → Steps (complete id proof bearer fresh now hub).1 later
    → (proof' : ℕ) (bearer' : Option ℕ) (fresh' : Tokens) (now' : ℕ) (again : Completion)
    → ¬ ((complete id proof' bearer' fresh' now' later).0 ≡ ok again)
complete-complete id proof bearer fresh now hub c over done later steps proof' bearer' fresh' now'
      again =
    spent_refused id proof' bearer' fresh' now' later again
      (Steps-IsConsumed id steps (complete-IsConsumed id proof bearer fresh now hub c over done))
