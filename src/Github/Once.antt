-- ===== src/Github/Once.antt =====
-- app/github_auth.py: a flow is completed at most once.
use opsark_admin.Common.{
  ℕ, ◌≡◌, refl, Bool, true, false, Option, none, some, ◌⊎◌, inl, inr, arith, ◌==◌, Bool-cases, ◌∙◌,
  ap, not, ◌||◌, leb,
}
use opsark_admin.Common.Table.{Table, get, update}
use opsark_admin.Errors.{oauth_flow_consumed, ok, err, api_error}
use opsark_admin.Exec.{Exec, ◌>>=◌}
use opsark_admin.Exec.Keeps.{Keeps, keeps_rules, ok_not_err, bind_returns}
use opsark_admin.Models.{Db}
use opsark_admin.Registration.{Tokens}
use opsark_admin.Github.{
  consumed, Mode, sign_in, link, GithubFlow, Hub, on_rows, write_flow, is_authorized, is_waiting,
  is_failed, set_status, Completion, still_pending, finish_flow, spend, consume, complete_flow,
  active_user,
}

abbrev pub is_consumed : Option GithubFlow → Bool
is_consumed none = false
is_consumed (some flow) = elim flow.status [ consumed ↦ true | _ ↦ false ]

-- The flow is used up.
abbrev pub IsConsumed : ℕ → Hub → Type 0
IsConsumed id hub = is_consumed (get id hub.flows) ≡ true

module _ {flows : Table GithubFlow} where
  pub on_rows-Keeps : {A : Type 0} (m : Exec Db A) → Keeps (λ hub. hub.flows ≡ flows) (on_rows m)
  unfolding on_rows
  on_rows-Keeps m = record { at = λ hub h. h }

  active_user-Keeps : (u : Option ℕ) → Keeps (λ hub. hub.flows ≡ flows) (active_user u)
  unfolding active_user
  active_user-Keeps none = search keeps_rules
  active_user-Keeps (some u) = search keeps_rules

  finish_flow-Keeps :
      (mode : Mode) (u : ℕ) (bearer : Option ℕ) (fresh : Tokens) (now : ℕ)
      → Keeps (λ hub. hub.flows ≡ flows) (finish_flow mode u bearer fresh now)
  unfolding finish_flow
  finish_flow-Keeps link u bearer fresh now = search (keeps_rules, on_rows-Keeps)
  finish_flow-Keeps sign_in u bearer fresh now = search (keeps_rules, on_rows-Keeps)

-- A completion that goes beyond waiting.
abbrev pub is_over : Completion → Bool
is_over still_pending = false
is_over _ = true

module _ (id : ℕ) (flow : GithubFlow) (bearer : Option ℕ) (fresh : Tokens) (now : ℕ) where
  spend_ok :
      (u : ℕ) (hub : Hub) (c : Completion)
      → (spend id flow bearer fresh now u hub).0 ≡ ok c
      → (is_authorized flow.status ≡ true)
        × ((spend id flow bearer fresh now u hub).1.flows
            ≡ update id (set_status consumed) hub.flows)
  unfolding spend write_flow ◌>>=◌
  spend_ok u hub c done = elim (Bool-cases (is_authorized flow.status)) [
    | inl good ↦ (good, rw good ((finish_flow-Keeps flow.mode u bearer fresh now).at _ refl))
    | inr bad ↦
        absurd (ok_not_err (err (api_error 409 oauth_flow_consumed)) c _ (rw bad at done) refl)
  ]

  pub consume_ok :
      (hub : Hub) (c : Completion)
      → (consume id flow bearer fresh now hub).0 ≡ ok c
      → (is_authorized flow.status ≡ true)
        × ((consume id flow bearer fresh now hub).1.flows
            ≡ update id (set_status consumed) hub.flows)
  unfolding consume
  consume_ok hub c done =
      let (u, active, rest) =
        bind_returns (active_user flow.user_id) (spend id flow bearer fresh now) hub c done in
      let same = (active_user-Keeps {flows = hub.flows} flow.user_id).at hub refl in
      let (good, moved) = spend_ok u (active_user flow.user_id hub).1 c (rw rest at done) in
      (good, rw rest (moved ∙ ap (update id (set_status consumed)) same))

  -- A completion that returns has found the flow waiting, or has used it up.
  pub complete_flow_ok :
      (proof : ℕ) (hub : Hub) (c : Completion)
      → (complete_flow id flow proof bearer fresh now hub).0 ≡ ok c
      → ((is_waiting flow.status ≡ true)
          × (is_over c ≡ false)
          × ((complete_flow id flow proof bearer fresh now hub).1.flows ≡ hub.flows))
        ⊎ ((is_authorized flow.status ≡ true)
            × ((complete_flow id flow proof bearer fresh now hub).1.flows
                ≡ update id (set_status consumed) hub.flows))
  unfolding complete_flow
  complete_flow_ok proof hub c done =
      elim (Bool-cases (not (flow.native_challenge == proof) || leb flow.expires_at now)) [
        | inl bad ↦ absurd (unfold ◌>>=◌ in ground (arith, rw bad at done))
        | inr proven ↦ elim (Bool-cases (is_waiting flow.status)) [
          | inl waits ↦ inl (
            waits,
            unfold ◌>>=◌ in ground (arith, rw (proven, waits) at done),
            unfold ◌>>=◌ in rw (proven, waits) refl,
          )
          | inr ready ↦ elim (Bool-cases (is_failed flow.status)) [
            | inl failed ↦
                absurd (unfold ◌>>=◌ in ground (arith, rw (proven, ready, failed) at done))
            | inr fine ↦
                inr (rw (proven, ready, fine) (consume_ok hub c (rw (proven, ready, fine) at done)))
          ]
        ]
      ]
