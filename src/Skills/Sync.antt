-- ===== src/Skills/Sync.antt =====
-- app/skill_sync.py, `mutate`: a mutation takes effect once, and no update is lost.
use opsark_admin.Common.{
  ℕ, ◌≡◌, ◌≢◌, refl, true, false, ◌&&◌, Option, none, some, leb, ◌==◌, ◌+◌, length, arith,
  Bool-cases, Option-cases, inl, inr, ◌⊎◌,
}
use opsark_admin.Common.Table.{get, get-insert, get-update_self}
use opsark_admin.Errors.{Error, api_error, ok, err, skill_revision_conflict}
use opsark_admin.Exec.{◌>>=◌}
use opsark_admin.Skills.{
  CloudMutation, UserCloud, is_missing, revision_of, new_values, result_of, put_skill,
  after_mutation, apply_mutation, mutate,
}

module _ (digest : ℕ → ℕ → Option ℕ → ℕ) (skill_id base mutation_id : ℕ) (payload : Option ℕ)
    (now : ℕ) (cloud : UserCloud) where
  replayed :
      (p : CloudMutation)
      → get mutation_id cloud.mutations ≡ some p
      → (p.request_hash == digest skill_id base payload) ≡ true
      → mutate digest skill_id base mutation_id payload now cloud ≡ (ok p.response, cloud)
  unfolding mutate ◌>>=◌
  replayed p found same = rw (found, same) refl

  stale :
      get mutation_id cloud.mutations ≡ none
      → (revision_of (get skill_id cloud.skills) == base) ≡ false
      → mutate digest skill_id base mutation_id payload now cloud
        ≡ (err (api_error 409 skill_revision_conflict), cloud)
  unfolding mutate apply_mutation ◌>>=◌
  stale fresh moved = rw (fresh, moved) refl

module _ (digest : ℕ → ℕ → Option ℕ → ℕ) (skill_id base mutation_id : ℕ) (payload : Option ℕ)
    (now : ℕ) (cloud : UserCloud) where
  -- A new mutation is refused and nothing is written, or it is the first one after its base.
  apply_mutation_cases :
      ((e : Error) × (apply_mutation digest skill_id base mutation_id payload now cloud
          ≡ (err e, cloud)))
      ⊎ (apply_mutation digest skill_id base mutation_id payload now cloud ≡ (
        ok (result_of skill_id base payload now),
        after_mutation digest skill_id base mutation_id payload now
            (get skill_id cloud.skills)
            cloud,
      ))
  unfolding apply_mutation ◌>>=◌
  apply_mutation_cases = elim (Bool-cases (revision_of (get skill_id cloud.skills) == base)) [
    | inr stale ↦ rw stale (inl (_, refl))
    | inl current ↦
        elim (Bool-cases (is_missing (get skill_id cloud.skills) && is_missing payload)) [
          | inl nothing ↦ rw (current, nothing) (inl (_, refl))
          | inr something ↦
              elim (Bool-cases
                (is_missing (get skill_id cloud.skills) && leb 200 (length cloud.skills))) [
                  | inl full ↦ rw (current, something, full) (inl (_, refl))
                  | inr room ↦ rw (current, something, room) (inr refl)
                ]
        ]
  ]

  revision_after :
      revision_of (
        get skill_id (
          put_skill skill_id
            (new_values base payload now)
            (get skill_id cloud.skills)
            cloud.skills))
      ≡ base + 1
  unfolding put_skill new_values
  revision_after = elim (Option-cases (get skill_id cloud.skills)) [
    | inl missing ↦
        rw
          (missing, get-insert skill_id skill_id (new_values base payload now) cloud.skills missing)
          (ground arith)
    | inr (row, found) ↦
        rw (found, get-update_self skill_id (λ _. new_values base payload now) cloud.skills)
          (ground arith)
  ]

  module _ (fresh : get mutation_id cloud.mutations ≡ none)
      (done : (mutate digest skill_id base mutation_id payload now cloud).0
        ≡ ok (result_of skill_id base payload now)) where
    applied : mutate digest skill_id base mutation_id payload now cloud ≡ (
      ok (result_of skill_id base payload now),
      after_mutation digest skill_id base mutation_id payload now (get skill_id cloud.skills) cloud,
    )
    unfolding mutate ◌>>=◌
    applied = elim apply_mutation_cases [
      | inl (e, refused) ↦ cc (rw (fresh, refused) at done)
      | inr accepted ↦ rw fresh accepted
    ]

    abbrev after : UserCloud
    after =
        after_mutation digest skill_id base mutation_id payload now (get skill_id cloud.skills)
          cloud

    abbrev record_of : CloudMutation
    record_of = record {
      request_hash = digest skill_id base payload;
      response = result_of skill_id base payload now;
      created_at = now;
    }

    recorded : get mutation_id after.mutations ≡ some record_of
    unfolding after_mutation
    recorded = ground (arith, get-insert mutation_id mutation_id record_of cloud.mutations fresh)

    same_hash : (record_of.request_hash == digest skill_id base payload) ≡ true
    same_hash = ground arith

    not_recorded :
        (k : ℕ) → get k cloud.mutations ≡ none → k ≢ mutation_id → get k after.mutations ≡ none
    unfolding after_mutation
    not_recorded k missing ne =
        ground (arith, ne, missing, get-insert mutation_id k record_of cloud.mutations fresh)

    moved : (revision_of (get skill_id after.skills) == base) ≡ false
    unfolding after_mutation
    moved = ground (arith, revision_after)

    -- A new mutation that was accepted gives the same reply when it is sent again, at any time, and
    -- the second one changes nothing.
    pub mutate-mutate :
        (now' : ℕ)
        → mutate digest skill_id base mutation_id payload now'
            (mutate digest skill_id base mutation_id payload now cloud).1
          ≡ mutate digest skill_id base mutation_id payload now cloud
    mutate-mutate now' =
        rw applied (
          replayed digest skill_id base mutation_id payload now' after record_of recorded same_hash)

    -- After a new mutation that was accepted, another new one that starts from the same revision of
    -- the skill is refused with a revision conflict and writes nothing: no update is overwritten by
    -- one that did not see it.
    pub mutate_conflict :
        (mutation_id' : ℕ) (payload' : Option ℕ) (now' : ℕ)
        → get mutation_id' cloud.mutations ≡ none
        → mutation_id' ≢ mutation_id
        → mutate digest skill_id base mutation_id' payload' now'
            (mutate digest skill_id base mutation_id payload now cloud).1
          ≡ (
            err (api_error 409 skill_revision_conflict),
            (mutate digest skill_id base mutation_id payload now cloud).1,
          )
    mutate_conflict mutation_id' payload' now' fresh' ne = rw applied (
        stale digest skill_id base mutation_id' payload' now' after
          (not_recorded mutation_id' fresh' ne) moved)
