-- ===== src/Gateway/Request/Checked.antt =====
-- app/gateway.py, `completions`: what a request is that has passed the checks.
use opsark_admin.Common.{
  ℕ, ◌≡◌, ◌≤◌, refl, sym, ap, subst, ◌∙◌, Bool, true, false, ◌&&◌, not, Option, none, some, [], ◌∷◌,
  String, leb, arith, Bool-cases, Option-cases, inl, inr,
}
use opsark_admin.Common.Table.{Table, get}
use opsark_admin.Errors.{
  Code, Result, ok, err, value_error, user_stream_not_supported, official_context_too_large,
}
use opsark_admin.Accounts.{text_eq}
use opsark_admin.Json.{Json, Fields, get_key, find_field, is_member}
use opsark_admin.Parameters.{ModelParameters}
use opsark_admin.Parameters.Presets.{Preset}
use opsark_admin.Parameters.Ceiling.{on_ok_inv}
use opsark_admin.Catalog.{Provider, ModelRoute, Catalog}
use opsark_admin.Catalog.Capabilities.{
  TokenField, max_tokens_field, max_completion_field, max_output_field, RevisionSource, budget_at,
  route_capabilities_v2,
}
use opsark_admin.Gateway.Request.{
  Request, Caller, require, is_streamed, has_key, check_user, find_enabled, same_protocol,
  is_expected, text_of, or_missing, find_target,
}
use opsark_admin.Gateway.Request.Prepare.{
  Outgoing, on_value_error, field_name, output_budget, set_budget, with_budget, limit_output,
  Prepared, limit_for, finish_body, prepare_target, prepare,
}

abbrev value_or {ℓ} : {A : Type ℓ} → A → Result A → A
value_or default (ok a) = a
value_or default (err e) = default

pub ok_injective {ℓ} : {A : Type ℓ} (a b : A) → ◌≡◌ {A = Result A} (ok a) (ok b) → a ≡ b
ok_injective a b e = ap (value_or a) e

require_inv :
    (b : Bool) (status : ℕ) (code : Code) (u : Unit) → require b status code ≡ ok u → b ≡ true
require_inv b status code u h = ground arith

pub or_missing_inv {ℓ} :
    {A : Type ℓ} (o : Option A) (status : ℕ) (code : Code) (a : A)
    → or_missing o status code ≡ ok a
    → o ≡ some a
or_missing_inv none status code a h = cc h
or_missing_inv (some b) status code a h = cc h

pub on_value_error_inv {ℓ} :
    {A : Type ℓ} (r : Result A) (a : A) → on_value_error r ≡ ok a → r ≡ ok a
on_value_error_inv (ok b) a h = h
on_value_error_inv (err value_error) a h = cc h
on_value_error_inv (err e) a h = cc h

find_enabled_inv :
    (alias : String) (routes : Table ModelRoute) (route : ModelRoute)
    → find_enabled alias routes ≡ some route
    → (text_eq route.alias alias && route.enabled) ≡ true
unfolding find_enabled
find_enabled_inv alias [] route h = cc h
find_enabled_inv alias ((id, first) ∷ routes) route h =
    elim (Bool-cases (text_eq first.alias alias && first.enabled)) [
      | inl hit ↦ let same : first ≡ route = cc (rw hit at h) in rw (← same) hit
      | inr miss ↦ find_enabled_inv alias routes route (rw miss at h)
    ]

-- Where a call goes: over an enabled route of a model that the caller may use, to its enabled
-- provider, with the protocol of the request and the capabilities that the client expects.
pub record IsTarget (digest : RevisionSource → ℕ) (r : Request) (caller : Caller) (alias : String)
    (db : Catalog) (route : ModelRoute) (provider : Provider) : Type 0 where
  pub may_use : is_member alias caller.allowed_models ≡ true
  pub named : text_eq route.alias alias ≡ true
  pub enabled : route.enabled ≡ true
  pub of_route : get route.provider_id db.providers ≡ some provider
  pub provider_enabled : provider.enabled ≡ true
  pub protocol : same_protocol route.api_protocol r.protocol ≡ true
  pub expected :
      is_expected r.expected_revision (route_capabilities_v2 digest route provider) ≡ true

pub find_target-IsTarget :
    (digest : RevisionSource → ℕ) (r : Request) (caller : Caller) (alias : String) (db : Catalog)
    (route : ModelRoute) (provider : Provider)
    → find_target digest r caller alias db ≡ ok (route, provider)
    → IsTarget digest r caller alias db route provider
unfolding find_target
find_target-IsTarget digest r caller alias db route provider h =
    let (u1, may_use, h1) = on_ok_inv _ _ _ h in
    let (found, named, h2) = on_ok_inv _ _ _ h1 in
    let (owner, of_route, h3) = on_ok_inv _ _ _ h2 in
    let (u2, enabled, h4) = on_ok_inv _ _ _ h3 in
    let (u3, protocol, h5) = on_ok_inv _ _ _ h4 in
    let (u4, expected, h6) = on_ok_inv _ _ _ h5 in
    let same_route : found ≡ route = cc h6 in
    let same_owner : owner ≡ provider = cc h6 in
    let here = find_enabled_inv alias db.routes found (or_missing_inv _ _ _ _ named) in
    rw (← same_route, ← same_owner)
      (record {
        may_use = require_inv _ _ _ _ may_use;
        named = ground (arith, here);
        enabled = ground (arith, here);
        of_route = or_missing_inv _ _ _ _ of_route;
        provider_enabled = require_inv _ _ _ _ enabled;
        protocol = require_inv _ _ _ _ protocol;
        expected = require_inv _ _ _ _ expected;
      })

-- A body that is sent has an output budget, at a key that fits, and is not too large.
pub record IsLimited (size : Outgoing → ℕ) (at : TokenField) (body : Outgoing) : Type 0 where
  pub budget : (n : ℕ) × (budget_at at body.parameters ≡ some n) × (1 ≤ n) × (n ≤ 16384)
  pub small : size body ≤ 262144

output_budget_inv :
    (set : Option ℕ) (there : Option Json) (n : ℕ)
    → output_budget set there ≡ some n
    → (1 ≤ n) × (n ≤ 16384)
output_budget_inv set there n h = ground arith

budget_at-set_budget :
    (at : TokenField) (n : ℕ) (p : ModelParameters) → budget_at at (set_budget at n p) ≡ some n
budget_at-set_budget max_tokens_field n p = refl
budget_at-set_budget max_completion_field n p = refl
budget_at-set_budget max_output_field n p = refl

limit_output-IsLimited :
    (size : Outgoing → ℕ) (at : TokenField) (body sent : Outgoing)
    → limit_output size at body ≡ ok sent
    → IsLimited size at sent
unfolding limit_output
limit_output-IsLimited size at body sent h =
    elim (Option-cases
      (output_budget (budget_at at body.parameters) (find_field (field_name at) body.fields))) [
        | inl over ↦ cc (rw (limit_output, over) at h)
        | inr (n, within) ↦
            let (u, fits, done) = on_ok_inv _ _ sent (rw (limit_output, within) at h) in
            let (low, high) =
              output_budget_inv (budget_at at body.parameters)
                (find_field (field_name at) body.fields) n within in
            let bounded : leb (size (with_budget at n body)) 262144 ≡ true =
              require_inv _ 413 official_context_too_large u fits in
            rw (← ok_injective (with_budget at n body) sent done) (record {
              budget = (n, budget_at-set_budget at n body.parameters, low, high);
              small = ground (arith, bounded);
            })
      ]

module _ (validate_call_parameters : Fields → Result ModelParameters)
    (destination : String → Result String) (secret : ℕ → Result ℕ) (size : Outgoing → ℕ)
    (digest : RevisionSource → ℕ) where
  -- A request of a user carries a key and is no stream, and what is sent for it is limited.
  pub record ForUsers (r : Request) (body : Json) (sent : Outgoing) : Type 0 where
    pub keyed : has_key r.idempotency_key ≡ true
    pub whole : is_streamed (get_key "stream" body) ≡ false
    pub limited : (at : TokenField) × IsLimited size at sent

  -- What holds of a request that has passed the checks.
  pub record IsPrepared (r : Request) (caller : Caller) (db : Catalog) (p : Prepared) : Type 0 where
    pub body : Json
    pub is_json : r.body ≡ some body
    pub target : IsTarget digest r caller (text_of (get_key "model" body)) db p.route p.provider
    pub for_users : (user : ℕ) → caller.user_id ≡ some user → ForUsers r body p.body

  check_user_inv :
      (user : Option ℕ) (id : ℕ) (r : Request) (body : Json) (u : Unit)
      → check_user user r body ≡ ok u
      → user ≡ some id
      → (has_key r.idempotency_key ≡ true) × (is_streamed (get_key "stream" body) ≡ false)
  unfolding check_user
  check_user_inv none id r body u h own = cc own
  check_user_inv (some user) id r body u h own =
      let (u1, keyed, h1) = on_ok_inv _ _ _ h in
      let (u2, whole, h2) = on_ok_inv _ _ _ h1 in
      (
        require_inv _ _ _ _ keyed,
        ground (
          arith,
          require_inv (not (is_streamed (get_key "stream" body))) 422 user_stream_not_supported u2
              whole,
        ),
      )

  limit_for-IsLimited :
      (caller : Caller) (user : ℕ) (r : Request) (preset : Option Preset) (body sent : Outgoing)
      → limit_for validate_call_parameters destination secret size digest caller r preset body
        ≡ ok sent
      → caller.user_id ≡ some user
      → (at : TokenField) × IsLimited size at sent
  unfolding limit_for
  limit_for-IsLimited caller user r preset body sent h own =
      (_, limit_output-IsLimited size _ body sent (rw own at h))

  prepare_target_inv :
      (r : Request) (caller : Caller) (fields : Fields) (route : ModelRoute) (provider : Provider)
      (p : Prepared)
      → prepare_target validate_call_parameters destination secret size digest r caller fields route
          provider
        ≡ ok p
      → (p.route ≡ route)
        × (p.provider ≡ provider)
        × ((user : ℕ) → caller.user_id ≡ some user → (at : TokenField) × IsLimited size at p.body)
  unfolding prepare_target finish_body
  prepare_target_inv r caller fields route provider p h =
      let (address, h1, rest1) = on_ok_inv _ _ _ h in
      let (url, h2, rest2) = on_ok_inv _ _ _ rest1 in
      let (raw_key, h3, rest3) = on_ok_inv _ _ _ rest2 in
      let (requested, h4, rest4) = on_ok_inv _ _ _ rest3 in
      let (effective, h5, rest5) = on_ok_inv _ _ _ rest4 in
      let (sent, finished, done) = on_ok_inv _ _ _ rest5 in
      let (preset, g1, more1) = on_ok_inv _ _ _ finished in
      let (refusal, g2, more2) = on_ok_inv _ _ _ more1 in
      let (limited, g3, more3) = on_ok_inv _ _ _ more2 in
      let made = ok_injective _ p done in
      (
        sym (ap (λ q. q.route) made),
        sym (ap (λ q. q.provider) made),
        λ user own.
            subst (λ b. (at : TokenField) × IsLimited size at b)
              (ap (λ q. q.0) (ok_injective _ sent more3) ∙ ap (λ q. q.body) made)
              (limit_for-IsLimited caller user r preset _ limited g3 own),
      )

  -- A request that passes the checks names a model that its caller may use and goes over the enabled
  -- route of that model to its enabled provider, under the protocol of the route and, if the client
  -- expects a revision of the capabilities, under that one. If it is a user's, it carries a key, is
  -- no stream, and is sent with an output budget from 1 to 16384 in at most 262144 bytes.
  pub prepare-IsPrepared :
      (r : Request) (caller : Caller) (db : Catalog) (p : Prepared)
      → prepare validate_call_parameters destination secret size digest r caller db ≡ ok p
      → IsPrepared r caller db p
  unfolding prepare
  prepare-IsPrepared r caller db p h =
      let (body, is_json, h1) = on_ok_inv _ _ _ h in
      let (u1, valid, h2) = on_ok_inv _ _ _ h1 in
      let (u2, stored, h3) = on_ok_inv _ _ _ h2 in
      let (u3, user_ok, h4) = on_ok_inv _ _ _ h3 in
      let ((route, provider), found, h5) = on_ok_inv _ _ _ h4 in
      let (same_route, same_provider, limits) = prepare_target_inv r caller _ route provider p h5 in
      record {
        body = body;
        is_json = or_missing_inv _ _ _ _ is_json;
        target =
            rw (same_route, same_provider)
              (find_target-IsTarget digest r caller _ db route provider found);
        for_users = λ user own.
            let (keyed, whole) = check_user_inv caller.user_id user r body u3 user_ok own in
            record { keyed = keyed; whole = whole; limited = limits user own };
      }
