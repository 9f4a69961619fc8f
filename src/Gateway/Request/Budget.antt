-- ===== src/Gateway/Request/Budget.antt =====
-- app/gateway.py, `completions`: the output budget of a user's call is at most the one asked for.
use opsark_admin.Common.{ℕ, ◌≡◌, refl, ap, subst, ◌∙◌, true, false, Option, some, [], String}
use opsark_admin.Errors.{Result, ok}
use opsark_admin.Json.{Fields, end, field}
use opsark_admin.Parameters.{ModelParameters}
use opsark_admin.Parameters.Presets.{Preset, requested}
use opsark_admin.Parameters.Routes.{Protocol, chat_completions, responses, other_protocol}
use opsark_admin.Parameters.Ceiling.{on_ok_inv, resolve_route_parameters-IsCapped}
use opsark_admin.Parameters.Budget.Fits.{fits, requested-has_budget, resolve_route_parameters-fits}
use opsark_admin.Catalog.{Provider, ModelRoute, Catalog}
use opsark_admin.Catalog.Capabilities.{RevisionSource, token_field}
use opsark_admin.Gateway.Request.{Request, Caller, same_protocol}
use opsark_admin.Gateway.Request.Prepare.{
  Outgoing, parameter_names, without, parameter_body, has_completion, reasoning_names, limit_output,
  Prepared, limit_for, outgoing, finish_body, prepare_target, prepare,
}
use opsark_admin.Gateway.Request.Checked.{ok_injective, on_value_error_inv, find_target-IsTarget}
use opsark_admin.Gateway.Request.Limit.{NoNumber, limit_output-IsCapped}
use opsark_admin.Gateway.Request.Limited.{IsLimited, limit_output-IsLimited}

without-nothing : (fields : Fields) → without [] fields ≡ fields
without-nothing end = refl
without-nothing (field name value rest) = ap (field name value) (without-nothing rest)

same_protocol-equal : (a b : Protocol) → same_protocol a b ≡ true → a ≡ b
same_protocol-equal chat_completions chat_completions h = refl
same_protocol-equal responses responses h = refl
same_protocol-equal chat_completions responses h = cc h
same_protocol-equal chat_completions other_protocol h = cc h
same_protocol-equal responses chat_completions h = cc h
same_protocol-equal responses other_protocol h = cc h
same_protocol-equal other_protocol chat_completions h = cc h
same_protocol-equal other_protocol responses h = cc h
same_protocol-equal other_protocol other_protocol h = cc h

same_protocol_self : (a b : Protocol) → same_protocol a b ≡ true → same_protocol b b ≡ true
same_protocol_self a chat_completions h = refl
same_protocol_self a responses h = refl
same_protocol_self chat_completions other_protocol h = cc h
same_protocol_self responses other_protocol h = cc h
same_protocol_self other_protocol other_protocol h = cc h

module _ (validate_call_parameters : Fields → Result ModelParameters)
    (destination : String → Result String) (secret : ℕ → Result ℕ) (size : Outgoing → ℕ)
    (digest : RevisionSource → ℕ)
    (takes_numbers : (fields : Fields) (p : ModelParameters)
      → validate_call_parameters fields ≡ ok p
      → NoNumber "max_completion_tokens" (without (parameter_names p) fields)) where
  outgoing-NoNumber :
      (r : Request) (fields : Fields) (route : ModelRoute) (asked effective : ModelParameters)
      → validate_call_parameters (parameter_body r.protocol fields) ≡ ok asked
      → same_protocol r.protocol responses ≡ false
      → NoNumber "max_completion_tokens"
          (outgoing validate_call_parameters destination secret size digest r fields route asked
            effective).fields
  unfolding outgoing
  outgoing-NoNumber r fields route asked effective known_asked other =
      go r.protocol known_asked other
    where
      go :
          (protocol : Protocol)
          → validate_call_parameters (parameter_body protocol fields) ≡ ok asked
          → same_protocol protocol responses ≡ false
          → NoNumber "max_completion_tokens"
              (without (reasoning_names protocol) (without (parameter_names asked) fields))
      go responses known_asked other = cc other
      go chat_completions known_asked other =
          rw without-nothing (takes_numbers fields asked known_asked)
      go other_protocol known_asked other =
          rw without-nothing (takes_numbers fields asked known_asked)

  limit_for-limit_output :
      (caller : Caller) (user : ℕ) (r : Request) (preset : Option Preset) (body sent : Outgoing)
      → caller.user_id ≡ some user
      → limit_for validate_call_parameters destination secret size digest caller r preset body
        ≡ ok sent
      → limit_output size (token_field r.protocol preset (has_completion body)) body ≡ ok sent
  unfolding limit_for
  limit_for-limit_output caller user r preset body sent own h = rw own at h

  prepare_target-IsLimited :
      (r : Request) (caller : Caller) (user : ℕ) (fields : Fields) (route : ModelRoute)
      (provider : Provider) (p : Prepared) (limit : ℕ)
      → same_protocol route.api_protocol r.protocol ≡ true
      → caller.user_id ≡ some user
      → prepare_target validate_call_parameters destination secret size digest r caller fields route
          provider
        ≡ ok p
      → requested p.requested ≡ some limit
      → IsLimited limit r.protocol p.body
  unfolding prepare_target finish_body outgoing
  prepare_target-IsLimited r caller user fields route provider p limit same own h wanted =
      let (address, h1, rest1) = on_ok_inv _ _ _ h in
      let (url, h2, rest2) = on_ok_inv _ _ _ rest1 in
      let (raw_key, h3, rest3) = on_ok_inv _ _ _ rest2 in
      let (asked, h4, rest4) = on_ok_inv _ _ _ rest3 in
      let (effective, h5, rest5) = on_ok_inv _ _ _ rest4 in
      let (sent, finished, done) = on_ok_inv _ _ _ rest5 in
      let (preset, g1, more1) = on_ok_inv _ _ _ finished in
      let (refusal, g2, more2) = on_ok_inv _ _ _ more1 in
      let (limited, g3, more3) = on_ok_inv _ _ _ more2 in
      let made = ok_injective _ p done in
      let wanted_here : requested asked ≡ some limit =
        ap (λ q. requested q.requested) made ∙ wanted in
      let resolved = on_value_error_inv _ effective h5 in
      let by_route =
        resolve_route_parameters-fits _ _ _ effective (requested-has_budget asked limit wanted_here)
          route.preset_id route.upstream_model route.api_protocol _ preset g1 resolved in
      let by_limit = limit_for-limit_output caller user r preset _ limited own g3 in
      subst (λ b. IsLimited limit r.protocol b)
        (ap (λ q. q.0) (ok_injective _ sent more3) ∙ ap (λ q. q.body) made)
        (limit_output-IsLimited size r.protocol preset _ limited limit by_limit (
          limit_output-IsCapped size r.protocol preset _ limited limit
            (same_protocol_self route.api_protocol r.protocol same)
            (subst (λ q. fits q preset effective ≡ true)
              (same_protocol-equal route.api_protocol r.protocol same) by_route)
            (outgoing-NoNumber r fields route asked effective (on_value_error_inv _ asked h4))
            (resolve_route_parameters-IsCapped _ _ _ _ _ _ _ effective limit wanted_here resolved)
            by_limit))

  -- If a user's request passes the checks and asks for an output budget, then no budget among the
  -- parameters that are sent to the provider is above it, whatever the provider's defaults, the
  -- route and its preset say: the budget asked for is never replaced by the platform's limit. And
  -- apart from these parameters no field named "max_tokens" or "max_completion_tokens" is sent, and
  -- none named "max_output_tokens" with the Responses protocol. The validation of the parameters is
  -- assumed to take every number under "max_completion_tokens".
  pub prepare-IsLimited :
      (r : Request) (caller : Caller) (user : ℕ) (db : Catalog) (p : Prepared) (limit : ℕ)
      → caller.user_id ≡ some user
      → prepare validate_call_parameters destination secret size digest r caller db ≡ ok p
      → requested p.requested ≡ some limit
      → IsLimited limit r.protocol p.body
  unfolding prepare
  prepare-IsLimited r caller user db p limit own h wanted =
      let (body, is_json, h1) = on_ok_inv _ _ _ h in
      let (u1, valid, h2) = on_ok_inv _ _ _ h1 in
      let (u2, stored, h3) = on_ok_inv _ _ _ h2 in
      let (u3, user_ok, h4) = on_ok_inv _ _ _ h3 in
      let ((route, provider), found, h5) = on_ok_inv _ _ _ h4 in
      prepare_target-IsLimited r caller user _ route provider p limit
        (find_target-IsTarget digest r caller _ db route provider found).protocol own h5 wanted
