-- ===== src/Gateway/Request/Prepare.antt =====
-- app/gateway.py, `completions`: what is sent for a request that has passed its checks. Parameters of
-- the file are what libraries do: the validation of the parameters in a body, the address of a
-- provider, its secret, the size of the body that is sent, and the digest of a route's capabilities.
use opsark_admin.Common.{
  ℕ, Bool, true, false, ◌&&◌, ◌||◌, Option, none, some, List, [], ◌∷◌, String, leb, if◌then◌else◌,
}
use opsark_admin.Common.Int.{pos}
use opsark_admin.Errors.{
  Code, Result, ok, err, api_error, value_error, unhandled_error, invalid_json,
  provider_storage_not_supported, invalid_model_parameters, output_capability_unknown, output_limit,
  official_context_too_large,
}
use opsark_admin.Accounts.{text_eq}
use opsark_admin.Json.{
  Json, integer, str, object, Fields, end, field, find_field, get_key, is_member, is_there,
  is_false_or_absent, is_hashable,
}
use opsark_admin.Protocols.{output_format}
use opsark_admin.Protocols.Address.{upstream_url}
use opsark_admin.Parameters.{ModelParameters, is_set}
use opsark_admin.Parameters.Presets.{Preset, on_ok, get_preset}
use opsark_admin.Parameters.Routes.{Protocol, responses, resolve_route_parameters}
use opsark_admin.Catalog.{Provider, ModelRoute, Catalog, budget_is_total}
use opsark_admin.Catalog.Capabilities.{
  TokenField, max_tokens_field, max_completion_field, max_output_field, OutputMode, supported,
  RevisionSource, Capabilities, token_field, budget_at, route_capabilities_v2,
  validate_request_capabilities,
}
use opsark_admin.Gateway.Request.{
  Caller, Request, check_user, find_target, has_key, is_streamed, or_missing, require, text_of,
  validate_body,
}

-- What is sent: the fields of the client, and the parameters that come before a field of the same
-- name.
pub record Outgoing : Type 0 where
  pub fields : Fields
  pub parameters : ModelParameters
  pub upstream_model : String

abbrev pub set_name {ℓ} : {A : Type ℓ} → String → Option A → List String → List String
set_name name none names = names
set_name name (some value) names = name ∷ names

-- The keys of the parameters of a request.
unfoldable pub parameter_names : ModelParameters → List String
parameter_names p = set_name "thinking" p.thinking (
    set_name "enable_thinking" p.enable_thinking (
      set_name "reasoning_effort" p.reasoning_effort (
        set_name "temperature" p.temperature (
          set_name "top_p" p.top_p (
            set_name "max_tokens" p.max_tokens (
              set_name "max_completion_tokens" p.max_completion_tokens (
                set_name "max_output_tokens" p.max_output_tokens (
                  set_name "presence_penalty" p.presence_penalty
                    (set_name "frequency_penalty" p.frequency_penalty [])))))))))

-- `body.pop(name, None)` for all names.
abbrev pub without : List String → Fields → Fields
without names end = end
without names (field name value rest) =
    let others = without names rest in
    if is_member name names then others else field name value others

abbrev pub fields_of : Json → Fields
fields_of (object fields) = fields
fields_of _ = end

-- The effort of a Responses request stands in its `reasoning`.
abbrev pub with_effort : Option Json → Fields → Fields
with_effort none fields = fields
with_effort (some effort) fields = field "reasoning_effort" effort fields

abbrev pub effort_of : Option Json → Option Json
effort_of none = none
effort_of (some reasoning) = get_key "effort" reasoning

abbrev pub parameter_body : Protocol → Fields → Fields
parameter_body responses body = with_effort (effort_of (find_field "reasoning" body)) body
parameter_body _ body = body

abbrev pub reasoning_names : Protocol → List String
reasoning_names responses = "reasoning" ∷ []
reasoning_names _ = []

-- `except ValueError`
abbrev pub on_value_error {ℓ} : {A : Type ℓ} → Result A → Result A
on_value_error (err value_error) = err (api_error 422 invalid_model_parameters)
on_value_error r = r

abbrev pub field_name : TokenField → String
field_name max_tokens_field = "max_tokens"
field_name max_completion_field = "max_completion_tokens"
field_name max_output_field = "max_output_tokens"

-- `max_output`, if it is within its bounds.
abbrev pub within_limit : ℕ → Option ℕ
within_limit n = if leb 1 n && leb n 16384 then some n else none

abbrev pub field_budget : Option Json → Option ℕ
field_budget none = some 16384
field_budget (some (integer (pos n))) = within_limit n
field_budget _ = none

abbrev pub output_budget : Option ℕ → Option Json → Option ℕ
output_budget (some n) there = within_limit n
output_budget none there = field_budget there

-- The budget at its key, and no budget of the chat protocol at another.
abbrev pub set_budget : TokenField → ℕ → ModelParameters → ModelParameters
set_budget max_tokens_field n p = record p { max_tokens = some n; max_completion_tokens = none }
set_budget max_completion_field n p = record p { max_tokens = none; max_completion_tokens = some n }
set_budget max_output_field n p = record p {
  max_tokens = none;
  max_completion_tokens = none;
  max_output_tokens = some n;
}

-- `"max_completion_tokens" in body`
abbrev pub has_completion : Outgoing → Bool
has_completion body =
    is_set body.parameters.max_completion_tokens
    || is_there (find_field "max_completion_tokens" body.fields)

abbrev pub with_budget : TokenField → ℕ → Outgoing → Outgoing
with_budget at n body = record body {
  fields = without ("max_tokens" ∷ "max_completion_tokens" ∷ field_name at ∷ []) body.fields;
  parameters = set_budget at n body.parameters;
}

unfoldable pub limit_output : (Outgoing → ℕ) → TokenField → Outgoing → Result Outgoing
limit_output size at body =
    elim (output_budget (budget_at at body.parameters) (find_field (field_name at) body.fields)) [
      | none ↦ err (api_error 422 output_limit)
      | some n ↦
          on_ok (require (leb (size (with_budget at n body)) 262144) 413 official_context_too_large)
            λ _. ok (with_budget at n body)
    ]

-- An ApiError is kept for later, another exception passes.
abbrev pub kept_error : Result (Unit {0}) → Result (Option (ℕ × Code))
kept_error (ok done) = ok none
kept_error (err (api_error status code)) = ok (some (status, code))
kept_error (err e) = err e

abbrev pub is_supported : OutputMode → Bool
is_supported supported = true
is_supported _ = false

-- `capabilities_v2["outputModes"].get(mode) == "supported"`
abbrev pub offers : Capabilities → String → Bool
offers c mode =
    if text_eq mode "json_object"
    then is_supported c.object_mode
    else text_eq mode "json_schema" && is_supported c.schema_mode

abbrev pub offers_type : Capabilities → Json → Result (Unit {0})
offers_type c (str mode) = require (offers c mode) 422 output_capability_unknown
offers_type c mode =
    if is_hashable (some mode)
    then err (api_error 422 output_capability_unknown)
    else err unhandled_error

abbrev pub offers_mode : Option Capabilities → Json → Result (Unit {0})
offers_mode none mode = err (api_error 422 output_capability_unknown)
offers_mode (some c) mode = offers_type c mode

abbrev pub is_text_mode : Json → Bool
is_text_mode (str mode) = text_eq mode "text"
is_text_mode _ = false

unfoldable pub check_output_mode : Option Capabilities → Option Json → Result (Unit {0})
check_output_mode capabilities none = ok tt
check_output_mode capabilities (some mode) =
    if is_text_mode mode then ok tt else offers_mode capabilities mode

abbrev pub is_responses : Protocol → Bool
is_responses responses = true
is_responses _ = false

-- The two checks of the capabilities.
unfoldable pub check_capabilities :
    (RevisionSource → ℕ)
    → Request
    → ModelRoute
    → Provider
    → Option Preset
    → Outgoing
    → Result (Unit {0})
check_capabilities digest r route provider preset body =
    on_ok
      (if is_responses r.protocol
        then ok tt
        else validate_request_capabilities preset (find_field "response_format" body.fields)
            body.parameters.enable_thinking (is_streamed (find_field "stream" body.fields)))
      λ _.
        if is_responses r.protocol || has_key r.expected_revision
        then check_output_mode (route_capabilities_v2 digest route provider)
            (find_field "type" (output_format (object body.fields) r.protocol))
        else ok tt

-- A request that passed the checks: what is sent, where and with which secret.
pub record Prepared : Type 0 where
  pub route : ModelRoute
  pub provider : Provider
  pub url : String
  pub raw_key : ℕ
  pub requested : ModelParameters
  pub body : Outgoing
  pub capability_error : Option (ℕ × Code)

module _ (validate_call_parameters : Fields → Result ModelParameters)
    (destination : String → Result String) (secret : ℕ → Result ℕ) (size : Outgoing → ℕ)
    (digest : RevisionSource → ℕ) where
  -- The budget of a call that the platform answers for.
  unfoldable pub limit_for : Caller → Request → Option Preset → Outgoing → Result Outgoing
  limit_for caller r preset body =
      if has_key caller.user_id || (is_responses r.protocol || has_key r.expected_revision)
      then limit_output size (token_field r.protocol preset (has_completion body)) body
      else ok body

  -- The body once the parameters of the call are resolved.
  unfoldable pub outgoing :
      Request → Fields → ModelRoute → ModelParameters → ModelParameters → Outgoing
  outgoing r fields route requested effective = record {
    fields = without (reasoning_names r.protocol) (without (parameter_names requested) fields);
    parameters = effective;
    upstream_model = route.upstream_model;
  }

  -- A preset that is not known has been refused before, where the body goes without a limit.
  unfoldable pub finish_body :
      Request → Caller → ModelRoute → Provider → Outgoing → Result (Outgoing × Option (ℕ × Code))
  finish_body r caller route provider body =
      on_ok (get_preset route.preset_id route.upstream_model) λ preset.
        on_ok (kept_error (check_capabilities digest r route provider preset body))
          λ refusal. on_ok (limit_for caller r preset body) λ limited. ok (limited, refusal)

  unfoldable pub prepare_target :
      Request → Caller → Fields → ModelRoute → Provider → Result Prepared
  prepare_target r caller fields route provider = on_ok (destination provider.base_url) λ address.
      on_ok (upstream_url address r.protocol) λ url.
        on_ok (secret provider.encrypted_key) λ raw_key.
          on_ok (on_value_error (validate_call_parameters (parameter_body r.protocol fields)))
            λ requested.
              on_ok
                (on_value_error (
                  resolve_route_parameters route.api_protocol route.preset_id route.upstream_model
                    (budget_is_total route.budget_semantics) provider.parameter_defaults requested
                    route.parameter_overrides))
                λ effective.
                  on_ok
                    (finish_body r caller route provider
                      (outgoing r fields route requested effective))
                    λ sent. ok (record {
                      route = route;
                      provider = provider;
                      url = url;
                      raw_key = raw_key;
                      requested = requested;
                      body = sent.0;
                      capability_error = sent.1;
                    })

  -- `completions` up to the new row of the call.
  unfoldable pub prepare : Request → Caller → Catalog → Result Prepared
  prepare r caller db = on_ok (or_missing r.body 422 invalid_json) λ body.
      on_ok (validate_body r.protocol body) λ _.
        on_ok
          (require (is_false_or_absent (get_key "store" body)) 422 provider_storage_not_supported)
          λ _. on_ok (check_user caller.user_id r body) λ _.
            on_ok (find_target digest r caller (text_of (get_key "model" body)) db)
              λ target. prepare_target r caller (fields_of body) target.0 target.1
