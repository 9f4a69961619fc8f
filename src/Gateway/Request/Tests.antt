-- ===== src/Gateway/Request/Tests.antt =====
-- app/gateway.py, `completions`: the checks of a request at a small catalogue.
use opsark_admin.Common.{
  ℕ, ◌≡◌, refl, none, some, [], ◌∷◌, String, List, true, false, ◌⊎◌, if◌then◌else◌, Bool-cases,
  Option-cases, inl, inr,
}
use opsark_admin.Accounts.{text_eq}
use opsark_admin.Common.Int.{pos}
use opsark_admin.Gateway.Request.Limit.{NoNumber}
use opsark_admin.Gateway.Request.Limited.{IsLimited}
use opsark_admin.Gateway.Request.Budget.{prepare-IsLimited}
use opsark_admin.Errors.{Error, Result, connect_timeout, ok, err, unhandled_error, value_error}
use opsark_admin.Json.{
  Json, Fields, object, field, end, str, array, item, nil, integer, find_field, is_there, is_member,
}
use opsark_admin.Parameters.{
  ModelParameters, no_parameters, merge_parameters, merge_layer, validate, compatible, in_range,
}
use opsark_admin.Parameters.Presets.{
  cap_budget, custom, on_ok, get_preset, preserve_output_ceiling, resolve_parameters,
  resolve_layers,
}
use opsark_admin.Parameters.Routes.{
  chat_completions, validate_route_protocol, resolve_chat, resolve_by, resolve_route_parameters,
}
use opsark_admin.Protocols.{require_one_of, output_format}
use opsark_admin.Protocols.Address.{upstream_url}
use opsark_admin.Catalog.{Provider, ModelRoute, Catalog, unknown_output, unknown_budget}
use opsark_admin.Catalog.Capabilities.{RevisionSource, validate_request_capabilities}
use opsark_admin.Gateway.Request.{
  Request, Caller, validate_chat_request, validate_body, check_plain_message, check_plain_items,
  check_user, find_enabled, find_target,
}
use opsark_admin.Gateway.Request.Prepare.{
  Outgoing, Prepared, parameter_names, without, limit_output, check_output_mode, check_capabilities,
  limit_for, outgoing, finish_body, prepare_target, prepare,
}
use opsark_admin.Credits.Samples.{db, db-IsSound}
use opsark_admin.Gateway.Admitted.{SameCredits}
use opsark_admin.Gateway.Outcome.{IsEnded}
use opsark_admin.Gateway.Exchange.{Scope, Reply, failing, sent, unsent}
use opsark_admin.Gateway.Whole.{Moment, call_of, completions, completions-IsEnded}
use opsark_admin.Gateway.Request.Checked.{IsPrepared, prepare-IsPrepared}

abbrev provider : Provider
provider = record {
  name = "main";
  base_url = "https://models.example/v1";
  encrypted_key = 4;
  enabled = true;
  timeout_seconds = 60;
  parameter_defaults = no_parameters;
}

abbrev route : ModelRoute
route = record {
  alias = "fast";
  display_name = "fast";
  provider_id = 1;
  upstream_model = "m";
  enabled = true;
  parameter_overrides = no_parameters;
  preset_id = custom;
  api_protocol = chat_completions;
  structured_output = unknown_output;
  budget_semantics = unknown_budget;
  capabilities_v2_enabled = true;
}

abbrev catalog : Catalog
catalog = record { providers = (1, provider) ∷ []; routes = (2, route) ∷ []; keys = [] }

abbrev caller : Caller
caller = record { user_id = some 1; allowed_models = "fast" ∷ [] }

-- A chat request with one message by a given role.
abbrev request : Json → Request
request role = record {
  protocol = chat_completions;
  body = some (
      object (
        field "model" (str "fast") (
          field "messages"
            (array (item (object (field "role" role (field "content" (str "hello") end))) nil))
            end)));
  idempotency_key = some 9;
  expected_revision = none;
}

-- A body with these parameters has none of its own; the address and the secret are as stored.
abbrev no_call_parameters : Fields → Result ModelParameters
no_call_parameters fields = ok no_parameters

abbrev address_of : String → Result String
address_of base_url = ok base_url

abbrev secret_of : ℕ → Result ℕ
secret_of key = ok key

abbrev size_of : Outgoing → ℕ
size_of body = 120

abbrev digest_of : RevisionSource → ℕ
digest_of source = source.encrypted_key

abbrev scope : Scope
scope = record {
  db = db;
  free_slots = 3;
  acquired = false;
  dispatched = false;
  received = false;
  pending = record { http_status = none; input_tokens = none; output_tokens = none };
}

abbrev moment : Moment
moment = record { call_id = 9; request_hash = 12; now = 60; elapsed = 12; ended_at = 72 }

-- What `completions` makes of a request whose provider cannot be reached.
abbrev served : Result Reply × Scope
served =
    completions no_call_parameters address_of secret_of size_of digest_of catalog
      (request (str "user")) 1 ("fast" ∷ []) moment (sent (unsent (failing connect_timeout))) scope

abbrev prepared : Prepared
prepared = record {
  route = route;
  provider = provider;
  url = "https://models.example/v1/chat/completions";
  raw_key = 4;
  requested = no_parameters;
  body = record {
    fields = field "model" (str "fast") (
        field "messages"
          (array
            (item (object (field "role" (str "user") (field "content" (str "hello") end))) nil))
          end);
    parameters = record no_parameters { max_tokens = some 16384 };
    upstream_model = "m";
  };
  capability_error = none;
}

-- The same request with a budget of 50, and a validation that finds it.
abbrev asking : Request
asking = record (request (str "user")) {
  body = some (
      object (
        field "model" (str "fast") (
          field "max_tokens" (integer (pos 50)) (
            field "messages"
              (array
                (item (object (field "role" (str "user") (field "content" (str "hello") end))) nil))
              end))));
}

abbrev fifty : ModelParameters
fifty = record no_parameters { max_tokens = some 50 }

-- A validation that finds this budget, in a body that has no other.
abbrev finds_fifty : Fields → Result ModelParameters
finds_fifty fields =
    if is_there (find_field "max_completion_tokens" fields) then err value_error else ok fifty

request_accepted :
    prepare no_call_parameters address_of secret_of size_of digest_of
      (request (str "user"))
      caller
      catalog
    ≡ ok prepared
unfolding prepare prepare_target finish_body outgoing limit_for check_capabilities check_output_mode
    limit_output parameter_names find_target find_enabled check_user check_plain_items
    check_plain_message validate_body validate_chat_request require_one_of output_format
    validate_request_capabilities on_ok upstream_url resolve_route_parameters
    validate_route_protocol resolve_by resolve_chat resolve_parameters get_preset merge_parameters
    merge_layer validate compatible in_range preserve_output_ceiling resolve_layers
request_accepted = refl

-- A role that is a list cannot be looked up in the set of roles.
role_unreadable :
    prepare no_call_parameters address_of secret_of size_of digest_of
      (request (array nil))
      caller
      catalog
    ≡ err unhandled_error
unfolding prepare check_user check_plain_items check_plain_message validate_body
    validate_chat_request require_one_of on_ok
role_unreadable = refl

prepare-IsPrepared_example :
    IsPrepared no_call_parameters address_of secret_of size_of digest_of
      (request (str "user"))
      caller
      catalog
      prepared
prepare-IsPrepared_example =
    prepare-IsPrepared no_call_parameters address_of secret_of size_of digest_of
      (request (str "user")) caller catalog prepared request_accepted

completions-IsEnded_example :
    ((e : Error) × (served.0 ≡ err e) × SameCredits db served.1.db)
    ⊎ ((p : Prepared) × IsEnded (call_of (request (str "user")) caller moment p) served.1.db)
completions-IsEnded_example =
    completions-IsEnded no_call_parameters address_of secret_of size_of digest_of catalog
      (request (str "user")) 1 ("fast" ∷ []) moment (sent (unsent (failing connect_timeout))) scope
      db-IsSound refl (λ p. refl)

absent-without :
    (name : String) (names : List String) (fields : Fields)
    → find_field name fields ≡ none
    → find_field name (without names fields) ≡ none
absent-without name names end h = refl
absent-without name names (field first value rest) h = elim (Bool-cases (text_eq first name)) [
  | inl hit ↦ cc (rw hit at h)
  | inr other ↦
      let below = absent-without name names rest (rw other at h) in
      elim (Bool-cases (is_member first names)) [
        | inl taken ↦ rw taken below
        | inr kept ↦ rw (kept, other) below
      ]
]

finds_fifty-NoNumber :
    (fields : Fields) (p : ModelParameters)
    → finds_fifty fields ≡ ok p
    → NoNumber "max_completion_tokens" (without (parameter_names p) fields)
finds_fifty-NoNumber fields p e z number =
    elim (Option-cases (find_field "max_completion_tokens" fields)) [
      | inl absent ↦
          cc (absent-without "max_completion_tokens" (parameter_names p) fields absent, number)
      | inr (v, there) ↦ cc (rw there at e)
    ]

abbrev asked : Prepared
asked = record prepared { requested = fifty; body = record prepared.body { parameters = fifty } }

asking_accepted :
    prepare finds_fifty address_of secret_of size_of digest_of asking caller catalog ≡ ok asked
unfolding prepare prepare_target finish_body outgoing limit_for check_capabilities check_output_mode
    limit_output parameter_names find_target find_enabled check_user check_plain_items
    check_plain_message validate_body validate_chat_request require_one_of output_format
    validate_request_capabilities on_ok upstream_url resolve_route_parameters
    validate_route_protocol resolve_by resolve_chat resolve_parameters get_preset merge_parameters
    merge_layer validate compatible in_range preserve_output_ceiling resolve_layers cap_budget
asking_accepted = refl

prepare-IsLimited_example : IsLimited 50 asking.protocol asked.body
prepare-IsLimited_example =
    prepare-IsLimited finds_fifty address_of secret_of size_of digest_of finds_fifty-NoNumber asking
      caller 1 catalog asked 50 refl asking_accepted refl
