-- ===== src/Catalog.antt =====
-- app/gateway.py: the providers, the routes and the keys of the models, and what the staff does to
-- them. A request arrives validated, with its address as `destination` returns it; keys are digests
-- and a provider's secret is opaque.
pub mod Served
pub mod Keys
pub mod Capabilities
mod Tests
use opsark_admin.Common.{
  ℕ, ◌+◌, ◌*◌, Bool, true, false, ◌&&◌, ◌||◌, not, Option, none, some, List, [], ◌∷◌, String, all,
  any, leb, ◌==◌, if◌then◌else◌,
}
use opsark_admin.Common.Table.{Table, get, update, insert}
use opsark_admin.Errors.{
  Error, Result, ok, err, api_error, value_error, not_found, key_required,
  key_required_for_new_destination, model_alias_exists, alias_immutable, invalid_model_parameters,
  integrity_error,
}
use opsark_admin.Exec.{Exec, pure, raise, lift, gets, modify, ◌>>=◌, ◌>>◌, match_option}
use opsark_admin.Accounts.{text_eq}
use opsark_admin.Parameters.{ModelParameters, no_parameters}
use opsark_admin.Parameters.Presets.{PresetId, custom, on_ok}
use opsark_admin.Parameters.Routes.{Protocol, chat_completions, responses, resolve_route_parameters}
use opsark_admin.Protocols.Address.{upstream_url}

pub data StructuredOutput : Type 0 where
  unknown_output json_object json_schema : StructuredOutput

pub data BudgetSemantics : Type 0 where
  unknown_budget total_output visible_output : BudgetSemantics

pub record Provider : Type 0 where
  pub name : String
  pub base_url : String
  pub encrypted_key : ℕ
  pub enabled : Bool
  pub timeout_seconds : ℕ
  pub parameter_defaults : ModelParameters

pub record ModelRoute : Type 0 where
  pub alias : String
  pub display_name : String
  pub provider_id : ℕ
  pub upstream_model : String
  pub enabled : Bool
  pub parameter_overrides : ModelParameters
  pub preset_id : PresetId
  pub api_protocol : Protocol
  pub structured_output : StructuredOutput
  pub budget_semantics : BudgetSemantics
  pub capabilities_v2_enabled : Bool

pub record ModelKey : Type 0 where
  pub owner : String
  pub token_hash : ℕ
  pub allowed_models : List String
  pub expires : ℕ
  pub revoked : Bool
  pub rpm : ℕ

pub record Catalog : Type 0 where
  pub providers : Table Provider
  pub routes : Table ModelRoute
  pub keys : Table ModelKey

pub record ProviderInput : Type 0 where
  pub name : String
  pub base_url : String
  pub api_key : Option ℕ
  pub enabled : Bool
  pub timeout_seconds : ℕ
  pub parameter_defaults : ModelParameters

-- A field that is not in the body is missing.
pub record RouteInput : Type 0 where
  pub alias : String
  pub display_name : String
  pub provider_id : ℕ
  pub upstream_model : String
  pub enabled : Bool
  pub parameter_overrides : ModelParameters
  pub preset_id : Option PresetId
  pub api_protocol : Option Protocol
  pub structured_output : Option StructuredOutput
  pub budget_semantics : Option BudgetSemantics

unfoldable pub write_providers : (Table Provider → Table Provider) → Exec Catalog Unit
write_providers f = modify (λ db. record db { providers = f db.providers })

unfoldable pub write_routes : (Table ModelRoute → Table ModelRoute) → Exec Catalog Unit
write_routes f = modify (λ db. record db { routes = f db.routes })

-- A new row has a fresh key.
unfoldable pub add_provider : ℕ → Provider → Exec Catalog Unit
add_provider id row = do
  taken ← gets (λ db. get id db.providers)
  match_option taken (write_providers (insert id row)) λ _. raise integrity_error

unfoldable pub provider_of : ProviderInput → ℕ → Provider
provider_of body key = record {
  name = body.name;
  base_url = body.base_url;
  encrypted_key = key;
  enabled = body.enabled;
  timeout_seconds = body.timeout_seconds;
  parameter_defaults = body.parameter_defaults;
}

unfoldable pub create_provider : ℕ → ProviderInput → Exec Catalog Unit
create_provider id body =
    match_option body.api_key (raise (api_error 422 key_required))
      λ key. add_provider id (provider_of body key)

abbrev pub budget_is_total : BudgetSemantics → Bool
budget_is_total total_output = true
budget_is_total _ = false

-- What a call without parameters of its own would send to a provider over a route.
unfoldable pub route_parameters : String → ModelParameters → ModelRoute → Result ModelParameters
route_parameters base_url defaults route = on_ok (upstream_url base_url route.api_protocol) λ url.
    resolve_route_parameters route.api_protocol route.preset_id route.upstream_model
      (budget_is_total route.budget_semantics) defaults no_parameters route.parameter_overrides

-- `except ValueError`
unfoldable pub as_parameter_error : Result ModelParameters → Result (Unit {0})
as_parameter_error (ok parameters) = ok tt
as_parameter_error (err value_error) = err (api_error 422 invalid_model_parameters)
as_parameter_error (err e) = err e

-- The loop over the provider's routes.
unfoldable pub check_routes : ℕ → ProviderInput → Table ModelRoute → Result (Unit {0})
check_routes provider_id body [] = ok tt
check_routes provider_id body ((id, route) ∷ routes) =
    let rest = check_routes provider_id body routes in
    if route.provider_id == provider_id
    then on_ok (as_parameter_error (route_parameters body.base_url body.parameter_defaults route))
        (λ x. rest)
    else rest

abbrev pub key_or : Option ℕ → ℕ → ℕ
key_or none old = old
key_or (some key) old = key

abbrev pub is_given : Option ℕ → Bool
is_given none = false
is_given (some key) = true

unfoldable pub edit_provider : ℕ → ProviderInput → Exec Catalog Unit
edit_provider id body = do
  row ← gets (λ db. get id db.providers)
  match_option row (raise (api_error 404 not_found)) λ provider.
      if not (text_eq body.base_url provider.base_url) && not (is_given body.api_key)
      then raise (api_error 422 key_required_for_new_destination)
      else do
        routes ← gets (λ db. db.routes)
        lift (check_routes id body routes)
        write_providers
            (update id (λ old. provider_of body (key_or body.api_key old.encrypted_key)))

-- The route with an alias.
unfoldable pub find_alias : String → Table ModelRoute → Option (ℕ × ModelRoute)
find_alias alias [] = none
find_alias alias ((id, route) ∷ routes) =
    if text_eq route.alias alias then some (id, route) else find_alias alias routes

abbrev pub given {ℓ} : {A : Type ℓ} → Option A → A → A
given none old = old
given (some new) old = new

-- The fields of a route that is not there yet.
abbrev pub blank_preset : Option ModelRoute → PresetId
blank_preset none = custom
blank_preset (some row) = row.preset_id

abbrev pub blank_protocol : Option ModelRoute → Protocol
blank_protocol none = chat_completions
blank_protocol (some row) = row.api_protocol

abbrev pub blank_output : Option ModelRoute → StructuredOutput
blank_output none = unknown_output
blank_output (some row) = row.structured_output

abbrev pub blank_budget : Option ModelRoute → BudgetSemantics
blank_budget none = unknown_budget
blank_budget (some row) = row.budget_semantics

abbrev pub has_v2 : Option ModelRoute → Bool
has_v2 none = true
has_v2 (some row) = row.capabilities_v2_enabled

-- `preset != "custom" or protocol == "responses" or structured_output != "unknown"`
abbrev pub is_plain : PresetId → Protocol → StructuredOutput → Bool
is_plain custom responses output = false
is_plain custom protocol unknown_output = true
is_plain preset protocol output = false

unfoldable pub route_values : RouteInput → Option ModelRoute → ModelRoute
route_values body row =
    let preset = given body.preset_id (blank_preset row) in
    let protocol = given body.api_protocol (blank_protocol row) in
    let output = given body.structured_output (blank_output row) in
    record {
      alias = body.alias;
      display_name = body.display_name;
      provider_id = body.provider_id;
      upstream_model = body.upstream_model;
      enabled = body.enabled;
      parameter_overrides = body.parameter_overrides;
      preset_id = preset;
      api_protocol = protocol;
      structured_output = output;
      budget_semantics = given body.budget_semantics (blank_budget row);
      capabilities_v2_enabled = not (is_plain preset protocol output) || has_v2 row;
    }

-- `existing and (not row or row.id != existing.id)`
abbrev pub is_other : Option (ℕ × ModelRoute) → Option ℕ → Bool
is_other none row = false
is_other (some existing) none = true
is_other (some existing) (some id) = not (existing.0 == id)

abbrev pub is_renamed : Option ModelRoute → String → Bool
is_renamed none alias = false
is_renamed (some row) alias = not (text_eq row.alias alias)

unfoldable pub put_route : Option ModelRoute → ℕ → ModelRoute → Exec Catalog Unit
put_route none id route = do
  taken ← gets (λ db. get id db.routes)
  match_option taken (write_routes (insert id route)) λ _. raise integrity_error
put_route (some row) id route = write_routes (update id (λ old. route))

-- `save_route` for the route `row` with the key `id`, or for a new one that gets this key.
unfoldable pub save_row : ℕ → Option ModelRoute → RouteInput → Exec Catalog Unit
save_row id row body = do
  found ← gets (λ db. get body.provider_id db.providers)
  match_option found (raise (api_error 404 not_found)) λ provider. do
    existing ← gets (λ db. find_alias body.alias db.routes)
    if is_other existing (elim row [ none ↦ none | some r ↦ some id ])
        then raise (api_error 409 model_alias_exists)
        else if is_renamed row body.alias
        then raise (api_error 409 alias_immutable)
        else do
          let route = route_values body row
          lift (
              as_parameter_error
                (route_parameters provider.base_url provider.parameter_defaults route))
          put_route row id route

unfoldable pub create_route : ℕ → RouteInput → Exec Catalog Unit
create_route id body = save_row id none body

unfoldable pub update_route : ℕ → RouteInput → Exec Catalog Unit
update_route id body = do
  row ← gets (λ db. get id db.routes)
  match_option row (raise (api_error 404 not_found)) λ route. save_row id (some route) body
