-- ===== src/Catalog/Tests.antt =====
-- app/gateway.py: the administration of models at a small catalogue.
use opsark_admin.Common.{
  ◌≡◌, refl, true, Option, none, some, [], Bool-cases, inl, inr, ◌==◌, ◌∷◌, arith,
}
use opsark_admin.Errors.{ok, err, api_error, invalid_model_key}
use opsark_admin.Exec.{◌>>=◌}
use opsark_admin.Parameters.{
  no_parameters, merge_parameters, merge_layer, validate, compatible, in_range,
}
use opsark_admin.Parameters.Presets.{
  custom, on_ok, get_preset, preserve_output_ceiling, resolve_parameters, resolve_layers,
}
use opsark_admin.Parameters.Routes.{
  chat_completions, validate_route_protocol, resolve_chat, resolve_by, resolve_route_parameters,
}
use opsark_admin.Protocols.Address.{upstream_url}
use opsark_admin.Catalog.{
  Provider, ModelRoute, Catalog, ProviderInput, RouteInput, unknown_output, unknown_budget,
  route_parameters, edit_provider, create_route,
}
use opsark_admin.Catalog.Served.{CanServe, IsServed, edit_provider-IsServed, create_route-IsServed}
use opsark_admin.Catalog.Keys.{
  KeyInput, new_key, enabled_aliases, find_key, add_key, create_key, require_key,
  create_key-require_key,
}

abbrev provider : Provider
provider = record {
  name = "main";
  base_url = "https://models.example/v1";
  encrypted_key = 4;
  enabled = true;
  timeout_seconds = 60;
  parameter_defaults = no_parameters;
}

abbrev route : ModelRoute
route = record {
  alias = "fast";
  display_name = "fast";
  provider_id = 1;
  upstream_model = "m";
  enabled = true;
  parameter_overrides = no_parameters;
  preset_id = custom;
  api_protocol = chat_completions;
  structured_output = unknown_output;
  budget_semantics = unknown_budget;
  capabilities_v2_enabled = true;
}

abbrev catalog : Catalog
catalog = record { providers = (1, provider) ∷ []; routes = (2, route) ∷ []; keys = [] }

route-CanServe : CanServe route catalog.providers
unfolding route_parameters upstream_url on_ok resolve_route_parameters validate_route_protocol
    resolve_by resolve_chat resolve_parameters get_preset merge_parameters merge_layer validate
    compatible in_range preserve_output_ceiling resolve_layers
route-CanServe = (provider, refl, (no_parameters, refl))

is_route : (r : ModelRoute) → ◌≡◌ {A = Option ModelRoute} (some route) (some r) → route ≡ r
is_route r e = cc

catalog-IsServed : IsServed catalog
catalog-IsServed = record {
  routes = λ id r found. elim (Bool-cases (id == 2)) [
    | inl hit ↦ rw (← is_route r (rw hit at found)) route-CanServe
    | inr miss ↦ absurd (ground (arith, rw miss at found))
  ];
}

abbrev moved : ProviderInput
moved = record {
  name = "main";
  base_url = "https://other.example/v1";
  api_key = some 5;
  enabled = true;
  timeout_seconds = 30;
  parameter_defaults = no_parameters;
}

edit_provider-IsServed_example : IsServed (edit_provider 1 moved catalog).1
edit_provider-IsServed_example = edit_provider-IsServed 1 moved catalog catalog-IsServed

abbrev second : RouteInput
second = record {
  alias = "slow";
  display_name = "slow";
  provider_id = 1;
  upstream_model = "m";
  enabled = true;
  parameter_overrides = no_parameters;
  preset_id = none;
  api_protocol = none;
  structured_output = none;
  budget_semantics = none;
}

create_route-IsServed_example : IsServed (create_route 3 second catalog).1
create_route-IsServed_example = create_route-IsServed 3 second catalog catalog-IsServed

abbrev wish : KeyInput
wish = record { owner = "ops"; allowed_models = "fast" ∷ []; expires_days = 1; rpm = 30 }

created : (create_key 6 77 wish 100 catalog).0 ≡ ok tt
unfolding create_key add_key new_key enabled_aliases find_key ◌>>=◌
created = refl

create_key-require_key_example :
    (require_key (some 77) 86400100 (create_key 6 77 wish 100 catalog).1).0
    ≡ err (api_error 401 invalid_model_key)
create_key-require_key_example = create_key-require_key 6 77 wish 100 86400100 catalog created
