-- ===== src/Parameters/Tests.antt =====
-- app/model_parameters.py and app/model_presets.py at one route and request.
use opsark_admin.Common.{◌≡◌, refl, true, some}
use opsark_admin.Errors.{ok}
use opsark_admin.Parameters.{
  ModelParameters, no_parameters, one_budget, merge_layers, compatible, in_range, validate,
  merge_layer, merge_parameters,
}
use opsark_admin.Parameters.Presets.{
  PresetId, openai_gpt41, requested, first_set, on_ok, get_preset, cap_budget,
  preserve_output_ceiling, canonical, without_stale_effort, add_layer, rename_budget, adapt_gpt41,
  adapt, mixes_budgets, map_to_preset, resolve_layers, resolve_parameters,
}
use opsark_admin.Parameters.Routes.{
  Protocol, validate_route_protocol, resolve_chat, resolve_by, resolve_route_parameters,
}
use opsark_admin.Parameters.Ceiling.{IsCapped, resolve_route_parameters-IsCapped}
use opsark_admin.Parameters.Merge.{merge_layers_lem}

abbrev provider_defaults : ModelParameters
provider_defaults = record no_parameters { max_completion_tokens = some 500; temperature = some 20 }

abbrev caller : ModelParameters
caller = record no_parameters { max_tokens = some 100 }

abbrev forced : ModelParameters
forced = record no_parameters { max_tokens = some 400 }

abbrev sent : ModelParameters
sent = record no_parameters { max_completion_tokens = some 100; temperature = some 20 }

resolved :
    resolve_route_parameters Protocol.chat_completions
      (PresetId.known openai_gpt41)
      "gpt-4.1"
      true
      provider_defaults
      caller
      forced
    ≡ ok sent
unfolding resolve_route_parameters validate_route_protocol resolve_by resolve_chat
    resolve_parameters resolve_layers on_ok get_preset add_layer canonical without_stale_effort
    merge_parameters merge_layer validate compatible in_range map_to_preset mixes_budgets
    preserve_output_ceiling cap_budget rename_budget adapt adapt_gpt41
resolved = refl

resolve_route_parameters-IsCapped_example : IsCapped 100 sent
resolve_route_parameters-IsCapped_example =
    resolve_route_parameters-IsCapped Protocol.chat_completions (PresetId.known openai_gpt41)
      "gpt-4.1" true provider_defaults caller forced sent 100 refl resolved

merge_layers_lem_example :
    (one_budget (merge_layers provider_defaults caller forced) ≡ true)
    × (requested (merge_layers provider_defaults caller forced)
        ≡ first_set (some 400) (first_set (some 100) (some 500)))
merge_layers_lem_example = merge_layers_lem provider_defaults caller forced refl refl refl
