-- ===== src/Parameters/Routes.antt =====
-- app/model_presets.py, `resolve_route_parameters`: the parameters that a route's protocol accepts.
use opsark_admin.Common.{Bool, true, false, ◌&&◌, ◌||◌, not, none, some, String, if◌then◌else◌}
use opsark_admin.Errors.{
  Result, ok, err, api_error, invalid_api_protocol, preset_protocol_unsupported,
  preset_parameter_unsupported, parameter_semantics_conflict, protocol_parameter_unsupported,
}
use opsark_admin.Parameters.{ModelParameters, is_set, merge_parameters}
use opsark_admin.Parameters.Presets.{
  PresetId, custom, known, openai_gpt41, on_ok, preserve_output_ceiling, resolve_parameters,
}

-- A route's protocol, and whether its `budget_semantics` is "total_output".
pub data Protocol : Type 0 where
  chat_completions responses other_protocol : Protocol

abbrev pub is_gpt41 : PresetId → Bool
is_gpt41 (known openai_gpt41) = true
is_gpt41 _ = false

abbrev pub offers_responses : PresetId → Bool
offers_responses custom = true
offers_responses preset_id = is_gpt41 preset_id

unfoldable pub validate_route_protocol : PresetId → Protocol → Result (Unit {0})
validate_route_protocol preset_id other_protocol = err (api_error 422 invalid_api_protocol)
validate_route_protocol preset_id chat_completions = ok tt
validate_route_protocol preset_id responses =
    if offers_responses preset_id then ok tt else err (api_error 422 preset_protocol_unsupported)

-- `layer["max_output_tokens"] = layer.pop("max_completion_tokens")`
unfoldable pub as_output_budget : ModelParameters → ModelParameters
as_output_budget layer = elim layer.max_completion_tokens [
  | none ↦ layer
  | some n ↦ record layer { max_output_tokens = some n; max_completion_tokens = none }
]

-- The loop's body for the Responses protocol.
unfoldable pub convert_layer : PresetId → Bool → ModelParameters → Result ModelParameters
convert_layer preset_id total_output layer =
    if is_set layer.max_tokens || (is_set layer.max_completion_tokens && not total_output)
    then err (api_error 422 parameter_semantics_conflict)
    else if (is_set layer.thinking || is_set layer.enable_thinking)
        || (is_set layer.presence_penalty || is_set layer.frequency_penalty)
    then err (api_error 422 protocol_parameter_unsupported)
    else if is_gpt41 preset_id && is_set layer.reasoning_effort
    then err (api_error 422 preset_parameter_unsupported)
    else ok (as_output_budget layer)

unfoldable pub resolve_responses :
    PresetId → Bool → ModelParameters → ModelParameters → ModelParameters → Result ModelParameters
resolve_responses preset_id total_output defaults request overrides =
    on_ok (convert_layer preset_id total_output defaults) λ first.
      on_ok (convert_layer preset_id total_output request) λ second.
        on_ok (convert_layer preset_id total_output overrides) λ third.
          on_ok (merge_parameters first second third)
            λ merged. ok (preserve_output_ceiling merged request)

unfoldable pub resolve_chat :
    PresetId → String → ModelParameters → ModelParameters → ModelParameters → Result ModelParameters
resolve_chat preset_id model defaults request overrides =
    if is_set defaults.max_output_tokens
      || (is_set request.max_output_tokens || is_set overrides.max_output_tokens)
    then err (api_error 422 protocol_parameter_unsupported)
    else resolve_parameters preset_id model defaults request overrides

unfoldable pub resolve_by :
    Protocol
    → PresetId
    → String
    → Bool
    → ModelParameters
    → ModelParameters
    → ModelParameters
    → Result ModelParameters
resolve_by responses preset_id model budget_is_total defaults request overrides =
    resolve_responses preset_id (is_gpt41 preset_id || budget_is_total) defaults request overrides
resolve_by _ preset_id model budget_is_total defaults request overrides =
    resolve_chat preset_id model defaults request overrides

unfoldable pub resolve_route_parameters :
    Protocol
    → PresetId
    → String
    → Bool
    → ModelParameters
    → ModelParameters
    → ModelParameters
    → Result ModelParameters
resolve_route_parameters protocol preset_id model budget_is_total defaults request overrides =
    on_ok (validate_route_protocol preset_id protocol)
      λ _. resolve_by protocol preset_id model budget_is_total defaults request overrides
