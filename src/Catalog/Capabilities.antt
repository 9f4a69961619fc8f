-- ===== src/Catalog/Capabilities.antt =====
-- app/model_presets.py: what a route can do, as `route_capabilities_v2` tells the clients, and the
-- check of a request against its preset. The rules of the parameters for the pages are left out: they
-- follow from the preset, the protocol and the defaults. The digest of a revision is a parameter.
use opsark_admin.Common.{
  ℕ, Bool, true, false, ◌&&◌, ◌||◌, not, Option, none, some, List, [], ◌∷◌, String, if◌then◌else◌,
}
use opsark_admin.Errors.{
  Result, ok, err, api_error, invalid_response_format, upstream_schema_unsupported,
  preset_thinking_incompatible,
}
use opsark_admin.Accounts.{text_eq}
use opsark_admin.Json.{Json, null, str, object, find_field, is_member}
use opsark_admin.Parameters.{ModelParameters, no_parameters, is_set}
use opsark_admin.Parameters.Presets.{
  Preset, PresetId, known, qwen_chat, openai_gpt41, get_preset, cap,
}
use opsark_admin.Parameters.Routes.{Protocol, responses, is_gpt41, resolve_route_parameters}
use opsark_admin.Catalog.{
  StructuredOutput, unknown_output, json_object, json_schema, BudgetSemantics, total_output,
  budget_is_total, Provider, ModelRoute,
}

abbrev pub preset_formats : Preset → List String
preset_formats openai_gpt41 = "text" ∷ "json_object" ∷ "json_schema" ∷ []
preset_formats _ = "text" ∷ "json_object" ∷ []

-- The keys of a body that hold a budget.
pub data TokenField : Type 0 where
  max_tokens_field max_completion_field max_output_field : TokenField

abbrev pub preset_field : Preset → TokenField
preset_field openai_gpt41 = max_completion_field
preset_field _ = max_tokens_field

pub data OutputMode : Type 0 where
  supported unsupported unknown_mode : OutputMode

-- The formats of a route, by its preset or by what its administrator declares.
abbrev pub formats_of : Option Preset → StructuredOutput → List String
formats_of (some preset) declaration = preset_formats preset
formats_of none json_schema = "text" ∷ "json_object" ∷ "json_schema" ∷ []
formats_of none json_object = "text" ∷ "json_object" ∷ []
formats_of none unknown_output = "text" ∷ []

abbrev pub is_preset : Option Preset → Bool
is_preset none = false
is_preset (some preset) = true

unfoldable pub mode_of_kind : Option Preset → StructuredOutput → String → OutputMode
mode_of_kind preset declaration kind =
    if is_member kind (formats_of preset declaration)
    then supported
    else if is_preset preset
    then unsupported
    else unknown_mode

abbrev pub is_qwen : PresetId → Bool
is_qwen (known qwen_chat) = true
is_qwen _ = false

abbrev pub is_on : Option Bool → Bool
is_on (some b) = b
is_on none = false

-- A thinking model of this preset has no JSON output.
unfoldable pub output_mode :
    PresetId → Option Preset → StructuredOutput → ModelParameters → String → OutputMode
output_mode preset_id preset declaration defaults kind =
    if is_qwen preset_id && is_on defaults.enable_thinking
    then unsupported
    else mode_of_kind preset declaration kind

-- The key under which a budget is sent, where `completion` says that a body without a preset has the
-- key "max_completion_tokens".
abbrev pub token_field : Protocol → Option Preset → Bool → TokenField
token_field responses preset completion = max_output_field
token_field _ (some preset) completion = preset_field preset
token_field _ none completion = if completion then max_completion_field else max_tokens_field

abbrev pub budget_at : TokenField → ModelParameters → Option ℕ
budget_at max_tokens_field p = p.max_tokens
budget_at max_completion_field p = p.max_completion_tokens
budget_at max_output_field p = p.max_output_tokens

abbrev pub semantics_of : PresetId → BudgetSemantics → BudgetSemantics
semantics_of preset_id declared = if is_gpt41 preset_id then total_output else declared

-- What the digest of a revision is taken of.
pub record RevisionSource : Type 0 where
  pub preset_id : PresetId
  pub upstream_model : String
  pub base_url : String
  pub encrypted_key : ℕ
  pub protocol : Protocol
  pub object_mode : OutputMode
  pub schema_mode : OutputMode
  pub semantics : BudgetSemantics
  pub defaults : ModelParameters
  pub provider_defaults : ModelParameters
  pub overrides : ModelParameters

pub record Capabilities : Type 0 where
  pub revision : ℕ
  pub object_mode : OutputMode
  pub schema_mode : OutputMode
  pub tokens_at : TokenField
  pub default_output_tokens : ℕ
  pub semantics : BudgetSemantics

abbrev pub or_limit : Option ℕ → ℕ
or_limit none = 16384
or_limit (some n) = cap 16384 n

unfoldable pub revision_source :
    ModelRoute → Provider → Option Preset → ModelParameters → RevisionSource
revision_source route provider preset defaults =
    let mode = output_mode route.preset_id preset route.structured_output defaults in
    record {
      preset_id = route.preset_id;
      upstream_model = route.upstream_model;
      base_url = provider.base_url;
      encrypted_key = provider.encrypted_key;
      protocol = route.api_protocol;
      object_mode = mode "json_object";
      schema_mode = mode "json_schema";
      semantics = semantics_of route.preset_id route.budget_semantics;
      defaults = defaults;
      provider_defaults = provider.parameter_defaults;
      overrides = route.parameter_overrides;
    }

unfoldable pub described :
    (RevisionSource → ℕ) → ModelRoute → Provider → Option Preset → ModelParameters → Capabilities
described digest route provider preset defaults =
    let source = revision_source route provider preset defaults in
    let at = token_field route.api_protocol preset (is_set defaults.max_completion_tokens) in
    record {
      revision = digest source;
      object_mode = source.object_mode;
      schema_mode = source.schema_mode;
      tokens_at = at;
      default_output_tokens = or_limit (budget_at at defaults);
      semantics = source.semantics;
    }

-- The parameters of a call that has none of its own.
unfoldable pub default_parameters : ModelRoute → Provider → Result ModelParameters
default_parameters route provider =
    resolve_route_parameters route.api_protocol route.preset_id route.upstream_model
      (budget_is_total route.budget_semantics) provider.parameter_defaults no_parameters
      route.parameter_overrides

unfoldable pub route_capabilities_v2 :
    (RevisionSource → ℕ) → ModelRoute → Provider → Option Capabilities
route_capabilities_v2 digest route provider =
    if not route.capabilities_v2_enabled
    then none
    else elim (get_preset route.preset_id route.upstream_model) [
      | err e ↦ none
      | ok preset ↦ elim (default_parameters route provider) [
        | err e ↦ none
        | ok defaults ↦ some (described digest route provider preset defaults)
      ]
    ]

-- The kind of the `response_format` of a body; none if it has no text for its type.
abbrev pub kind_of_type : Option Json → Option String
kind_of_type (some (str s)) = some s
kind_of_type _ = none

abbrev pub kind_of : Option Json → Option String
kind_of none = some "text"
kind_of (some null) = some "text"
kind_of (some (object fields)) = kind_of_type (find_field "type" fields)
kind_of _ = none

-- Of a body, the thinking that is sent with it and whether it is a stream.
unfoldable pub check_kind : Preset → String → Option Bool → Bool → Result (Unit {0})
check_kind preset kind thinking streamed =
    if not (is_member kind ("text" ∷ "json_object" ∷ "json_schema" ∷ []))
    then err (api_error 422 invalid_response_format)
    else if not (is_member kind (preset_formats preset))
    then err (api_error 400 upstream_schema_unsupported)
    else if is_qwen (known preset)
        && (is_on thinking && (not (text_eq kind "text") || not streamed))
    then err (api_error 422 preset_thinking_incompatible)
    else ok tt

unfoldable pub validate_request_capabilities :
    Option Preset → Option Json → Option Bool → Bool → Result (Unit {0})
validate_request_capabilities none format thinking streamed = ok tt
validate_request_capabilities (some preset) format thinking streamed = elim (kind_of format) [
  | none ↦ err (api_error 422 invalid_response_format)
  | some kind ↦ check_kind preset kind thinking streamed
]
