-- ===== src/Parameters/Presets.antt =====
-- app/model_presets.py: how a route's preset maps the merged parameters to what its vendor accepts.
use opsark_admin.Common.{
  ℕ, Bool, true, false, ◌&&◌, ◌||◌, not, Option, none, some, List, [], ◌∷◌, String, any, leb, ltb,
  if◌then◌else◌,
}
use opsark_admin.Errors.{
  Result, ok, err, api_error, value_error, unknown_model_preset, preset_model_mismatch,
  preset_parameter_unsupported, preset_output_limit,
}
use opsark_admin.Accounts.{text_eq}
use opsark_admin.Parameters.{
  Effort, ModelParameters, no_parameters, is_set, asks_effort, merge_parameters,
}

-- PRESETS by their ids.
pub data Preset : Type 0 where
  deepseek_chat qwen_chat openai_gpt41 : Preset

-- The text of a route's preset: "custom", a key of PRESETS, or none of these.
pub data PresetId : Type 0 where
  custom unknown : PresetId
  known : Preset → PresetId

abbrev pub preset_models : Preset → List String
preset_models deepseek_chat = "deepseek-flash" ∷ "deepseek-v4-pro" ∷ []
preset_models qwen_chat = "qwen-plus" ∷ "qwen-flash" ∷ []
preset_models openai_gpt41 = "gpt-4.1" ∷ "gpt-4.1-mini" ∷ []

abbrev pub preset_defaults : Preset → ModelParameters
preset_defaults openai_gpt41 = no_parameters
preset_defaults _ = record no_parameters { thinking = some false }

unfoldable pub get_preset : PresetId → String → Result (Option Preset)
get_preset custom model = ok none
get_preset unknown model = err (api_error 422 unknown_model_preset)
get_preset (known preset) model =
    if any (text_eq model) (preset_models preset)
    then ok (some preset)
    else err (api_error 422 preset_model_mismatch)

-- An exception ends the function.
unfoldable pub on_ok {ℓ κ} : {A : Type ℓ} {B : Type κ} → Result A → (A → Result B) → Result B
on_ok (ok a) next = next a
on_ok (err e) next = err e

abbrev pub first_set : Option ℕ → Option ℕ → Option ℕ
first_set none second = second
first_set (some n) second = some n

-- The caller's explicit budget.
abbrev pub requested : ModelParameters → Option ℕ
requested request =
    first_set request.max_tokens (first_set request.max_completion_tokens request.max_output_tokens)

abbrev pub cap : ℕ → ℕ → ℕ
cap limit n = if ltb limit n then limit else n

-- Only the first budget that is set is capped.
unfoldable pub cap_budget : ℕ → ModelParameters → ModelParameters
cap_budget limit p = elim p.max_tokens [
  | some n ↦ record p { max_tokens = some (cap limit n) }
  | none ↦ elim p.max_completion_tokens [
    | some n ↦ record p { max_completion_tokens = some (cap limit n) }
    | none ↦ elim p.max_output_tokens [
      | some n ↦ record p { max_output_tokens = some (cap limit n) }
      | none ↦ p
    ]
  ]
]

unfoldable pub preserve_output_ceiling : ModelParameters → ModelParameters → ModelParameters
preserve_output_ceiling result request = elim (requested request) [
  | none ↦ result
  | some limit ↦ cap_budget limit result
]

abbrev pub effort_enables : Effort → Bool
effort_enables Effort.none_at_all = false
effort_enables _ = true

abbrev pub mode_of : Option Bool → Option Effort → Option Bool
mode_of none none = none
mode_of none (some e) = some (effort_enables e)
mode_of (some b) effort = some b

-- A layer with its aliases mapped to `thinking`.
unfoldable pub canonical : ModelParameters → ModelParameters
canonical layer = record layer {
  enable_thinking = none;
  thinking = elim layer.enable_thinking [
    | none ↦ mode_of layer.thinking layer.reasoning_effort
    | some b ↦ some b
  ];
}

-- `result.pop("reasoning_effort", None)`
unfoldable pub without_stale_effort : ModelParameters → ModelParameters → ModelParameters
without_stale_effort result layer =
    if is_set layer.thinking && not (is_set layer.reasoning_effort)
    then record result { reasoning_effort = none }
    else result

-- The body of the loop over the layers.
unfoldable pub add_layer : ModelParameters → ModelParameters → Result ModelParameters
add_layer result values = on_ok (merge_parameters no_parameters values no_parameters) λ layer.
    merge_parameters (without_stale_effort result (canonical layer)) (canonical layer) no_parameters

abbrev pub is_thinking : ModelParameters → Bool
is_thinking p = elim p.thinking [ some true ↦ true | _ ↦ false ]

abbrev pub is_no_effort : Option Effort → Bool
is_no_effort (some Effort.none_at_all) = true
is_no_effort _ = false

-- `if source in result: result[target] = result.pop(source)`
unfoldable pub rename_budget : Preset → ModelParameters → ModelParameters
rename_budget openai_gpt41 p = elim p.max_tokens [
  | none ↦ p
  | some n ↦ record p { max_completion_tokens = some n; max_tokens = none }
]
rename_budget _ p = elim p.max_completion_tokens [
  | none ↦ p
  | some n ↦ record p { max_tokens = some n; max_completion_tokens = none }
]

abbrev pub at_least : ℕ → Option ℕ → Bool
at_least bound none = false
at_least bound (some n) = leb bound n

unfoldable pub adapt_qwen : ModelParameters → Result ModelParameters
adapt_qwen p =
    if asks_effort p.reasoning_effort || (at_least 200 p.temperature || is_set p.frequency_penalty)
    then err (api_error 422 preset_parameter_unsupported)
    else ok (record p {
      reasoning_effort = none;
      thinking = none;
      enable_thinking = some (is_thinking p);
    })

unfoldable pub adapt_gpt41 : ModelParameters → Result ModelParameters
adapt_gpt41 p =
    if is_thinking p || asks_effort p.reasoning_effort
    then err (api_error 422 preset_parameter_unsupported)
    else if at_least 32769 p.max_completion_tokens
    then err (api_error 422 preset_output_limit)
    else ok (record p { thinking = none; reasoning_effort = none })

abbrev pub is_medium : Option Effort → Bool
is_medium (some Effort.medium) = true
is_medium _ = false

-- `"top_p" in result and (not thinking or result["top_p"] < 0.95)`
abbrev pub ignores_top_p : ModelParameters → Bool
ignores_top_p p = elim p.top_p [ none ↦ false | some n ↦ not (is_thinking p) || ltb n 95 ]

abbrev pub when {ℓ} : {A : Type ℓ} → Bool → Option A → Option A
when true value = none
when false value = value

unfoldable pub adapt_deepseek : ModelParameters → ModelParameters → Result ModelParameters
adapt_deepseek request p =
    let thinking = is_thinking p in
    if is_medium p.reasoning_effort
      || ((thinking
            && ((is_set p.temperature && is_set request.temperature)
                || ((is_set p.presence_penalty && is_set request.presence_penalty)
                    || (is_set p.frequency_penalty && is_set request.frequency_penalty))))
          || (ignores_top_p p && is_set request.top_p))
    then err (api_error 422 preset_parameter_unsupported)
    else ok (record p {
      temperature = when thinking p.temperature;
      presence_penalty = when thinking p.presence_penalty;
      frequency_penalty = when thinking p.frequency_penalty;
      top_p = when (ignores_top_p p) p.top_p;
    })

unfoldable pub adapt : Preset → ModelParameters → ModelParameters → Result ModelParameters
adapt qwen_chat request p = adapt_qwen p
adapt openai_gpt41 request p = adapt_gpt41 p
adapt deepseek_chat request p = adapt_deepseek request p

-- The total budget of a thinking model is no budget of the answer alone.
unfoldable pub mixes_budgets : Preset → ModelParameters → ModelParameters → Bool
mixes_budgets qwen_chat request p =
    is_thinking p && (is_set p.max_completion_tokens || is_set request.max_completion_tokens)
mixes_budgets _ request p = false

-- `resolve_parameters` for a preset, once the layers are merged.
unfoldable pub map_to_preset : Preset → ModelParameters → ModelParameters → Result ModelParameters
map_to_preset preset request merged =
    let capped = preserve_output_ceiling merged request in
    if mixes_budgets preset request capped
    then err (api_error 422 preset_parameter_unsupported)
    else if is_thinking capped && is_no_effort capped.reasoning_effort
    then err value_error
    else adapt preset request (rename_budget preset capped)

-- `resolve_parameters` once the preset is known.
unfoldable pub resolve_layers :
    Option Preset → ModelParameters → ModelParameters → ModelParameters → Result ModelParameters
resolve_layers none defaults request overrides =
    on_ok (merge_parameters defaults request overrides)
      λ merged. ok (preserve_output_ceiling merged request)
resolve_layers (some preset) defaults request overrides =
    on_ok (add_layer (preset_defaults preset) defaults) λ first.
      on_ok (add_layer first request)
        λ second. on_ok (add_layer second overrides) λ merged. map_to_preset preset request merged

unfoldable pub resolve_parameters :
    PresetId → String → ModelParameters → ModelParameters → ModelParameters → Result ModelParameters
resolve_parameters preset_id model defaults request overrides =
    on_ok (get_preset preset_id model) λ found. resolve_layers found defaults request overrides
