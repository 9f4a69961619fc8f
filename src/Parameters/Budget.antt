-- ===== src/Parameters/Budget.antt =====
-- app/model_parameters.py: a budget of one layer is a budget of the layers together.
pub mod Fits
use opsark_admin.Common.{
  ℕ, ◌≡◌, refl, Bool, true, false, ◌&&◌, ◌||◌, not, Option, none, some, String, arith, Bool-cases,
  Option-cases, ◌∙◌, subst, inl, inr,
}
use opsark_admin.Errors.{Result, ok, err}
use opsark_admin.Parameters.{
  ModelParameters, no_parameters, is_set, compatible, in_range, validate, merge_layer, merge_layers,
  merge_parameters,
}
use opsark_admin.Parameters.Presets.{
  Preset, PresetId, deepseek_chat, qwen_chat, openai_gpt41, get_preset, on_ok, requested,
  cap_budget, preserve_output_ceiling, canonical, without_stale_effort, add_layer, rename_budget,
  mixes_budgets, is_thinking, is_no_effort, adapt, map_to_preset, resolve_layers,
  resolve_parameters, preset_defaults,
}
use opsark_admin.Parameters.Routes.{
  Protocol, chat_completions, responses, other_protocol, is_gpt41, as_output_budget, convert_layer,
  resolve_responses, resolve_chat, resolve_by, resolve_route_parameters, validate_route_protocol,
}
use opsark_admin.Parameters.Ceiling.{on_ok_inv, adapt_budgets}

-- A budget is set, one other than `max_output_tokens` is, and `max_output_tokens` is not.
abbrev pub has_chat_budget : ModelParameters → Bool
has_chat_budget p = is_set p.max_tokens || is_set p.max_completion_tokens

abbrev pub has_budget : ModelParameters → Bool
has_budget p = has_chat_budget p || is_set p.max_output_tokens

abbrev pub is_chat : ModelParameters → Bool
is_chat p = not (is_set p.max_output_tokens)

abbrev pub is_output : ModelParameters → Bool
is_output p = not (has_chat_budget p)

validate_same : (q p : ModelParameters) → validate q ≡ ok p → q ≡ p
unfolding validate
validate_same q p e = elim (Bool-cases (compatible q && in_range q)) [
  | inl valid ↦ cc (rw valid at e)
  | inr invalid ↦ cc (rw invalid at e)
]

-- A budget of one of two layers is a budget of both together.
merge_layer-has_budget :
    (p q : ModelParameters)
    → (has_budget p || has_budget q) ≡ true
    → has_budget (merge_layer p q) ≡ true
unfolding merge_layer
merge_layer-has_budget p q h = ground (arith, h)

merge_layer-is_chat :
    (p q : ModelParameters) → is_chat p ≡ true → is_chat q ≡ true → is_chat (merge_layer p q) ≡ true
unfolding merge_layer
merge_layer-is_chat p q h k = ground (arith, h, k)

merge_layer-is_output :
    (p q : ModelParameters)
    → is_output p ≡ true
    → is_output q ≡ true
    → is_output (merge_layer p q) ≡ true
unfolding merge_layer
merge_layer-is_output p q h k = ground (arith, h, k)

pub cap_budget-same :
    (limit : ℕ) (p : ModelParameters)
    → (is_set (cap_budget limit p).max_tokens ≡ is_set p.max_tokens)
      × (is_set (cap_budget limit p).max_completion_tokens ≡ is_set p.max_completion_tokens)
      × (is_set (cap_budget limit p).max_output_tokens ≡ is_set p.max_output_tokens)
unfolding cap_budget
cap_budget-same limit p = (ground arith, ground arith, ground arith)

pub either : (a b : Bool) → a ≡ true → (a || b) ≡ true
either a b h = ground arith

pub or_else : (a b : Bool) → b ≡ true → (a || b) ≡ true
or_else a b h = ground arith

module _ (d r o p : ModelParameters) (e : merge_parameters d r o ≡ ok p) where
  merged-same : merge_layers d r o ≡ p
  unfolding merge_parameters
  merged-same = validate_same (merge_layers d r o) p e

  -- The budgets of the three layers.
  pub merge_parameters-has_budget :
      (has_budget d || (has_budget r || has_budget o)) ≡ true → has_budget p ≡ true
  merge_parameters-has_budget h =
      let first = merge_layer no_parameters d in
      let second = merge_layer first r in
      let kept : has_budget d ≡ true → has_budget first ≡ true =
        λ k. merge_layer-has_budget no_parameters d k in
      let both : (has_budget d || has_budget r) ≡ true → has_budget second ≡ true =
        λ k. merge_layer-has_budget first r (ground (arith, kept, k)) in
      rw (← merged-same) (merge_layer-has_budget second o (ground (arith, both, h)))

  pub merge_parameters-is_chat :
      is_chat d ≡ true → is_chat r ≡ true → is_chat o ≡ true → is_chat p ≡ true
  merge_parameters-is_chat f g h = rw (← merged-same) (
      merge_layer-is_chat _ o
        (merge_layer-is_chat _ r (merge_layer-is_chat no_parameters d refl f) g) h)

  pub merge_parameters-is_output :
      is_output d ≡ true → is_output r ≡ true → is_output o ≡ true → is_output p ≡ true
  merge_parameters-is_output f g h = rw (← merged-same) (
      merge_layer-is_output _ o
        (merge_layer-is_output _ r (merge_layer-is_output no_parameters d refl f) g) h)

-- The parts of a layer that hold budgets pass through.
layer_budgets :
    (result layer : ModelParameters)
    → (has_budget (without_stale_effort result (canonical layer)) ≡ has_budget result)
      × (is_chat (without_stale_effort result (canonical layer)) ≡ is_chat result)
unfolding without_stale_effort canonical
layer_budgets result layer = (ground arith, ground arith)

module _ (result values p : ModelParameters) (e : add_layer result values ≡ ok p) where
  pub add_layer-has_budget : (has_budget result || has_budget values) ≡ true → has_budget p ≡ true
  unfolding canonical add_layer
  add_layer-has_budget h =
      let (layer, validated, merged) = on_ok_inv _ _ p e in
      let (same, chat) = layer_budgets result layer in
      let kept : has_budget values ≡ true → has_budget layer ≡ true = λ k.
        merge_parameters-has_budget no_parameters values no_parameters layer validated
          (either (has_budget values) false k) in
      merge_parameters-has_budget _ _ _ p merged (ground (arith, same, kept, h))

  pub add_layer-is_chat : is_chat result ≡ true → is_chat values ≡ true → is_chat p ≡ true
  unfolding canonical add_layer
  add_layer-is_chat h k =
      let (layer, validated, merged) = on_ok_inv _ _ p e in
      let (same, chat) = layer_budgets result layer in
      merge_parameters-is_chat _ _ _ p merged (rw chat h)
        (merge_parameters-is_chat no_parameters values no_parameters layer validated refl k refl)
        refl
