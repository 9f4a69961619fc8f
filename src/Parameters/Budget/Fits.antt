-- ===== src/Parameters/Budget/Fits.antt =====
-- app/model_presets.py: a budget that a caller asked for is sent under the key that goes with the
-- protocol and the preset of the route.
use opsark_admin.Common.{
  ℕ, ◌≡◌, refl, Bool, true, ◌&&◌, ◌||◌, Option, none, some, String, arith, Bool-cases, Option-cases,
  ◌∙◌, subst, inl, inr,
}
use opsark_admin.Errors.{ok}
use opsark_admin.Parameters.{ModelParameters, is_set}
use opsark_admin.Parameters.Presets.{
  Preset, PresetId, deepseek_chat, qwen_chat, openai_gpt41, get_preset, requested,
  preserve_output_ceiling, rename_budget, mixes_budgets, is_thinking, is_no_effort, adapt,
  map_to_preset, resolve_layers, resolve_parameters, preset_defaults,
}
use opsark_admin.Parameters.Routes.{
  Protocol, chat_completions, responses, other_protocol, is_gpt41, as_output_budget, convert_layer,
  resolve_responses, resolve_chat, resolve_by, resolve_route_parameters, validate_route_protocol,
}
use opsark_admin.Parameters.Ceiling.{on_ok_inv, adapt_budgets}
use opsark_admin.Parameters.Budget.{
  has_chat_budget, has_budget, is_chat, is_output, cap_budget-same, either, or_else,
  merge_parameters-has_budget, merge_parameters-is_chat, merge_parameters-is_output,
  add_layer-has_budget, add_layer-is_chat,
}

-- The budget stands where the protocol and the preset want it.
abbrev pub fits_preset : Preset → ModelParameters → Bool
fits_preset openai_gpt41 p = is_set p.max_completion_tokens
fits_preset _ p = is_set p.max_tokens

abbrev pub fits : Protocol → Option Preset → ModelParameters → Bool
fits responses preset p = is_set p.max_output_tokens
fits _ none p = is_set p.max_tokens || is_set p.max_completion_tokens
fits _ (some preset) p = fits_preset preset p

ceiling_chat_budget :
    (p request : ModelParameters)
    → has_chat_budget (preserve_output_ceiling p request) ≡ has_chat_budget p
unfolding preserve_output_ceiling
ceiling_chat_budget p request = elim (Option-cases (requested request)) [
  | inl free ↦ rw (preserve_output_ceiling, free) refl
  | inr (limit, asked) ↦
      let (tokens, completion, output) = cap_budget-same limit p in
      rw (preserve_output_ceiling, asked, tokens, completion) refl
]

ceiling_output_budget :
    (p request : ModelParameters)
    → is_set (preserve_output_ceiling p request).max_output_tokens ≡ is_set p.max_output_tokens
unfolding preserve_output_ceiling
ceiling_output_budget p request = elim (Option-cases (requested request)) [
  | inl free ↦ rw (preserve_output_ceiling, free) refl
  | inr (limit, asked) ↦
      let (tokens, completion, output) = cap_budget-same limit p in
      rw (preserve_output_ceiling, asked, output) refl
]

rename_budget-fits :
    (preset : Preset) (p : ModelParameters)
    → has_chat_budget p ≡ true
    → fits_preset preset (rename_budget preset p) ≡ true
unfolding rename_budget
rename_budget-fits openai_gpt41 p h = ground (arith, h)
rename_budget-fits qwen_chat p h = ground (arith, h)
rename_budget-fits deepseek_chat p h = ground (arith, h)

adapt-fits :
    (preset : Preset) (request p q : ModelParameters)
    → adapt preset request p ≡ ok q
    → fits_preset preset p ≡ true
    → fits_preset preset q ≡ true
adapt-fits preset request p q e h =
    let (tokens, completion, output) = adapt_budgets preset request p q e in
    go preset tokens completion h
  where
    go :
        (preset : Preset)
        → q.max_tokens ≡ p.max_tokens
        → q.max_completion_tokens ≡ p.max_completion_tokens
        → fits_preset preset p ≡ true
        → fits_preset preset q ≡ true
    go openai_gpt41 tokens completion h = rw completion h
    go qwen_chat tokens completion h = rw tokens h
    go deepseek_chat tokens completion h = rw tokens h

map_to_preset-fits :
    (preset : Preset) (request merged p : ModelParameters)
    → has_chat_budget merged ≡ true
    → map_to_preset preset request merged ≡ ok p
    → fits_preset preset p ≡ true
unfolding map_to_preset
map_to_preset-fits preset request merged p h e =
    let capped = preserve_output_ceiling merged request in
    elim (Bool-cases (mixes_budgets preset request capped)) [
      | inl mixed ↦ cc (rw mixed at e)
      | inr apart ↦ elim (Bool-cases (is_thinking capped && is_no_effort capped.reasoning_effort)) [
        | inl conflict ↦ cc (rw (apart, conflict) at e)
        | inr agrees ↦
            adapt-fits preset request (rename_budget preset capped) p (rw (apart, agrees) at e)
              (rename_budget-fits preset capped (ceiling_chat_budget merged request ∙ h))
      ]
    ]

pub requested-has_budget :
    (request : ModelParameters) (limit : ℕ)
    → requested request ≡ some limit
    → has_budget request ≡ true
requested-has_budget request limit asked = ground (arith, asked)

chat_budget :
    (p : ModelParameters) → has_budget p ≡ true → is_chat p ≡ true → has_chat_budget p ≡ true
chat_budget p h k = ground (arith, h, k)

output_set :
    (p : ModelParameters)
    → has_budget p ≡ true
    → is_output p ≡ true
    → is_set p.max_output_tokens ≡ true
output_set p h k = ground (arith, h, k)

preset_defaults-is_chat : (preset : Preset) → is_chat (preset_defaults preset) ≡ true
preset_defaults-is_chat deepseek_chat = refl
preset_defaults-is_chat qwen_chat = refl
preset_defaults-is_chat openai_gpt41 = refl

module _ (d r o p : ModelParameters) (asked : has_budget r ≡ true) where
  resolve_layers-fits :
      (found : Option Preset)
      → is_chat d ≡ true
      → is_chat r ≡ true
      → is_chat o ≡ true
      → resolve_layers found d r o ≡ ok p
      → fits chat_completions found p ≡ true
  unfolding resolve_layers
  resolve_layers-fits none f g h e =
      let (merged, m, last_step) = on_ok_inv _ _ p e in
      let same : preserve_output_ceiling merged r ≡ p = cc last_step in
      rw (← same) (
        ceiling_chat_budget merged r
        ∙ chat_budget merged
            (merge_parameters-has_budget d r o merged m
              (or_else (has_budget d) _ (either (has_budget r) (has_budget o) asked)))
            (merge_parameters-is_chat d r o merged m f g h))
  resolve_layers-fits (some preset) f g h e =
      let (first, a, rest1) = on_ok_inv _ _ p e in
      let (second, b, rest2) = on_ok_inv _ _ p rest1 in
      let (merged, m, rest3) = on_ok_inv _ _ p rest2 in
      let one = add_layer-is_chat _ d first a (preset_defaults-is_chat preset) f in
      let two = add_layer-is_chat first r second b one g in
      map_to_preset-fits preset r merged p
        (chat_budget merged
          (add_layer-has_budget second o merged m (
            either (has_budget second) (has_budget o) (
              add_layer-has_budget first r second b
                (or_else (has_budget first) (has_budget r) asked))))
          (add_layer-is_chat second o merged m two h))
        rest3

  resolve_chat-fits :
      (preset_id : PresetId) (model : String)
      → resolve_chat preset_id model d r o ≡ ok p
      → (preset : Option Preset) × (get_preset preset_id model ≡ ok preset)
        × (fits chat_completions preset p ≡ true)
  unfolding resolve_chat resolve_parameters
  resolve_chat-fits preset_id model e =
      elim (Bool-cases (
        is_set d.max_output_tokens || (is_set r.max_output_tokens || is_set o.max_output_tokens))) [
          | inl bad ↦ cc (rw bad at e)
          | inr good ↦
              let (preset, known_preset, rest) = on_ok_inv _ _ p (rw good at e) in
              (
                preset,
                known_preset,
                resolve_layers-fits preset (ground (arith, good)) (ground (arith, good))
                    (ground (arith, good)) rest,
              )
        ]

convert_layer_budgets :
    (preset_id : PresetId) (total : Bool) (layer q : ModelParameters)
    → convert_layer preset_id total layer ≡ ok q
    → (is_output q ≡ true) × (has_budget layer ≡ true → has_budget q ≡ true)
unfolding convert_layer as_output_budget
convert_layer_budgets preset_id total layer q e = (ground (arith, e), λ h. ground (arith, e, h))

module _ (d r o p : ModelParameters) (asked : has_budget r ≡ true) (preset_id : PresetId)
    (model : String) where
  resolve_responses-fits :
      (total : Bool)
      → resolve_responses preset_id total d r o ≡ ok p
      → is_set p.max_output_tokens ≡ true
  unfolding resolve_responses
  resolve_responses-fits total e =
      let (first, a, rest1) = on_ok_inv _ _ p e in
      let (second, b, rest2) = on_ok_inv _ _ p rest1 in
      let (third, c, rest3) = on_ok_inv _ _ p rest2 in
      let (merged, m, last_step) = on_ok_inv _ _ p rest3 in
      let same : preserve_output_ceiling merged r ≡ p = cc last_step in
      let (f, f_kept) = convert_layer_budgets preset_id total d first a in
      let (g, g_kept) = convert_layer_budgets preset_id total r second b in
      let (h, h_kept) = convert_layer_budgets preset_id total o third c in
      rw (← same) (
        ceiling_output_budget merged r
        ∙ output_set merged
            (merge_parameters-has_budget first second third merged m (
              or_else (has_budget first) _
                (either (has_budget second) (has_budget third) (g_kept asked))))
            (merge_parameters-is_output first second third merged m f g h))

  -- The same for every protocol that there is.
  pub resolve_route_parameters-fits :
      (protocol : Protocol) (total : Bool) (preset : Option Preset)
      → get_preset preset_id model ≡ ok preset
      → resolve_route_parameters protocol preset_id model total d r o ≡ ok p
      → fits protocol preset p ≡ true
  unfolding resolve_route_parameters resolve_by validate_route_protocol
  resolve_route_parameters-fits responses total preset known_preset e =
      let (u, checked, rest) = on_ok_inv _ _ p e in
      resolve_responses-fits (is_gpt41 preset_id || total) rest
  resolve_route_parameters-fits chat_completions total preset known_preset e =
      let (u, checked, rest) = on_ok_inv _ _ p e in
      let (found, there, good) = resolve_chat-fits d r o p asked preset_id model rest in
      let same : found ≡ preset = cc (there, known_preset) in
      subst (λ q. fits chat_completions q p ≡ true) same good
  resolve_route_parameters-fits other_protocol total preset known_preset e =
      let (u, checked, rest) = on_ok_inv _ _ p e in absurd (cc checked)
