-- ===== src/Parameters/Ceiling.antt =====
-- app/model_presets.py: configuration never raises the output budget that a caller asked for.
use opsark_admin.Common.{
  ℕ, ◌≡◌, refl, Bool, true, ◌&&◌, ◌||◌, Option, none, some, String, ◌≤◌, arith, Bool-cases, inl,
  inr,
}
use opsark_admin.Errors.{Result, ok, err}
use opsark_admin.Parameters.{
  ModelParameters, is_set, one_budget, compatible, in_range, validate, merge_layers,
  merge_parameters,
}
use opsark_admin.Parameters.Presets.{
  Preset, PresetId, resolve_layers, mixes_budgets, is_thinking, is_no_effort, deepseek_chat,
  qwen_chat, openai_gpt41, on_ok, requested, cap_budget, preserve_output_ceiling, add_layer,
  rename_budget, adapt_qwen, adapt_gpt41, adapt_deepseek, adapt, map_to_preset, resolve_parameters,
}
use opsark_admin.Parameters.Routes.{
  Protocol, chat_completions, responses, other_protocol, is_gpt41, resolve_by, resolve_responses,
  resolve_chat, resolve_route_parameters,
}

abbrev pub IsAtMost : ℕ → Option ℕ → Type 0
IsAtMost limit none = Unit
IsAtMost limit (some n) = n ≤ limit

-- No budget is above the limit, whatever field it stands in.
pub record IsCapped (limit : ℕ) (p : ModelParameters) : Type 0 where
  pub tokens : IsAtMost limit p.max_tokens
  pub completion : IsAtMost limit p.max_completion_tokens
  pub output : IsAtMost limit p.max_output_tokens

-- A result that is there came from a step that returned.
pub on_ok_inv {ℓ κ} :
    {A : Type ℓ} {B : Type κ} (r : Result A) (next : A → Result B) (b : B)
    → on_ok r next ≡ ok b
    → (a : A) × (r ≡ ok a) × (next a ≡ ok b)
unfolding on_ok
on_ok_inv (ok a) next b e = (a, refl, e)
on_ok_inv (err x) next b e = cc e

and_left : (a b : Bool) → (a && b) ≡ true → a ≡ true
and_left a b h = ground arith

compatible-one_budget : (p : ModelParameters) → compatible p ≡ true → one_budget p ≡ true
unfolding compatible
compatible-one_budget p h = and_left (one_budget p) _ h

pub validate_ok : (q p : ModelParameters) → validate q ≡ ok p → one_budget p ≡ true
unfolding validate
validate_ok q p e = elim (Bool-cases (compatible q && in_range q)) [
  | inl valid ↦
      let same : q ≡ p = cc (rw valid at e) in
      rw (← same) (compatible-one_budget q (and_left (compatible q) (in_range q) valid))
  | inr invalid ↦ cc (rw invalid at e)
]

merge_parameters-one_budget :
    (d r o p : ModelParameters) → merge_parameters d r o ≡ ok p → one_budget p ≡ true
unfolding merge_parameters
merge_parameters-one_budget d r o p e = validate_ok (merge_layers d r o) p e

cap_budget-IsCapped :
    (limit : ℕ) (p : ModelParameters) → one_budget p ≡ true → IsCapped limit (cap_budget limit p)
unfolding cap_budget
cap_budget-IsCapped limit p one = record {
  tokens = ground arith;
  completion = ground arith;
  output = ground arith;
}

preserve_output_ceiling-IsCapped :
    (limit : ℕ) (p request : ModelParameters)
    → one_budget p ≡ true
    → requested request ≡ some limit
    → IsCapped limit (preserve_output_ceiling p request)
unfolding preserve_output_ceiling
preserve_output_ceiling-IsCapped limit p request one asked =
    rw (preserve_output_ceiling, asked) (cap_budget-IsCapped limit p one)

rename_budget-IsCapped :
    (preset : Preset) (limit : ℕ) (p : ModelParameters)
    → IsCapped limit p
    → IsCapped limit (rename_budget preset p)
unfolding rename_budget
rename_budget-IsCapped openai_gpt41 limit p h = record {
  tokens = ground (arith, h.tokens, h.completion);
  completion = ground (arith, h.tokens, h.completion);
  output = ground (arith, h.output);
}
rename_budget-IsCapped qwen_chat limit p h = record {
  tokens = ground (arith, h.tokens, h.completion);
  completion = ground (arith, h.tokens, h.completion);
  output = ground (arith, h.output);
}
rename_budget-IsCapped deepseek_chat limit p h = record {
  tokens = ground (arith, h.tokens, h.completion);
  completion = ground (arith, h.tokens, h.completion);
  output = ground (arith, h.output);
}

-- No step after the ceiling writes a budget.
pub adapt_budgets :
    (preset : Preset) (request p q : ModelParameters)
    → adapt preset request p ≡ ok q
    → (q.max_tokens ≡ p.max_tokens)
      × (q.max_completion_tokens ≡ p.max_completion_tokens)
      × (q.max_output_tokens ≡ p.max_output_tokens)
unfolding adapt adapt_qwen adapt_gpt41 adapt_deepseek
adapt_budgets qwen_chat request p q e = ground arith
adapt_budgets openai_gpt41 request p q e = ground arith
adapt_budgets deepseek_chat request p q e = ground arith

map_to_preset-IsCapped :
    (preset : Preset) (limit : ℕ) (request merged p : ModelParameters)
    → one_budget merged ≡ true
    → requested request ≡ some limit
    → map_to_preset preset request merged ≡ ok p
    → IsCapped limit p
unfolding map_to_preset
map_to_preset-IsCapped preset limit request merged p one asked e =
    let capped = preserve_output_ceiling merged request in
    elim (Bool-cases (mixes_budgets preset request capped)) [
      | inl mixed ↦ cc (rw mixed at e)
      | inr apart ↦ elim (Bool-cases (is_thinking capped && is_no_effort capped.reasoning_effort)) [
        | inl conflict ↦ cc (rw (apart, conflict) at e)
        | inr agrees ↦
            let (tokens, completion, output) =
              adapt_budgets preset request (rename_budget preset capped) p
                (rw (apart, agrees) at e) in
            let h =
              rename_budget-IsCapped preset limit capped
                (preserve_output_ceiling-IsCapped limit merged request one asked) in
            record {
              tokens = rw tokens h.tokens;
              completion = rw completion h.completion;
              output = rw output h.output;
            }
      ]
    ]

add_layer-one_budget :
    (result values p : ModelParameters) → add_layer result values ≡ ok p → one_budget p ≡ true
unfolding add_layer
add_layer-one_budget result values p e =
    let (layer, validated, merged) = on_ok_inv _ _ p e in merge_parameters-one_budget _ _ _ p merged

module _ (defaults request overrides p : ModelParameters) (limit : ℕ)
    (asked : requested request ≡ some limit) where
  resolve_layers-IsCapped :
      (found : Option Preset)
      → resolve_layers found defaults request overrides ≡ ok p
      → IsCapped limit p
  unfolding resolve_layers
  resolve_layers-IsCapped none e =
      let (merged, m, last_step) = on_ok_inv _ _ p e in
      let same : preserve_output_ceiling merged request ≡ p = cc last_step in
      rw (← same) (
        preserve_output_ceiling-IsCapped limit merged request
          (merge_parameters-one_budget defaults request overrides merged m) asked)
  resolve_layers-IsCapped (some preset) e =
      let (first, f, rest1) = on_ok_inv _ _ p e in
      let (second, s, rest2) = on_ok_inv _ _ p rest1 in
      let (merged, m, rest3) = on_ok_inv _ _ p rest2 in
      map_to_preset-IsCapped preset limit request merged p
        (add_layer-one_budget second overrides merged m) asked rest3

  resolve_chat-IsCapped :
      (preset_id : PresetId) (model : String)
      → resolve_chat preset_id model defaults request overrides ≡ ok p
      → IsCapped limit p
  unfolding resolve_chat resolve_parameters
  resolve_chat-IsCapped preset_id model e =
      elim (Bool-cases (
        is_set defaults.max_output_tokens
        || (is_set request.max_output_tokens || is_set overrides.max_output_tokens))) [
          | inl bad ↦ cc (rw bad at e)
          | inr good ↦
              let (found, known_preset, rest) = on_ok_inv _ _ p (rw good at e) in
              resolve_layers-IsCapped found rest
        ]

  resolve_responses-IsCapped :
      (preset_id : PresetId) (total : Bool)
      → resolve_responses preset_id total defaults request overrides ≡ ok p
      → IsCapped limit p
  unfolding resolve_responses
  resolve_responses-IsCapped preset_id total e =
      let (first, f, rest1) = on_ok_inv _ _ p e in
      let (second, s, rest2) = on_ok_inv _ _ p rest1 in
      let (third, u, rest3) = on_ok_inv _ _ p rest2 in
      let (merged, m, last_step) = on_ok_inv _ _ p rest3 in
      let same : preserve_output_ceiling merged request ≡ p = cc last_step in
      rw (← same) (
        preserve_output_ceiling-IsCapped limit merged request
          (merge_parameters-one_budget first second third merged m) asked)

  resolve_by-IsCapped :
      (protocol : Protocol) (preset_id : PresetId) (model : String) (total : Bool)
      → resolve_by protocol preset_id model total defaults request overrides ≡ ok p
      → IsCapped limit p
  unfolding resolve_by
  resolve_by-IsCapped chat_completions preset_id model total e =
      resolve_chat-IsCapped preset_id model e
  resolve_by-IsCapped responses preset_id model total e =
      resolve_responses-IsCapped preset_id (is_gpt41 preset_id || total) e
  resolve_by-IsCapped other_protocol preset_id model total e =
      resolve_chat-IsCapped preset_id model e

-- Whatever a route's provider defaults, overrides, preset and protocol are: if the parameters of a
-- call are resolved and the caller asked for an output budget, then no budget that is sent upstream,
-- under whatever field, is above it.
pub resolve_route_parameters-IsCapped :
    (protocol : Protocol) (preset_id : PresetId) (model : String) (budget_is_total : Bool)
    (defaults request overrides p : ModelParameters) (limit : ℕ)
    → requested request ≡ some limit
    → resolve_route_parameters protocol preset_id model budget_is_total defaults request overrides
      ≡ ok p
    → IsCapped limit p
unfolding resolve_route_parameters
resolve_route_parameters-IsCapped protocol preset_id model total defaults request overrides p limit
      asked e =
    let (checked, v, rest) = on_ok_inv _ _ p e in
    resolve_by-IsCapped defaults request overrides p limit asked protocol preset_id model total rest
