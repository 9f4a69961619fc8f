-- ===== src/Parameters.antt =====
-- app/model_parameters.py: the generation parameters of a model call, from three layers. A layer is a
-- dictionary that validation has compacted, so it has no null: an absent key is `none`. Fractions are
-- in hundredths, and the explanations in the list of changes are left out.
pub mod Presets
pub mod Routes
pub mod Ceiling
pub mod Budget
pub mod Merge
mod Tests
use opsark_admin.Common.{
  ℕ, Bool, true, false, ◌&&◌, ◌||◌, not, Option, none, some, leb, if◌then◌else◌,
}
use opsark_admin.Common.Int.{ℤ, pos, neg, leb_ℤ}
use opsark_admin.Errors.{Result, ok, err, value_error}

pub data Effort : Type 0 where
  none_at_all low medium high maximal : Effort

-- ModelParameters; `thinking` is true for the type "enabled".
pub record ModelParameters : Type 0 where
  pub thinking : Option Bool
  pub enable_thinking : Option Bool
  pub reasoning_effort : Option Effort
  pub temperature : Option ℕ
  pub top_p : Option ℕ
  pub max_tokens : Option ℕ
  pub max_completion_tokens : Option ℕ
  pub max_output_tokens : Option ℕ
  pub presence_penalty : Option ℤ
  pub frequency_penalty : Option ℤ

abbrev pub no_parameters : ModelParameters
no_parameters = record {
  thinking = none;
  enable_thinking = none;
  reasoning_effort = none;
  temperature = none;
  top_p = none;
  max_tokens = none;
  max_completion_tokens = none;
  max_output_tokens = none;
  presence_penalty = none;
  frequency_penalty = none;
}

-- `key in layer`
abbrev pub is_set {ℓ} : {A : Type ℓ} → Option A → Bool
is_set none = false
is_set (some a) = true

abbrev pub within : ℕ → ℕ → Option ℕ → Bool
within low_end high_end none = true
within low_end high_end (some n) = leb low_end n && leb n high_end

abbrev pub within_two : Option ℤ → Bool
within_two none = true
within_two (some x) = leb_ℤ (neg (pos 200)) x && leb_ℤ x (pos 200)

-- `reasoning_effort not in {None, "none"}`
abbrev pub asks_effort : Option Effort → Bool
asks_effort none = false
asks_effort (some none_at_all) = false
asks_effort (some _) = true

abbrev pub is_false : Option Bool → Bool
is_false (some false) = true
is_false _ = false

-- `thinking and enable_thinking != (thinking.type == "enabled")`
abbrev pub disagree : Option Bool → Option Bool → Bool
disagree (some true) (some false) = true
disagree (some false) (some true) = true
disagree _ _ = false

-- No two of the three budgets.
abbrev pub one_budget : ModelParameters → Bool
one_budget p =
    not (is_set p.max_tokens && is_set p.max_completion_tokens)
    && (not (is_set p.max_tokens && is_set p.max_output_tokens)
        && not (is_set p.max_completion_tokens && is_set p.max_output_tokens))

-- `compatible`
unfoldable pub compatible : ModelParameters → Bool
compatible p =
    one_budget p
    && (not (is_false p.thinking && asks_effort p.reasoning_effort)
        && (not (disagree p.thinking p.enable_thinking)
            && not (is_false p.enable_thinking && asks_effort p.reasoning_effort)))

-- The fields' ranges.
unfoldable pub in_range : ModelParameters → Bool
in_range p =
    within 0 200 p.temperature
    && (within 0 100 p.top_p
        && (within 1 131072 p.max_tokens
            && (within 1 131072 p.max_completion_tokens
                && (within 1 131072 p.max_output_tokens
                    && (within_two p.presence_penalty && within_two p.frequency_penalty)))))

-- `ModelParameters.model_validate(values).compact()`
unfoldable pub validate : ModelParameters → Result ModelParameters
validate p = if compatible p && in_range p then ok p else err value_error

-- `result.update(layer)` for one key.
abbrev pub over {ℓ} : {A : Type ℓ} → Option A → Option A → Option A
over old none = old
over old (some new) = some new

-- A budget is dropped if the layer sets another one.
abbrev pub unless_set {ℓ} : {A : Type ℓ} → Bool → Option A → Option A
unless_set true old = none
unless_set false old = old

-- One layer of `merge_parameters`.
unfoldable pub merge_layer : ModelParameters → ModelParameters → ModelParameters
merge_layer result layer =
    let by_tokens = is_set layer.max_tokens in
    let by_completion = is_set layer.max_completion_tokens in
    let by_output = is_set layer.max_output_tokens in
    record {
      thinking = over result.thinking layer.thinking;
      enable_thinking = over result.enable_thinking layer.enable_thinking;
      reasoning_effort = over result.reasoning_effort layer.reasoning_effort;
      temperature = over result.temperature layer.temperature;
      top_p = over result.top_p layer.top_p;
      max_tokens =
          over (unless_set (by_completion || by_output) result.max_tokens) layer.max_tokens;
      max_completion_tokens =
          over (unless_set (by_tokens || by_output) result.max_completion_tokens)
            layer.max_completion_tokens;
      max_output_tokens =
          over (unless_set (by_tokens || by_completion) result.max_output_tokens)
            layer.max_output_tokens;
      presence_penalty = over result.presence_penalty layer.presence_penalty;
      frequency_penalty = over result.frequency_penalty layer.frequency_penalty;
    }

abbrev pub merge_layers : ModelParameters → ModelParameters → ModelParameters → ModelParameters
merge_layers defaults request overrides =
    merge_layer (merge_layer (merge_layer no_parameters defaults) request) overrides

unfoldable pub merge_parameters :
    ModelParameters → ModelParameters → ModelParameters → Result ModelParameters
merge_parameters defaults request overrides = validate (merge_layers defaults request overrides)
