-- ===== src/Gateway/Request/Limit.antt =====
-- app/gateway.py, `completions`: the limit of the output keeps a budget that was asked for.
use opsark_admin.Common.{
  ℕ, ◌≡◌, ◌≤◌, refl, ap, subst, ◌∙◌, true, false, ◌||◌, Option, none, some, String, arith,
  Bool-cases, Option-cases, inl, inr,
}
use opsark_admin.Common.Int.{ℤ}
use opsark_admin.Errors.{ok}
use opsark_admin.Json.{
  Json, null, boolean, decimal, str, array, object, integer, Fields, find_field, is_there,
}
use opsark_admin.Parameters.{ModelParameters, is_set}
use opsark_admin.Parameters.Presets.{Preset, deepseek_chat, qwen_chat, openai_gpt41}
use opsark_admin.Parameters.Routes.{Protocol, chat_completions, responses, other_protocol}
use opsark_admin.Parameters.Ceiling.{on_ok_inv, IsCapped}
use opsark_admin.Parameters.Budget.Fits.{fits}
use opsark_admin.Catalog.Capabilities.{
  TokenField, max_tokens_field, max_completion_field, max_output_field, budget_at, token_field,
}
use opsark_admin.Gateway.Request.{same_protocol}
use opsark_admin.Gateway.Request.Prepare.{
  Outgoing, field_name, within_limit, field_budget, output_budget, set_budget, with_budget,
  has_completion, limit_output,
}
use opsark_admin.Gateway.Request.Checked.{ok_injective}

set_budget-IsCapped :
    (limit n : ℕ) (at : TokenField) (p : ModelParameters)
    → n ≤ limit
    → IsCapped limit p
    → IsCapped limit (set_budget at n p)
set_budget-IsCapped limit n max_tokens_field p low h = record {
  tokens = low;
  completion = tt;
  output = h.output;
}
set_budget-IsCapped limit n max_completion_field p low h = record {
  tokens = tt;
  completion = low;
  output = h.output;
}
set_budget-IsCapped limit n max_output_field p low h = record {
  tokens = tt;
  completion = tt;
  output = low;
}

budget_at-capped :
    (limit m : ℕ) (at : TokenField) (p : ModelParameters)
    → IsCapped limit p
    → budget_at at p ≡ some m
    → m ≤ limit
budget_at-capped limit m max_tokens_field p h there = ground (arith, h.tokens, there)
budget_at-capped limit m max_completion_field p h there = ground (arith, h.completion, there)
budget_at-capped limit m max_output_field p h there = ground (arith, h.output, there)

-- No field of a name holds a number.
abbrev pub NoNumber : String → Fields → Type 0
NoNumber name fields = (z : ℤ) → ¬ (find_field name fields ≡ some (integer z))

field_budget-there : (v : Json) (n : ℕ) → field_budget (some v) ≡ some n → (z : ℤ) × (v ≡ integer z)
field_budget-there (integer z) n h = (z, refl)
field_budget-there null n h = cc h
field_budget-there (boolean b) n h = cc h
field_budget-there (decimal d) n h = cc h
field_budget-there (str s) n h = cc h
field_budget-there (array xs) n h = cc h
field_budget-there (object fields) n h = cc h

there_some : (o : Option Json) → is_there o ≡ true → (v : Json) × (o ≡ some v)
there_some none h = absurd (ground (arith, h))
there_some (some v) h = (v, refl)

-- Without a preset.
plain_not_missing :
    (body : Outgoing) (n : ℕ)
    → (is_set body.parameters.max_tokens || is_set body.parameters.max_completion_tokens) ≡ true
    → NoNumber "max_completion_tokens" body.fields
    → budget_at (token_field chat_completions none (has_completion body)) body.parameters ≡ none
    → output_budget none (
        find_field
          (field_name (token_field chat_completions none (has_completion body)))
          body.fields)
      ≡ some n
    → ⊥
plain_not_missing body n h numbers missing found = elim (Bool-cases (has_completion body)) [
  | inl named ↦
      let unset : body.parameters.max_completion_tokens ≡ none = rw named at missing in
      let (v, there) =
        there_some (find_field "max_completion_tokens" body.fields)
          (ground (arith, named, unset)) in
      let budget : field_budget (find_field "max_completion_tokens" body.fields) ≡ some n =
        rw named at found in
      let (z, number) = field_budget-there v n (rw there at budget) in
      numbers z (there ∙ ap some number)
  | inr other ↦
      let unset : body.parameters.max_tokens ≡ none = rw other at missing in
      absurd (ground (arith, h, other, unset))
]

-- A body whose budget fits and which has no number apart from it has its budget at the key under
-- which a limit is looked for.
not_missing :
    (protocol : Protocol) (preset : Option Preset) (body : Outgoing) (n : ℕ)
    → same_protocol protocol protocol ≡ true
    → fits protocol preset body.parameters ≡ true
    → (same_protocol protocol responses ≡ false → NoNumber "max_completion_tokens" body.fields)
    → budget_at (token_field protocol preset (has_completion body)) body.parameters ≡ none
    → output_budget none
        (find_field (field_name (token_field protocol preset (has_completion body))) body.fields)
      ≡ some n
    → ⊥
not_missing responses preset body n same h numbers missing found =
    absurd (ground (arith, h, missing))
not_missing chat_completions (some openai_gpt41) body n same h numbers missing found =
    absurd (ground (arith, h, missing))
not_missing chat_completions (some qwen_chat) body n same h numbers missing found =
    absurd (ground (arith, h, missing))
not_missing chat_completions (some deepseek_chat) body n same h numbers missing found =
    absurd (ground (arith, h, missing))
not_missing chat_completions none body n same h numbers missing found =
    plain_not_missing body n h (numbers refl) missing found
not_missing other_protocol preset body n same h numbers missing found =
    absurd (ground (arith, same))

within_limit-same : (m n : ℕ) → within_limit m ≡ some n → m ≡ n
within_limit-same m n h = ground (arith, h)

-- The limit of the caller is a limit of what is sent.
pub limit_output-IsCapped :
    (size : Outgoing → ℕ) (protocol : Protocol) (preset : Option Preset) (body sent : Outgoing)
    (limit : ℕ)
    → same_protocol protocol protocol ≡ true
    → fits protocol preset body.parameters ≡ true
    → (same_protocol protocol responses ≡ false → NoNumber "max_completion_tokens" body.fields)
    → IsCapped limit body.parameters
    → limit_output size (token_field protocol preset (has_completion body)) body ≡ ok sent
    → IsCapped limit sent.parameters
unfolding limit_output
limit_output-IsCapped size protocol preset body sent limit same h numbers capped e =
    let at = token_field protocol preset (has_completion body) in
    let there = find_field (field_name at) body.fields in
    elim (Option-cases (output_budget (budget_at at body.parameters) there)) [
      | inl over ↦ cc (rw (limit_output, over) at e)
      | inr (n, within) ↦
          let (u, fits_size, done) = on_ok_inv _ _ sent (rw (limit_output, within) at e) in
          let low : n ≤ limit = elim (Option-cases (budget_at at body.parameters)) [
            | inl missing ↦
                absurd
                  (not_missing protocol preset body n same h numbers missing (rw missing at within))
            | inr (m, set) ↦
                let equal = within_limit-same m n (rw set at within) in
                subst (λ k. k ≤ limit) equal
                  (budget_at-capped limit m at body.parameters capped set)
          ] in
          subst (λ b. IsCapped limit b.parameters) (ok_injective (with_budget at n body) sent done)
            (set_budget-IsCapped limit n at body.parameters low capped)
    ]
