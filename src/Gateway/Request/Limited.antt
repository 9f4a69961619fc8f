-- ===== src/Gateway/Request/Limited.antt =====
-- app/gateway.py, `completions`: the limit of the output leaves no budget among the other fields.
use opsark_admin.Common.{
  ℕ, ◌≡◌, refl, subst, Bool, true, false, ◌&&◌, Option, none, List, [], ◌∷◌, String, arith,
  Bool-cases, Option-cases, inl, inr,
}
use opsark_admin.Errors.{ok}
use opsark_admin.Json.{Fields, end, field, find_field, is_there, is_member}
use opsark_admin.Accounts.{text_eq}
use opsark_admin.Parameters.Presets.{Preset}
use opsark_admin.Parameters.Routes.{Protocol, chat_completions, responses, other_protocol}
use opsark_admin.Parameters.Ceiling.{on_ok_inv, IsCapped}
use opsark_admin.Catalog.Capabilities.{budget_at, token_field}
use opsark_admin.Gateway.Request.{same_protocol}
use opsark_admin.Gateway.Request.Prepare.{
  Outgoing, field_name, output_budget, with_budget, has_completion, limit_output, without,
}
use opsark_admin.Gateway.Request.Checked.{ok_injective}

-- A name that is taken out is no field of what stays.
without-gone :
    (key : String) (names : List String) (fields : Fields)
    → ((name : String) → text_eq name key ≡ true → is_member name names ≡ true)
    → find_field key (without names fields) ≡ none
without-gone key names end covers = refl
without-gone key names (field name value rest) covers = elim (Bool-cases (is_member name names)) [
  | inl gone ↦ rw gone (without-gone key names rest covers)
  | inr kept ↦ elim (Bool-cases (text_eq name key)) [
    | inl same ↦ absurd (ground (arith, covers name same, kept))
    | inr other ↦ rw (kept, other) (without-gone key names rest covers)
  ]
]

-- What is sent to the provider for a user: its budgets are at most the limit, and none of the
-- other fields is named as a budget.
pub record IsLimited (limit : ℕ) (protocol : Protocol) (sent : Outgoing) : Type 0 where
  pub capped : IsCapped limit sent.parameters
  pub tokens : find_field "max_tokens" sent.fields ≡ none
  pub completion : find_field "max_completion_tokens" sent.fields ≡ none
  pub output :
      (same_protocol protocol responses && is_there (find_field "max_output_tokens" sent.fields))
      ≡ false

with_budget-output :
    (protocol : Protocol) (preset : Option Preset) (b : Bool) (n : ℕ) (body : Outgoing)
    → (same_protocol protocol responses
        && is_there (
            find_field "max_output_tokens"
              (with_budget (token_field protocol preset b) n body).fields))
      ≡ false
with_budget-output responses preset b n body =
    let gone =
      without-gone "max_output_tokens"
        ("max_tokens" ∷ "max_completion_tokens" ∷ "max_output_tokens" ∷ []) body.fields
        (λ name same. ground (arith, same)) in
    rw gone refl
with_budget-output chat_completions preset b n body = refl
with_budget-output other_protocol preset b n body = refl

pub limit_output-IsLimited :
    (size : Outgoing → ℕ) (protocol : Protocol) (preset : Option Preset) (body sent : Outgoing)
    (limit : ℕ)
    → limit_output size (token_field protocol preset (has_completion body)) body ≡ ok sent
    → IsCapped limit sent.parameters
    → IsLimited limit protocol sent
unfolding limit_output
limit_output-IsLimited size protocol preset body sent limit e capped =
    let at = token_field protocol preset (has_completion body) in
    let there = find_field (field_name at) body.fields in
    elim (Option-cases (output_budget (budget_at at body.parameters) there)) [
      | inl over ↦ cc (rw (limit_output, over) at e)
      | inr (n, within) ↦
          let (u, fits_size, done) = on_ok_inv _ _ sent (rw (limit_output, within) at e) in
          let names = "max_tokens" ∷ "max_completion_tokens" ∷ field_name at ∷ [] in
          let made = ok_injective (with_budget at n body) sent done in
          record {
            capped = capped;
            tokens =
                subst (λ b. find_field "max_tokens" b.fields ≡ none) made
                  (without-gone "max_tokens" names body.fields (λ name same. ground (arith, same)));
            completion =
                subst (λ b. find_field "max_completion_tokens" b.fields ≡ none) made
                  (without-gone "max_completion_tokens" names body.fields
                    (λ name same. ground (arith, same)));
            output =
                subst
                  (λ b.
                    (same_protocol protocol responses
                      && is_there (find_field "max_output_tokens" b.fields))
                    ≡ false)
                  made (with_budget-output protocol preset (has_completion body) n body);
          }
    ]
