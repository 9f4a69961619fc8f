-- ===== src/Gateway/Usage.antt =====
-- app/gateway.py, `usage`: the token counts that a provider reports. The cached and the reasoning
-- tokens and the raw report are diagnostics that nothing is charged by, and are left out.
use opsark_admin.Common.{
  ℕ, arith, ◌≡◌, refl, ◌⊎◌, inl, inr, Bool-cases, Option, none, some, String, leb, if◌then◌else◌,
}
use opsark_admin.Common.Int.{ℤ, pos, ◌≤ℤ◌}
use opsark_admin.Json.{Json, null, boolean, decimal, str, array, integer, object, get_key}
use opsark_admin.Parameters.Routes.{Protocol, chat_completions, responses, other_protocol}

-- What the handler has set on its row and not committed yet.
pub record Pending : Type 0 where
  pub http_status : Option ℕ
  pub input_tokens : Option ℤ
  pub output_tokens : Option ℤ

-- `type(count) is int and 0 <= count <= 10**9`
unfoldable pub token_count : Option Json → Option ℤ
token_count (some (integer (pos n))) = if leb n 1000000000 then some (pos n) else none
token_count _ = none

abbrev pub or_kept : Option ℤ → Option ℤ → Option ℤ
or_kept none kept = kept
or_kept (some n) kept = some n

abbrev pub input_name : Protocol → String
input_name responses = "input_tokens"
input_name _ = "prompt_tokens"

abbrev pub output_name : Protocol → String
output_name responses = "output_tokens"
output_name _ = "completion_tokens"

abbrev pub counted : Json → Protocol → Pending → Pending
counted value protocol row = record row {
  input_tokens = or_kept (token_count (get_key (input_name protocol) value)) row.input_tokens;
  output_tokens = or_kept (token_count (get_key (output_name protocol) value)) row.output_tokens;
}

-- `value`, if it is a dictionary.
abbrev pub read_usage : Option Json → Protocol → Pending → Pending
read_usage (some (object fields)) protocol row = counted (object fields) protocol row
read_usage _ protocol row = row

unfoldable pub usage : Json → Protocol → Pending → Pending
usage reply protocol row = read_usage (get_key "usage" reply) protocol row

-- The value under a key of the usage report of a reply, if there is one.
abbrev pub value_at : String → Option Json → Option Json
value_at key none = none
value_at key (some value) = get_key key value

abbrev pub reported : String → Json → Option Json
reported key reply = value_at key (get_key "usage" reply)

-- A count is an integer from 0 to 10^9.
abbrev pub IsCount : ℤ → Type 0
IsCount n = (pos 0 ≤ℤ n) × (n ≤ℤ pos 1000000000)

-- A count that was found is recorded as it is; what was found otherwise leaves the record as it was.
abbrev pub IsRead : Option Json → Option ℤ → Option ℤ → Type 0
IsRead found before after =
    ((n : ℤ) × (found ≡ some (integer n)) × IsCount n × (after ≡ some n))
    ⊎ (((n : ℤ) → found ≡ some (integer n) → ¬ (IsCount n)) × (after ≡ before))

token_count-IsRead :
    (found : Option Json) (before : Option ℤ)
    → IsRead found before (or_kept (token_count found) before)
unfolding token_count
token_count-IsRead (some (integer (pos n))) before = elim (Bool-cases (leb n 1000000000)) [
  | inl small ↦ rw small (inl (pos n, refl, (ground arith, ground (arith, small)), refl))
  | inr large ↦ rw large (inr (λ m same count. ground (arith, large, same, count), refl))
]
token_count-IsRead none before = inr (λ m same count. cc same, refl)
token_count-IsRead (some (integer z)) before =
    inr (λ m same count. ground (arith, same, count), refl)
token_count-IsRead (some null) before = inr (λ m same count. ground (arith, same), refl)
token_count-IsRead (some (boolean b)) before = inr (λ m same count. ground (arith, same), refl)
token_count-IsRead (some (decimal d)) before = inr (λ m same count. ground (arith, same), refl)
token_count-IsRead (some (str t)) before = inr (λ m same count. ground (arith, same), refl)
token_count-IsRead (some (array xs)) before = inr (λ m same count. ground (arith, same), refl)
token_count-IsRead (some (object xs)) before = inr (λ m same count. ground (arith, same), refl)

-- The two counts of a protocol, as its documentation names them.
abbrev pub reported_input : Protocol → Json → Option Json
reported_input responses reply = reported "input_tokens" reply
reported_input _ reply = reported "prompt_tokens" reply

abbrev pub reported_output : Protocol → Json → Option Json
reported_output responses reply = reported "output_tokens" reply
reported_output _ reply = reported "completion_tokens" reply

read_usage_counts :
    (found : Option Json) (protocol : Protocol) (row : Pending)
    → ((read_usage found protocol row).input_tokens
        ≡ or_kept (token_count (value_at (input_name protocol) found)) row.input_tokens)
      × ((read_usage found protocol row).output_tokens
          ≡ or_kept (token_count (value_at (output_name protocol) found)) row.output_tokens)
unfolding token_count
read_usage_counts none protocol row = (refl, refl)
read_usage_counts (some null) protocol row = (refl, refl)
read_usage_counts (some (boolean b)) protocol row = (refl, refl)
read_usage_counts (some (integer n)) protocol row = (refl, refl)
read_usage_counts (some (decimal d)) protocol row = (refl, refl)
read_usage_counts (some (str t)) protocol row = (refl, refl)
read_usage_counts (some (array xs)) protocol row = (refl, refl)
read_usage_counts (some (object fields)) protocol row = (refl, refl)

usage_under :
    (reply : Json) (protocol : Protocol) (row : Pending)
    → IsRead
        (reported (input_name protocol) reply)
        row.input_tokens
        (usage reply protocol row).input_tokens
      × IsRead
          (reported (output_name protocol) reply)
          row.output_tokens
          (usage reply protocol row).output_tokens
unfolding usage
usage_under reply protocol row =
    let (input, output) = read_usage_counts (get_key "usage" reply) protocol row in
    (
      rw input (token_count-IsRead _ row.input_tokens),
      rw output (token_count-IsRead _ row.output_tokens),
    )

-- The counts of a usage report are recorded as they are reported, under the names of the protocol, if
-- they are integers from 0 to 10^9. A count that is missing, negative, fractional, a Boolean, too
-- large or no number at all leaves what was recorded before: it never becomes zero.
pub usage-IsRead :
    (reply : Json) (protocol : Protocol) (row : Pending)
    → IsRead
        (reported_input protocol reply)
        row.input_tokens
        (usage reply protocol row).input_tokens
      × IsRead
          (reported_output protocol reply)
          row.output_tokens
          (usage reply protocol row).output_tokens
usage-IsRead reply responses row = usage_under reply responses row
usage-IsRead reply chat_completions row = usage_under reply chat_completions row
usage-IsRead reply other_protocol row = usage_under reply other_protocol row
