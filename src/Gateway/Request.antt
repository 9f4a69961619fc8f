-- ===== src/Gateway/Request.antt =====
-- app/gateway.py, `completions`: the checks of a request before its admission. The body arrives as
-- JSON, or as none if it is not JSON, and the digest of a route's capabilities is a parameter.
pub mod Prepare
pub mod Checked
pub mod Limit
pub mod Limited
pub mod Budget
mod Tests
use opsark_admin.Common.{
  ℕ, Bool, true, false, ◌&&◌, not, Option, none, some, List, [], ◌∷◌, String, ◌==◌, if◌then◌else◌,
}
use opsark_admin.Common.Table.{Table, get}
use opsark_admin.Errors.{
  Code, Result, ok, err, api_error, invalid_chat_request, idempotency_key_required,
  user_stream_not_supported, unsupported_message, model_denied, model_not_found, provider_disabled,
  api_protocol_mismatch, capability_revision_mismatch, not_found,
}
use opsark_admin.Accounts.{text_eq}
use opsark_admin.Json.{
  Json, boolean, str, array, object, Items, nil, item, find_field, get_key, is_member, keys_within,
  is_str, is_filled_array,
}
use opsark_admin.Protocols.{validate_responses_request, require_one_of, is_boolean_or_absent}
use opsark_admin.Parameters.Presets.{on_ok}
use opsark_admin.Parameters.Routes.{Protocol, chat_completions, responses}
use opsark_admin.Catalog.{Provider, ModelRoute, Catalog}
use opsark_admin.Catalog.Capabilities.{RevisionSource, Capabilities, route_capabilities_v2}

-- `idempotency_key` is none if the header is not of the required form, and `expected_revision` if
-- there is no such header or an empty one.
pub record Request : Type 0 where
  pub protocol : Protocol
  pub body : Option Json
  pub idempotency_key : Option ℕ
  pub expected_revision : Option ℕ

-- The holder of a key.
pub record Caller : Type 0 where
  pub user_id : Option ℕ
  pub allowed_models : List String

-- ALLOWED
abbrev pub allowed : List String
allowed =
    "model" ∷ "messages" ∷ "stream" ∷ "temperature" ∷ "top_p" ∷ "max_tokens"
    ∷ "max_completion_tokens" ∷ "stop" ∷ "tools" ∷ "tool_choice" ∷ "parallel_tool_calls"
    ∷ "response_format" ∷ "thinking" ∷ "enable_thinking" ∷ "reasoning_effort" ∷ "stream_options"
    ∷ "store" ∷ "seed" ∷ "presence_penalty" ∷ "frequency_penalty" ∷ []

-- `if not ...: raise ApiError(...)`
abbrev pub require : Bool → ℕ → Code → Result (Unit {0})
require condition status code = if condition then ok tt else err (api_error status code)

unfoldable pub validate_chat_request : Json → Result (Unit {0})
validate_chat_request (object body) =
    require
      (keys_within allowed body
        && (is_str (find_field "model" body)
            && (is_filled_array (find_field "messages" body)
                && is_boolean_or_absent (find_field "stream" body))))
      422 invalid_chat_request
validate_chat_request _ = err (api_error 422 invalid_chat_request)

unfoldable pub validate_body : Protocol → Json → Result (Unit {0})
validate_body responses body = validate_responses_request body
validate_body _ body = validate_chat_request body

-- A message that a user may send.
unfoldable pub check_plain_message : Json → Result (Unit {0})
check_plain_message (object fields) =
    if is_str (find_field "content" fields)
    then require_one_of ("system" ∷ "user" ∷ "assistant" ∷ []) (find_field "role" fields)
        unsupported_message
    else err (api_error 422 unsupported_message)
check_plain_message _ = err (api_error 422 unsupported_message)

unfoldable pub check_plain_items : Items → Result (Unit {0})
check_plain_items nil = ok tt
check_plain_items (item x xs) =
    let rest = check_plain_items xs in on_ok (check_plain_message x) λ _. rest

abbrev pub check_plain_messages : Protocol → Option Json → Result (Unit {0})
check_plain_messages responses messages = ok tt
check_plain_messages _ (some (array items)) = check_plain_items items
check_plain_messages _ _ = ok tt

-- `body.get("stream")`, which is a boolean by now.
abbrev pub is_streamed : Option Json → Bool
is_streamed (some (boolean b)) = b
is_streamed _ = false

abbrev pub has_key : Option ℕ → Bool
has_key none = false
has_key (some key) = true

-- What is asked of a user's call beyond that.
unfoldable pub check_user : Option ℕ → Request → Json → Result (Unit {0})
check_user none r body = ok tt
check_user (some user) r body =
    on_ok (require (has_key r.idempotency_key) 422 idempotency_key_required) λ _.
      on_ok (require (not (is_streamed (get_key "stream" body))) 422 user_stream_not_supported)
        λ _. check_plain_messages r.protocol (get_key "messages" body)

-- The enabled route with an alias.
unfoldable pub find_enabled : String → Table ModelRoute → Option ModelRoute
find_enabled alias [] = none
find_enabled alias ((id, route) ∷ routes) =
    if text_eq route.alias alias && route.enabled then some route else find_enabled alias routes

abbrev pub same_protocol : Protocol → Protocol → Bool
same_protocol responses responses = true
same_protocol chat_completions chat_completions = true
same_protocol _ _ = false

abbrev pub is_expected : Option ℕ → Option Capabilities → Bool
is_expected none capabilities = true
is_expected (some revision) none = false
is_expected (some revision) (some c) = revision == c.revision

abbrev pub text_of : Option Json → String
text_of (some (str s)) = s
text_of _ = ""

abbrev pub or_missing {ℓ} : {A : Type ℓ} → Option A → ℕ → Code → Result A
or_missing none status code = err (api_error status code)
or_missing (some a) status code = ok a

-- The route and the provider that a call goes to.
unfoldable pub find_target :
    (RevisionSource → ℕ) → Request → Caller → String → Catalog → Result (ModelRoute × Provider)
find_target digest r caller alias db =
    on_ok (require (is_member alias caller.allowed_models) 403 model_denied) λ _.
      on_ok (or_missing (find_enabled alias db.routes) 404 model_not_found) λ route.
        on_ok (or_missing (get route.provider_id db.providers) 404 not_found) λ provider.
          on_ok (require provider.enabled 503 provider_disabled) λ _.
            on_ok (require (same_protocol route.api_protocol r.protocol) 409 api_protocol_mismatch)
              λ _.
                on_ok
                  (require
                    (is_expected r.expected_revision (route_capabilities_v2 digest route provider))
                    409 capability_revision_mismatch)
                  λ _. ok (route, provider)
