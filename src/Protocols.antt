-- ===== src/Protocols.antt =====
-- app/model_protocols.py: the wire contract of the Responses protocol and the address of a call.
pub mod Address
use opsark_admin.Common.{
  Bool, true, false, ◌&&◌, ◌||◌, not, Option, none, some, List, [], ◌∷◌, String, if◌then◌else◌,
}
use opsark_admin.Errors.{
  Result, Code, ok, err, api_error, value_error, unhandled_error, invalid_responses_request,
  responses_stream_not_supported, provider_storage_not_supported, unsupported_message,
  invalid_response_format, invalid_model_parameters,
}
use opsark_admin.Models.{
  ResponseStatus, completed, incomplete, response_failed, response_cancelled, queued, in_progress,
}
use opsark_admin.Accounts.{text_eq}
use opsark_admin.Json.{
  Json, boolean, str, array, object, Items, nil, item, Fields, get_key, find_field, keys_within,
  has_keys, is_str, is_object, is_one_of, is_hashable, is_there, is_false_or_absent, all_items,
}
use opsark_admin.Parameters.Routes.{Protocol, chat_completions, responses}
use opsark_admin.Parameters.Presets.{on_ok}

-- RESPONSES_ALLOWED
abbrev pub responses_allowed : List String
responses_allowed =
    "model" ∷ "input" ∷ "instructions" ∷ "stream" ∷ "text" ∷ "max_output_tokens" ∷ "temperature"
    ∷ "top_p" ∷ "reasoning" ∷ "store" ∷ []

abbrev pub or_empty : Option Json → Fields
or_empty (some (object fields)) = fields
or_empty _ = Fields.end

-- The format that a body asks for, an empty dictionary if it is none.
unfoldable pub output_format : Json → Protocol → Fields
output_format body responses = or_empty (find_field "format" (or_empty (get_key "text" body)))
output_format body _ = or_empty (get_key "response_format" body)

abbrev pub is_text_part : Json → Bool
is_text_part (object part) =
    (keys_within ("type" ∷ "text" ∷ []) part && has_keys ("type" ∷ "text" ∷ []) part)
    && (is_one_of ("input_text" ∷ []) (find_field "type" part) && is_str (find_field "text" part))
is_text_part _ = false

-- The content of a message: a text, or parts that are texts.
abbrev pub is_text_content : Option Json → Bool
is_text_content (some (str s)) = true
is_text_content (some (array (item part parts))) = all_items is_text_part (item part parts)
is_text_content _ = false

-- `item.get("type", "message") == "message"`
abbrev pub is_message_type : Option Json → Bool
is_message_type none = true
is_message_type found = is_one_of ("message" ∷ []) found

-- `if value not in {...}: raise`
unfoldable pub require_one_of : List String → Option Json → Code → Result (Unit {0})
require_one_of names value code =
    if not (is_hashable value)
    then err unhandled_error
    else if is_one_of names value
    then ok tt
    else err (api_error 422 code)

-- One element of `input`.
unfoldable pub check_message : Json → Result (Unit {0})
check_message (object fields) =
    if not (
      keys_within ("type" ∷ "role" ∷ "content" ∷ []) fields
      && is_message_type (find_field "type" fields))
    then err (api_error 422 unsupported_message)
    else on_ok
        (require_one_of ("system" ∷ "developer" ∷ "user" ∷ "assistant" ∷ [])
          (find_field "role" fields) unsupported_message)
        λ _.
          if is_text_content (find_field "content" fields)
          then ok tt
          else err (api_error 422 unsupported_message)
check_message _ = err (api_error 422 unsupported_message)

unfoldable pub check_messages : Items → Result (Unit {0})
check_messages nil = ok tt
check_messages (item x xs) = let rest = check_messages xs in on_ok (check_message x) λ _. rest

unfoldable pub check_input : Option Json → Result (Unit {0})
check_input (some (str s)) = if text_eq s "" then err (api_error 422 unsupported_message) else ok tt
check_input (some (array (item x xs))) = check_messages (item x xs)
check_input _ = err (api_error 422 invalid_responses_request)

abbrev pub is_filled_text : Option Json → Bool
is_filled_text (some (str s)) = not (text_eq s "")
is_filled_text _ = false

abbrev pub is_boolean_or_absent : Option Json → Bool
is_boolean_or_absent none = true
is_boolean_or_absent (some (boolean b)) = true
is_boolean_or_absent _ = false

-- The keys that go with a kind of format, and what a schema needs.
unfoldable pub format_complete : Bool → Fields → Bool
format_complete false fields = keys_within ("type" ∷ []) fields
format_complete true fields =
    keys_within ("type" ∷ "name" ∷ "schema" ∷ "strict" ∷ "description" ∷ []) fields
    && (is_filled_text (find_field "name" fields)
        && (is_object (find_field "schema" fields)
            && is_boolean_or_absent (find_field "strict" fields)))

unfoldable pub check_format : Json → Result (Unit {0})
check_format (object fields) =
    on_ok
      (require_one_of ("text" ∷ "json_object" ∷ "json_schema" ∷ []) (find_field "type" fields)
        invalid_response_format)
      λ _.
        if format_complete (is_one_of ("json_schema" ∷ []) (find_field "type" fields)) fields
        then ok tt
        else err (api_error 422 invalid_response_format)
check_format _ = err (api_error 422 invalid_response_format)

-- `body["text"]`, if it is there.
unfoldable pub check_text : Option Json → Result (Unit {0})
check_text none = ok tt
check_text (some (object text)) = elim (find_field "format" text) [
  | none ↦ err (api_error 422 invalid_response_format)
  | some value ↦
      if keys_within ("format" ∷ []) text
      then check_format value
      else err (api_error 422 invalid_response_format)
]
check_text _ = err (api_error 422 invalid_response_format)

unfoldable pub check_reasoning : Option Json → Result (Unit {0})
check_reasoning none = ok tt
check_reasoning (some (object value)) =
    if keys_within ("effort" ∷ []) value && is_str (find_field "effort" value)
    then ok tt
    else err (api_error 422 invalid_model_parameters)
check_reasoning _ = err (api_error 422 invalid_model_parameters)

abbrev pub is_text_or_absent : Option Json → Bool
is_text_or_absent none = true
is_text_or_absent found = is_str found

unfoldable pub validate_responses_request : Json → Result (Unit {0})
validate_responses_request (object body) =
    if not (keys_within responses_allowed body && is_str (find_field "model" body))
    then err (api_error 422 invalid_responses_request)
    else if not (is_false_or_absent (find_field "stream" body))
    then err (api_error 422 responses_stream_not_supported)
    else if not (is_false_or_absent (find_field "store" body))
    then err (api_error 422 provider_storage_not_supported)
    else if not (is_text_or_absent (find_field "instructions" body))
    then err (api_error 422 invalid_responses_request)
    else on_ok (check_input (find_field "input" body)) λ _.
      on_ok (check_text (find_field "text" body)) λ _. check_reasoning (find_field "reasoning" body)
validate_responses_request _ = err (api_error 422 invalid_responses_request)

-- The part's type, and the text that goes with it.
unfoldable pub is_output_part : Json → Bool
is_output_part (object part) =
    is_str (find_field "type" part)
    && ((not (is_one_of ("output_text" ∷ []) (find_field "type" part))
          || is_str (find_field "text" part))
        && (not (is_one_of ("refusal" ∷ []) (find_field "type" part))
            || is_str (find_field "refusal" part)))
is_output_part _ = false

abbrev pub are_output_parts : Option Json → Bool
are_output_parts (some (array parts)) = all_items is_output_part parts
are_output_parts _ = false

unfoldable pub is_output_item : Json → Bool
is_output_item (object fields) =
    is_str (find_field "type" fields)
    && (not (is_one_of ("message" ∷ []) (find_field "type" fields))
        || are_output_parts (find_field "content" fields))
is_output_item _ = false

unfoldable pub read_status : String → Option ResponseStatus
read_status s =
    if text_eq s "completed"
    then some completed
    else if text_eq s "incomplete"
    then some incomplete
    else if text_eq s "failed"
    then some response_failed
    else if text_eq s "cancelled"
    then some response_cancelled
    else if text_eq s "queued"
    then some queued
    else if text_eq s "in_progress"
    then some in_progress
    else none

abbrev pub status_of_text : Option Json → Option ResponseStatus
status_of_text (some (str s)) = read_status s
status_of_text _ = none

-- A ValueError marks an envelope that is not valid.
unfoldable pub check_output : Option Json → ResponseStatus → Result ResponseStatus
check_output (some (array items)) status =
    if all_items is_output_item items then ok status else err value_error
check_output _ status = err value_error

unfoldable pub response_status : Json → Result ResponseStatus
response_status reply =
    if not (is_hashable (get_key "status" reply))
    then err unhandled_error
    else elim (status_of_text (get_key "status" reply)) [
      | none ↦ err value_error
      | some status ↦ check_output (get_key "output" reply) status
    ]
