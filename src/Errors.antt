-- ===== src/Errors.antt =====
-- app/security.py, `ApiError`: the exceptions that a handler can raise. The message, the details
-- and the `retryable` flag only decorate the reply, so an error is its status and its code.
use opsark_admin.Common.{ℕ, Bool, true, false}

pub data Code : Type 0 where
  user_not_found insufficient_credits idempotency_key_conflict request_already_accepted : Code
  invalid_reservation_amount credits_reconciliation_required already_reconciled : Code
  request_still_running not_found idempotency_conflict adjustment_conflict : Code
  registration_disabled registration_conflict user_session_expired invalid_credentials : Code
  user_status_conflict user_session_not_found unknown_model policy_conflict rate_limited : Code
  upstream_protocol_mismatch unknown_model_preset preset_model_mismatch : Code
  preset_parameter_unsupported preset_output_limit invalid_api_protocol : Code
  preset_protocol_unsupported parameter_semantics_conflict protocol_parameter_unsupported : Code
  mutation_conflict skill_revision_conflict skill_not_found skill_limit : Code
  invalid_user_skill_id invalid_version : Code
  request_state_conflict invalid_json invalid_chat_request provider_storage_not_supported : Code
  idempotency_key_required user_stream_not_supported unsupported_message model_denied : Code
  model_not_found provider_disabled api_protocol_mismatch capability_revision_mismatch : Code
  invalid_model_parameters output_capability_unknown output_limit : Code
  official_context_too_large invalid_model_key key_required key_required_for_new_destination : Code
  model_alias_exists alias_immutable invalid_responses_request responses_stream_not_supported : Code
  invalid_response_format client_update_required draft_conflict incompatible_core : Code
  release_version_conflict release_not_found release_withdrawn release_exists : Code
  client_policy_conflict feedback_not_found feedback_conflict feedback_expired : Code
  feedback_reply_limit task_selection_required unexpected_logs : Code
  oauth_flow_expired oauth_callback_used oauth_flow_consumed oauth_invalid_proof : Code
  account_changed account_disabled github_already_linked account_already_linked : Code
  login_and_link_required github_login_failed content_too_large sensitive_content : Code
  private_content_unavailable preset_thinking_incompatible upstream_schema_unsupported : Code

-- The exceptions of the HTTP client and of the wait for a slot.
pub data Failure : Type 0 where
  connect_error connect_timeout pool_timeout write_error write_timeout read_error : Failure
  read_timeout timeout_error : Failure

-- `unhandled_error` is an exception that no handler names: a TypeError, the RecursionError of
-- `json.loads`, or an invalid address or header of the HTTP client.
pub data Error : Type 0 where
  api_error : ℕ → Code → Error
  integrity_error : Error
  value_error : Error
  unhandled_error : Error
  transport : Failure → Error
  cancelled_error : Error

-- The test `error.code != "INSUFFICIENT_CREDITS"` of the handlers, the other way round.
abbrev pub is_insufficient_credits : Error → Bool
is_insufficient_credits (api_error status insufficient_credits) = true
is_insufficient_credits _ = false

pub data Result {ℓ} (A : Type ℓ) : Type ℓ where
  ok : A → Result A
  err : Error → Result A
