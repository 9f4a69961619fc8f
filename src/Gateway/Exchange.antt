-- ===== src/Gateway/Exchange.antt =====
-- app/gateway.py, `completions` after the admission: the wait for a slot, the request to the
-- provider, its reply, and the outcome that is recorded. An `Exchange` is what the world does, the
-- rest is the code's. The capture of contents is left out: it is optional and cannot fail a call. A streamed
-- reply, which only the holder of a key without a user can ask for, is in Gateway/Stream.antt.
use opsark_admin.Common.{
  ℕ, ◌+◌, ◌-◌, Bool, true, false, ◌&&◌, ◌||◌, not, Option, none, some, leb, ltb, ◌==◌,
  if◌then◌else◌,
}
use opsark_admin.Common.Int.{ℤ, ◌+ℤ◌}
use opsark_admin.Common.Table.{get, update}
use opsark_admin.Errors.{
  Error, Code, Failure, value_error, unhandled_error, transport, cancelled_error, connect_error,
  connect_timeout, pool_timeout, write_error, write_timeout, read_error, read_timeout,
  timeout_error,
}
use opsark_admin.Exec.{
  Exec, pure, raise, lift, gets, modify, catch, transaction, ◌>>=◌, ◌>>◌, match_option,
}
use opsark_admin.Models.{
  Db, Actor, ModelCall, CallStatus, succeeded, failed, cancelled, ResponseStatus, completed,
  CallError, upstream_schema_invalid, upstream_schema_unsupported, upstream_http_error,
  upstream_connect_failed, upstream_connect_timeout, upstream_write_failed, upstream_timeout,
  upstream_read_failed, upstream_response_invalid, gateway_busy, client_disconnected,
  upstream_response, rejected,
}
use opsark_admin.Credits.{write_calls}
use opsark_admin.Credits.Settle.{Settlement, settle}
use opsark_admin.Delivery.{Certainty, not_dispatched, response_received, may_have_dispatched}
use opsark_admin.Json.{
  get_key, is_hashable, Json, object, is_object, is_filled_array, all_items, array, is_there,
  find_field,
}
use opsark_admin.Parameters.Routes.{Protocol, responses}
use opsark_admin.Protocols.{response_status}
use opsark_admin.Gateway.Usage.{Pending, usage}

-- An admitted call: `schema_requested` says that the body asks for a json_schema, and `elapsed` is
-- the time in milliseconds after which it ends.
pub record Call : Type 0 where
  pub call_id : ℕ
  pub user_id : Option ℕ
  pub protocol : Protocol
  pub schema_requested : Bool
  pub capability_error : Option (ℕ × Code)
  pub elapsed : ℕ
  pub ended_at : ℕ

-- The rows, the free slots of the gateway, and the local variables of the handler; `received` is
-- `response is not None`.
pub record Scope : Type 0 where
  pub db : Db
  pub free_slots : ℕ
  pub acquired : Bool
  pub dispatched : Bool
  pub received : Bool
  pub pending : Pending

-- The exceptions that waiting, building, sending, reading and decoding can raise. A client that is
-- gone cancels its handler; `unhandled` is one that no handler names, such as the RecursionError of a
-- deeply nested body or the InvalidURL of an address.
pub data Fault : Type 0 where
  failing : Failure → Fault
  invalid_value client_gone unhandled : Fault

abbrev pub error_of : Fault → Error
error_of (failing failure) = transport failure
error_of invalid_value = value_error
error_of client_gone = cancelled_error
error_of unhandled = unhandled_error

-- The body of a reply: a JSON value, or the exception under which it is read and decoded. A value
-- that is `unrenderable` has a NaN or a half of a surrogate pair, which JSONResponse refuses.
pub data Body : Type 0 where
  broken : Fault → Body
  json unrenderable : Json → Body

-- The request cannot be sent or is answered: with a status and a body, and with what
-- `schema_definition_invalid` and `schema_capability_refused` say of the body.
pub data Arrival : Type 0 where
  unsent : Fault → Arrival
  answered : ℕ → Body → Bool → Bool → Arrival

-- The wait for the slot raises, the request cannot be built, or it is sent.
pub data Exchange : Type 0 where
  no_slot : Fault → Exchange
  unbuilt : Fault → Exchange
  sent : Arrival → Exchange

pub data Reply : Type 0 where
  relayed_reply : ℕ → Reply
  error_reply : ℕ → CallError → Certainty → Reply

-- A transaction on the rows.
unfoldable pub on_db : {A : Type 0} → Exec Db A → Exec Scope A
on_db m scope = let (r, rows) = m scope.db in (r, record scope { db = rows })

abbrev pub or_status : Option ℕ → Option ℕ → Option ℕ
or_status none kept = kept
or_status (some n) kept = some n

abbrev pub or_tokens : Option ℤ → Option ℤ → Option ℤ
or_tokens none kept = kept
or_tokens (some n) kept = some n

-- The row with the columns that were set.
unfoldable pub outcome_row :
    Call → Pending → CallStatus → Option CallError → Option ℕ → ModelCall → ModelCall
outcome_row c pending status code http row = record row {
  status = status;
  error_code = code;
  http_status = or_status http (or_status pending.http_status row.http_status);
  duration_ms = some c.elapsed;
  input_tokens = or_tokens pending.input_tokens row.input_tokens;
  output_tokens = or_tokens pending.output_tokens row.output_tokens;
}

-- `call.input_tokens + call.output_tokens`, if both are there.
unfoldable pub usage_total : Option ModelCall → Option ℤ
usage_total none = none
usage_total (some call) = elim call.input_tokens [
  | none ↦ none
  | some input ↦ elim call.output_tokens [ none ↦ none | some output ↦ some (input +ℤ output) ]
]

unfoldable pub usage_settlement : Option ℤ → Bool → Settlement
usage_settlement actual no_dispatch = record {
  actual = actual;
  no_dispatch = no_dispatch;
  actor_id = Actor.gateway;
  reason = "模型用量结算";
  allow_overage = false;
}

-- `if user_id:`
unfoldable pub settle_usage : Option ℕ → Call → Bool → Exec Db Unit
settle_usage none c dispatched = pure tt
settle_usage (some user) c dispatched = do
  call ← gets (λ db. get c.call_id db.calls)
  settle c.call_id (usage_settlement (usage_total call) (not dispatched)) c.ended_at

-- `finish` up to its commit.
unfoldable pub record_outcome :
    Call → Pending → Bool → CallStatus → Option CallError → Option ℕ → Exec Db Unit
record_outcome c pending dispatched status code http = do
  write_calls (update c.call_id (outcome_row c pending status code http))
  settle_usage c.user_id c dispatched

unfoldable pub finish : Call → CallStatus → Option CallError → Option ℕ → Exec Scope Unit
finish c status code http = do
  pending ← gets (λ scope. scope.pending)
  dispatched ← gets (λ scope. scope.dispatched)
  on_db (transaction (record_outcome c pending dispatched status code http))

unfoldable pub take_slot : Scope → Scope
take_slot scope = record scope { free_slots = scope.free_slots - 1; acquired = true }

-- `asyncio.wait_for(model_slots.acquire(), timeout=1)`
unfoldable pub acquire : Exec Scope Unit
acquire = do
  free ← gets (λ scope. scope.free_slots)
  if free == 0 then raise (transport timeout_error) else modify take_slot

unfoldable pub set_dispatched : Bool → Exec Scope Unit
set_dispatched flag = modify (λ scope. record scope { dispatched = flag })

-- `response = ...` and `call.http_status = response.status_code`
unfoldable pub receive : ℕ → Exec Scope Unit
receive status = modify λ scope. record scope {
  received = true;
  pending = record scope.pending { http_status = some status };
}

unfoldable pub report_usage : Json → Protocol → Exec Scope Unit
report_usage reply protocol =
    modify (λ scope. record scope { pending = usage reply protocol scope.pending })

-- A chat completion with at least one choice, each with a message.
abbrev pub is_choice : Json → Bool
is_choice (object fields) = is_object (find_field "message" fields)
is_choice _ = false

abbrev pub are_choices : Option Json → Bool
are_choices (some (array items)) = all_items is_choice items
are_choices _ = false

unfoldable pub is_completion : Json → Bool
is_completion (object fields) =
    not (is_there (find_field "error" fields))
    && (is_filled_array (find_field "choices" fields) && are_choices (find_field "choices" fields))
is_completion _ = false

abbrev pub is_completed : ResponseStatus → Bool
is_completed completed = true
is_completed _ = false

-- The last part of the `try`, for a reply that was read and decoded. A report of a valid reply is
-- read before the reply is found to be no completion.
unfoldable pub deliver_by : Protocol → Call → ℕ → Json → Exec Scope Reply
deliver_by responses c status reply = do
  raw_status ← lift (response_status reply)
  if is_completed raw_status
      then finish c succeeded none none
      else finish c failed (some (upstream_response raw_status)) none
  pure (relayed_reply status)
deliver_by _ c status reply =
    if is_completion reply
    then (do finish c succeeded none none; pure (relayed_reply status))
    else raise value_error

unfoldable pub deliver : Call → ℕ → Json → Exec Scope Reply
deliver c status reply = do report_usage reply c.protocol; deliver_by c.protocol c status reply

-- The statuses 400 and 422 of a call for a json_schema.
abbrev pub is_probe : Bool → ℕ → Bool
is_probe schema_requested status = schema_requested && (status == 400 || status == 422)

unfoldable pub refusal_code : Bool → ℕ → Bool → Bool → CallError
refusal_code schema_requested status invalid unsupported =
    let probe = is_probe schema_requested status in
    if probe && invalid
    then upstream_schema_invalid
    else if probe && unsupported
    then upstream_schema_unsupported
    else upstream_http_error

abbrev pub relayed_status : ℕ → ℕ
relayed_status status = if status == 400 || (status == 422 || status == 429) then status else 502

-- The exceptions that pass `except (ValueError, httpx.HTTPError, TimeoutError)`.
abbrev pub passing : Body → Option Error
passing (broken client_gone) = some cancelled_error
passing (broken unhandled) = some unhandled_error
passing _ = none

-- `200 <= response.status_code < 300`
abbrev pub is_success : ℕ → Bool
is_success status = leb 200 status && ltb status 300

-- `error.get("code") in {...}` raises a TypeError.
abbrev pub code_unreadable : Option Json → Bool
code_unreadable (some (object error)) = not (is_hashable (find_field "code" error))
code_unreadable _ = false

abbrev pub has_unreadable_code : Body → Bool
has_unreadable_code (json reply) = code_unreadable (get_key "error" reply)
has_unreadable_code (unrenderable reply) = code_unreadable (get_key "error" reply)
has_unreadable_code (broken fault) = false

-- What is recorded of a refusal and told.
unfoldable pub report_refusal : Call → ℕ → Bool → Bool → Exec Scope Reply
report_refusal c status invalid unsupported = do
  let code = refusal_code c.schema_requested status invalid unsupported
  finish c failed (some code) none
  pure (error_reply (relayed_status status) code response_received)

-- An error body that cannot be read changes nothing, unless the exception passes.
unfoldable pub refuse : Call → ℕ → Body → Bool → Bool → Exec Scope Reply
refuse c status body invalid unsupported =
    match_option (passing body)
      (if is_probe c.schema_requested status && has_unreadable_code body
        then raise unhandled_error
        else report_refusal c status invalid unsupported)
      raise

unfoldable pub read_body : Call → ℕ → Body → Exec Scope Reply
read_body c status (broken fault) = raise (error_of fault)
read_body c status (json reply) = deliver c status reply
read_body c status (unrenderable reply) = do deliver c status reply; raise value_error

unfoldable pub arrive : Call → Arrival → Exec Scope Reply
arrive c (unsent fault) = raise (error_of fault)
arrive c (answered status body invalid unsupported) = do
  receive status
  if is_success status then read_body c status body else refuse c status body invalid unsupported

unfoldable pub dispatch : Call → Exchange → Exec Scope Reply
dispatch c (no_slot fault) = raise (error_of fault)
dispatch c (unbuilt fault) = do acquire; raise (error_of fault)
dispatch c (sent arrival) = do acquire; set_dispatched true; arrive c arrival

-- A capability that the route lacks is recorded, and nothing is sent.
unfoldable pub reject : Call → ℕ → Code → Exec Scope Reply
reject c status code = do
  finish c failed (some (rejected code)) (some status)
  pure (error_reply status (rejected code) not_dispatched)

unfoldable pub attempt_unless : Option (ℕ × Code) → Call → Exchange → Exec Scope Reply
attempt_unless none c x = dispatch c x
attempt_unless (some (status, code)) c x = reject c status code

-- The body of the outer `try`.
unfoldable pub attempt : Call → Exchange → Exec Scope Reply
attempt c x = attempt_unless c.capability_error c x

-- What is recorded for an exception, and whether the request was never sent.
abbrev pub failure_code : Bool → Error → CallError
failure_code false error = gateway_busy
failure_code true (transport connect_error) = upstream_connect_failed
failure_code true (transport connect_timeout) = upstream_connect_timeout
failure_code true (transport pool_timeout) = upstream_connect_timeout
failure_code true (transport write_error) = upstream_write_failed
failure_code true (transport write_timeout) = upstream_write_failed
failure_code true (transport read_timeout) = upstream_timeout
failure_code true (transport timeout_error) = upstream_timeout
failure_code true (transport read_error) = upstream_read_failed
failure_code true error = upstream_response_invalid

abbrev pub was_unsent : Bool → Error → Bool
was_unsent false error = true
was_unsent true (transport connect_error) = true
was_unsent true (transport connect_timeout) = true
was_unsent true (transport pool_timeout) = true
was_unsent true error = false

abbrev pub certainty_after : Bool → Bool → Certainty
certainty_after false received = not_dispatched
certainty_after true received = if received then response_received else may_have_dispatched

unfoldable pub fail : Call → Error → Exec Scope Reply
fail c error = do
  acquired ← gets (λ scope. scope.acquired)
  if was_unsent acquired error then set_dispatched false else pure tt
  finish c failed (some (failure_code acquired error)) none
  dispatched ← gets (λ scope. scope.dispatched)
  received ← gets (λ scope. scope.received)
  pure (error_reply 502 (failure_code acquired error) (certainty_after dispatched received))

-- The outer `except` clauses; the other exceptions pass.
unfoldable pub on_failure : Call → Error → Exec Scope Reply
on_failure c cancelled_error = do
  finish c cancelled (some client_disconnected) none
  raise cancelled_error
on_failure c value_error = fail c value_error
on_failure c (transport failure) = fail c (transport failure)
on_failure c error = raise error

unfoldable pub release : Scope → Scope
release scope =
    if scope.acquired
    then record scope { free_slots = scope.free_slots + 1; acquired = false }
    else scope

-- `finally`, which runs after a return and after an exception.
unfoldable pub handle : Call → Exchange → Exec Scope Reply
handle c x scope = let (r, ended) = catch (attempt c x) (on_failure c) scope in (r, release ended)
