-- ===== src/Gateway/Tests.antt =====
-- app/gateway.py, `completions` at the small database of Credits/Samples.antt.
use opsark_admin.Common.{◌≡◌, refl, false, none, some}
use opsark_admin.Common.Int.{pos, ◌+ℤ◌, ◌-ℤ◌}
use opsark_admin.Errors.{ok, timeout_error, connect_timeout}
use opsark_admin.Exec.{◌>>=◌, transaction}
use opsark_admin.Models.{gateway_busy}
use opsark_admin.Credits.{
  lock_account, balance, reject_duplicate_request, find_request, add_reservation, new_reservation,
  write_reservations, write_calls, begin_direct_call,
}
use opsark_admin.Credits.Settle.{
  settle, settle_row, settle_direct_call, charge_direct_call, write_reservation,
}
use opsark_admin.Credits.Samples.{db, db-IsSound, direct_row, direct_call}
use opsark_admin.Delivery.{not_dispatched}
use opsark_admin.Json.{Json, object, field, end, integer, str, array, nil}
use opsark_admin.Parameters.Routes.{chat_completions, responses}
use opsark_admin.Gateway.{Admission, new_call, add_call, begin_for, enter, on_refusal, admit}
use opsark_admin.Protocols.{response_status}
use opsark_admin.Gateway.Usage.{Pending, IsRead, usage, usage-IsRead}
use opsark_admin.Gateway.Exchange.{
  Call, Scope, Exchange, json, answered, acquire, take_slot, arrive, receive, read_body, deliver,
  deliver_by, report_usage, release, failing, no_slot, sent, unsent, error_reply, on_db,
  outcome_row, usage_total, usage_settlement, settle_usage, record_outcome, finish, set_dispatched,
  dispatch, attempt_unless, attempt, fail, on_failure, handle,
}
use opsark_admin.Gateway.Slots.{handle-free_slots}
use opsark_admin.Gateway.Outcome.{IsReady, IsEnded, IsFree}
use opsark_admin.Gateway.Ending.{handle-IsEnded, handle-IsFree}
use opsark_admin.Gateway.Admitted.{admit-IsReady}

abbrev call : Call
call = record {
  call_id = 7;
  user_id = some 1;
  protocol = chat_completions;
  schema_requested = false;
  capability_error = none;
  elapsed = 12;
  ended_at = 50;
}

abbrev no_counts : Pending
no_counts = record { http_status = none; input_tokens = none; output_tokens = none }

abbrev scope : Scope
scope = record {
  db = db;
  free_slots = 3;
  acquired = false;
  dispatched = false;
  received = false;
  pending = no_counts;
}

call-IsReady : IsReady call db
call-IsReady = record {
  sound = db-IsSound;
  call = (direct_call, refl);
  journal = (direct_row, refl, refl, refl);
}

busy_reply :
    (handle call (no_slot (failing timeout_error)) scope).0
    ≡ ok (error_reply 502 gateway_busy not_dispatched)
unfolding handle attempt attempt_unless dispatch on_failure fail set_dispatched finish on_db
    record_outcome settle_usage usage_settlement usage_total outcome_row write_calls settle
    settle_row lock_account settle_direct_call charge_direct_call balance write_reservation
    write_reservations transaction ◌>>=◌ ◌+ℤ◌ ◌-ℤ◌
busy_reply = refl

abbrev responses_call : Call
responses_call = record call { protocol = responses }

responses_call-IsReady : IsReady responses_call db
responses_call-IsReady = record {
  sound = db-IsSound;
  call = (direct_call, refl);
  journal = (direct_row, refl, refl, refl);
}

-- A reply whose status is a text, and one whose status is a list.
abbrev reply_of : Json → Exchange
reply_of status = sent (
    answered 200 (json (object (field "status" status (field "output" (array nil) end)))) false
      false)

handle-IsEnded_example :
    IsEnded responses_call (handle responses_call (reply_of (str "completed")) scope).1.db
handle-IsEnded_example =
    handle-IsEnded responses_call (reply_of (str "completed")) scope responses_call-IsReady refl
      refl

-- The condition of `handle-IsEnded` is needed: here nothing is written.
stuck : (handle responses_call (reply_of (array nil)) scope).1.db ≡ db
unfolding handle attempt attempt_unless dispatch on_failure set_dispatched acquire take_slot arrive
    receive read_body deliver deliver_by report_usage usage response_status release ◌>>=◌
stuck = refl

handle-IsFree_example : IsFree call db (handle call (no_slot (failing timeout_error)) scope).1.db
handle-IsFree_example =
    handle-IsFree call (no_slot (failing timeout_error)) scope call-IsReady refl
      (error_reply 502 gateway_busy not_dispatched) busy_reply refl

handle-free_slots_example :
    (handle call (sent (unsent (failing connect_timeout))) scope).1.free_slots ≡ 3
handle-free_slots_example =
    handle-free_slots call (sent (unsent (failing connect_timeout))) scope refl

abbrev first : Admission
first = record { call_id = 9; user_id = some 1; idempotency_key = 11; request_hash = 9; now = 60 }

admitted : (admit first db).0 ≡ ok tt
unfolding admit enter add_call begin_for new_call on_refusal begin_direct_call lock_account
    reject_duplicate_request find_request balance add_reservation new_reservation write_reservations
    write_calls transaction ◌>>=◌
admitted = refl

abbrev first_call : Call
first_call = record call { call_id = 9 }

admit-IsReady_example : IsReady first_call (admit first db).1
admit-IsReady_example = admit-IsReady first first_call db refl refl db-IsSound admitted

abbrev report : opsark_admin.Json.Json
report = object (field "usage" (object (field "prompt_tokens" (integer (pos 12)) end)) end)

usage-IsRead_example :
    IsRead (some (integer (pos 12))) none (usage report chat_completions no_counts).input_tokens
    × IsRead none none (usage report chat_completions no_counts).output_tokens
usage-IsRead_example = usage-IsRead report chat_completions no_counts
