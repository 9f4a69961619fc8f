-- ===== src/Gateway/Kept.antt =====
-- app/gateway.py, `completions`: a property of rows and slots that `finish` and the waiting for a slot
-- keep, and that says nothing of the handler's other variables, every exchange keeps.
use opsark_admin.Common.{ℕ, Bool, true, Option, none, some}
use opsark_admin.Errors.{
  Error, Code, api_error, integrity_error, value_error, unhandled_error, transport, cancelled_error,
}
use opsark_admin.Exec.{catch, ◌>>◌}
use opsark_admin.Exec.Keeps.{Keeps, keeps_rules, Keeps-modify, Keeps-catch}
use opsark_admin.Models.{CallStatus, CallError}
use opsark_admin.Json.{Json}
use opsark_admin.Parameters.Routes.{Protocol, chat_completions, responses, other_protocol}
use opsark_admin.Gateway.Usage.{Pending}
use opsark_admin.Gateway.Exchange.{
  Call, Scope, Body, broken, json, read_body, Arrival, unsent, answered, Exchange, no_slot, unbuilt,
  sent, finish, acquire, set_dispatched, receive, report_usage, deliver_by, deliver, refuse,
  report_refusal, unrenderable, arrive, dispatch, reject, attempt_unless, attempt, fail, on_failure,
}

module _ {P : Scope → Type 0}
    (keeps_finish : (c : Call) (status : CallStatus) (code : Option CallError) (http : Option ℕ)
      → Keeps P (finish c status code http))
    (local : (s : Scope) (dispatched received : Bool) (pending : Pending)
      → P s
      → P (record s { dispatched = dispatched; received = received; pending = pending })) where
  set_dispatched-Keeps : (flag : Bool) → Keeps P (set_dispatched flag)
  unfolding set_dispatched
  set_dispatched-Keeps flag = Keeps-modify _ (λ s h. local s flag s.received s.pending h)

  receive-Keeps : (status : ℕ) → Keeps P (receive status)
  unfolding receive
  receive-Keeps status = Keeps-modify _ (λ s h. local s s.dispatched _ _ h)

  report_usage-Keeps : (reply : Json) (p : Protocol) → Keeps P (report_usage reply p)
  unfolding report_usage
  report_usage-Keeps reply p = Keeps-modify _ (λ s h. local s s.dispatched s.received _ h)

  report-Keeps :
      (c : Call) (status : ℕ) (invalid unsupported : Bool)
      → Keeps P (report_refusal c status invalid unsupported)
  unfolding report_refusal
  report-Keeps c status invalid unsupported = search (keeps_rules, keeps_finish) depth 8

  refuse-Keeps :
      (c : Call) (status : ℕ) (body : Body) (invalid unsupported : Bool)
      → Keeps P (refuse c status body invalid unsupported)
  unfolding refuse
  refuse-Keeps c status body invalid unsupported = search (keeps_rules, report-Keeps) depth 8

  deliver_by-Keeps :
      (p : Protocol) (c : Call) (status : ℕ) (reply : Json) → Keeps P (deliver_by p c status reply)
  unfolding deliver_by
  deliver_by-Keeps responses c status reply = search (keeps_rules, keeps_finish) depth 8
  deliver_by-Keeps chat_completions c status reply = search (keeps_rules, keeps_finish) depth 8
  deliver_by-Keeps other_protocol c status reply = search (keeps_rules, keeps_finish) depth 8

  deliver-Keeps : (c : Call) (status : ℕ) (reply : Json) → Keeps P (deliver c status reply)
  unfolding deliver
  deliver-Keeps c status reply = search (keeps_rules, report_usage-Keeps, deliver_by-Keeps)

  read_body-Keeps : (c : Call) (status : ℕ) (body : Body) → Keeps P (read_body c status body)
  unfolding read_body
  read_body-Keeps c status (broken fault) = search keeps_rules
  read_body-Keeps c status (json reply) = deliver-Keeps c status reply
  read_body-Keeps c status (unrenderable reply) = search (keeps_rules, deliver-Keeps)

  pub arrive-Keeps : (c : Call) (a : Arrival) → Keeps P (arrive c a)
  unfolding arrive
  arrive-Keeps c (unsent fault) = search keeps_rules
  arrive-Keeps c (answered status body invalid unsupported) =
      search (keeps_rules, receive-Keeps, read_body-Keeps, refuse-Keeps)

  pub sent-Keeps : (c : Call) (a : Arrival) → Keeps P (set_dispatched true >> arrive c a)
  sent-Keeps c a = search (keeps_rules, set_dispatched-Keeps, arrive-Keeps)

  fail-Keeps : (c : Call) (e : Error) → Keeps P (fail c e)
  unfolding fail
  fail-Keeps c e = search (keeps_rules, keeps_finish, set_dispatched-Keeps) depth 12

  pub on_failure-Keeps : (c : Call) (e : Error) → Keeps P (on_failure c e)
  unfolding on_failure
  on_failure-Keeps c (api_error status code) = search keeps_rules
  on_failure-Keeps c integrity_error = search keeps_rules
  on_failure-Keeps c value_error = fail-Keeps c value_error
  on_failure-Keeps c unhandled_error = search keeps_rules
  on_failure-Keeps c (transport failure) = fail-Keeps c (transport failure)
  on_failure-Keeps c cancelled_error = search (keeps_rules, keeps_finish)

  pub reject-Keeps : (c : Call) (status : ℕ) (code : Code) → Keeps P (reject c status code)
  unfolding reject
  reject-Keeps c status code = search (keeps_rules, keeps_finish)

  module _ (keeps_acquire : Keeps P acquire) where
    dispatch-Keeps : (c : Call) (x : Exchange) → Keeps P (dispatch c x)
    unfolding dispatch
    dispatch-Keeps c (no_slot fault) = search keeps_rules
    dispatch-Keeps c (unbuilt fault) = search (keeps_rules, keeps_acquire)
    dispatch-Keeps c (sent arrival) = search (keeps_rules, keeps_acquire, sent-Keeps)

    attempt_unless-Keeps :
        (refusal : Option (ℕ × Code)) (c : Call) (x : Exchange)
        → Keeps P (attempt_unless refusal c x)
    unfolding attempt_unless
    attempt_unless-Keeps none c x = dispatch-Keeps c x
    attempt_unless-Keeps (some (status, code)) c x = reject-Keeps c status code

    attempt-Keeps : (c : Call) (x : Exchange) → Keeps P (attempt c x)
    unfolding attempt
    attempt-Keeps c x = attempt_unless-Keeps c.capability_error c x

    pub handled-Keeps : (c : Call) (x : Exchange) → Keeps P (catch (attempt c x) (on_failure c))
    handled-Keeps c x = Keeps-catch _ _ (attempt-Keeps c x) (on_failure-Keeps c)
