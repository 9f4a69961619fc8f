-- ===== src/Gateway/Delivered.antt =====
-- app/gateway.py, `completions`: a reply that was received and cannot be relayed.
use opsark_admin.Common.{◌≡◌, Bool, true, none, some, inl, inr, ℕ, Option}
use opsark_admin.Errors.{ok, value_error}
use opsark_admin.Exec.{◌>>=◌}
use opsark_admin.Exec.Keeps.{Keeps, keeps_rules, Result-cases}
use opsark_admin.Models.{CallStatus, failed, CallError}
use opsark_admin.Json.{Json}
use opsark_admin.Parameters.Routes.{Protocol, chat_completions, responses, other_protocol}
use opsark_admin.Gateway.Exchange.{
  Call, Scope, Reply, error_reply, finish, on_db, report_usage, deliver_by, deliver, fail,
  failure_code, certainty_after,
}

-- The handler has a slot and has sent its request.
pub record IsSent (s : Scope) : Type 0 where
  pub acquired : s.acquired ≡ true
  pub dispatched : s.dispatched ≡ true

finish-IsSent :
    (c : Call) (status : CallStatus) (code : Option CallError) (http : Option ℕ)
    → Keeps IsSent (finish c status code http)
unfolding finish on_db ◌>>=◌
finish-IsSent c status code http = record {
  at = λ s h. record { acquired = h.acquired; dispatched = h.dispatched };
}

report_usage-IsSent : (reply : Json) (p : Protocol) → Keeps IsSent (report_usage reply p)
unfolding report_usage ◌>>=◌
report_usage-IsSent reply p = record {
  at = λ s h. record { acquired = h.acquired; dispatched = h.dispatched };
}

deliver_by-IsSent :
    (p : Protocol) (c : Call) (status : ℕ) (reply : Json)
    → Keeps IsSent (deliver_by p c status reply)
unfolding deliver_by
deliver_by-IsSent responses c status reply = search (keeps_rules, finish-IsSent) depth 8
deliver_by-IsSent chat_completions c status reply = search (keeps_rules, finish-IsSent) depth 8
deliver_by-IsSent other_protocol c status reply = search (keeps_rules, finish-IsSent) depth 8

pub deliver-IsSent : (c : Call) (status : ℕ) (reply : Json) → Keeps IsSent (deliver c status reply)
unfolding deliver
deliver-IsSent c status reply = search (keeps_rules, report_usage-IsSent, deliver_by-IsSent)

-- The caller is not told that such a request was not dispatched.
pub fail-IsSent :
    (c : Call) (s : Scope) (reply : Reply)
    → IsSent s
    → (fail c value_error s).0 ≡ ok reply
    → (received : Bool) × (reply
        ≡ error_reply 502 (failure_code true value_error) (certainty_after true received))
unfolding fail finish on_db ◌>>=◌
fail-IsSent c s reply h done =
    let m = finish c failed (some (failure_code s.acquired value_error)) none in
    elim (Result-cases (m s).0) [
      | inl (u, returned) ↦ (s.received, cc (rw (h.acquired, h.dispatched) at done, returned))
      | inr (e, raised) ↦ cc (rw (h.acquired, h.dispatched) at done, raised)
    ]
