-- ===== src/Gateway/Paths.antt =====
-- app/gateway.py, `completions`: the paths through the handler up to its `except` clauses.
use opsark_admin.Common.{
  ℕ, ◌≡◌, refl, Bool, true, false, not, ◌&&◌, Option, none, some, arith, ◌==◌, if◌then◌else◌,
  Bool-cases, Option-cases, inl, inr, ◌⊎◌,
}
use opsark_admin.Errors.{
  Error, Code, Result, ok, err, api_error, integrity_error, value_error, unhandled_error, transport,
  cancelled_error,
}
use opsark_admin.Exec.{pure, raise, ◌>>=◌, ◌>>◌}
use opsark_admin.Exec.Keeps.{Result-cases}
use opsark_admin.Models.{
  CallStatus, succeeded, failed, CallError, ResponseStatus, Db, upstream_response,
}
use opsark_admin.Credits.{is_running}
use opsark_admin.Delivery.{not_dispatched}
use opsark_admin.Json.{Json, get_key, is_hashable}
use opsark_admin.Protocols.{status_of_text, response_status, check_output}
use opsark_admin.Parameters.Routes.{Protocol, chat_completions, responses, other_protocol}
use opsark_admin.Gateway.Exchange.{
  Call, Scope, Body, broken, json, unrenderable, unhandled, read_body, is_success, Fault, failing,
  invalid_value, client_gone, error_of, Arrival, unsent, answered, Exchange, no_slot, unbuilt, sent,
  Reply, relayed_reply, error_reply, finish, acquire, take_slot, set_dispatched, receive,
  report_usage, is_completion, is_completed, deliver_by, deliver, report_refusal, is_probe,
  has_unreadable_code, refuse, arrive, dispatch, reject, attempt_unless,
}
use opsark_admin.Gateway.Delivered.{IsSent, deliver-IsSent}
use opsark_admin.Gateway.Outcome.{IsReady, IsEnded, IsFree, finish-IsFinished}

-- The caller is told that the request was not dispatched.
abbrev pub is_unsent : Reply → Bool
is_unsent (error_reply status code not_dispatched) = true
is_unsent _ = false

abbrev pub is_fault : Error → Bool
is_fault value_error = true
is_fault (transport failure) = true
is_fault cancelled_error = true
is_fault _ = false

-- No exception passes the handlers and no relayed reply is refused by JSONResponse: what the code
-- looks up in a set, the status of a decoded reply of the Responses protocol and the code in the error
-- of a probed refusal, is no list and no dictionary.
abbrev is_readable_reply : Protocol → Json → Bool
is_readable_reply responses reply = is_hashable (get_key "status" reply)
is_readable_reply _ reply = true

-- The handlers name the exception.
abbrev pub is_handled : Fault → Bool
is_handled unhandled = false
is_handled _ = true

abbrev is_handled_body : Body → Bool
is_handled_body (broken fault) = is_handled fault
is_handled_body _ = true

abbrev is_readable_body : Protocol → Body → Bool
is_readable_body p (json reply) = is_readable_reply p reply
is_readable_body p (broken fault) = is_handled fault
is_readable_body p (unrenderable reply) = false

abbrev is_readable_refusal : Call → ℕ → Body → Bool
is_readable_refusal c status body =
    is_handled_body body && not (is_probe c.schema_requested status && has_unreadable_code body)

abbrev is_readable_answer : Call → ℕ → Body → Bool
is_readable_answer c status body =
    if is_success status
    then is_readable_body c.protocol body
    else is_readable_refusal c status body

abbrev is_readable_arrival : Call → Arrival → Bool
is_readable_arrival c (unsent fault) = is_handled fault
is_readable_arrival c (answered status body invalid unsupported) = is_readable_answer c status body

abbrev pub is_readable : Call → Exchange → Bool
is_readable c (sent arrival) = is_readable_arrival c arrival
is_readable c (no_slot fault) = is_handled fault
is_readable c (unbuilt fault) = is_handled fault

-- An exception that is not handled is raised only where something cannot be read.
abbrev pub can_raise : Bool → Error → Bool
can_raise readable unhandled_error = not readable
can_raise readable e = is_fault e

pub fault-can_raise :
    (readable : Bool) (e : Error) → is_fault e ≡ true → can_raise readable e ≡ true
fault-can_raise readable (api_error status code) fault = fault
fault-can_raise readable integrity_error fault = fault
fault-can_raise readable value_error fault = fault
fault-can_raise readable unhandled_error fault = absurd (ground arith)
fault-can_raise readable (transport failure) fault = fault
fault-can_raise readable cancelled_error fault = fault

-- A reply that was received could not be relayed.
pub record IsUnrelayed (readable : Bool) (e : Error) (s : Scope) : Type 0 where
  pub unread : readable ≡ false
  pub error : e ≡ value_error
  pub held : IsSent s

raised-can_raise : (fault : Fault) → can_raise (is_handled fault) (error_of fault) ≡ true
raised-can_raise (failing failure) = refl
raised-can_raise invalid_value = refl
raised-can_raise client_gone = refl
raised-can_raise unhandled = refl

can_raise_mono :
    (readable : Bool) (e : Error) → can_raise readable e ≡ true → can_raise false e ≡ true
can_raise_mono readable (api_error status code) h = h
can_raise_mono readable integrity_error h = h
can_raise_mono readable value_error h = h
can_raise_mono readable unhandled_error h = refl
can_raise_mono readable (transport failure) h = h
can_raise_mono readable cancelled_error h = h

-- A reply comes after the end of the call, and an exception before anything is written.
abbrev pub Goes : Bool → Call → Db → Result Reply × Scope → Type 0
Goes readable c db (ok reply, s) = IsEnded c s.db × (is_unsent reply ≡ true → IsFree c db s.db)
Goes readable c db (err e, s) =
    ((s.db ≡ db) × (can_raise readable e ≡ true)) ⊎ IsUnrelayed readable e s

check_output-cases :
    (output : Option Json) (status : ResponseStatus)
    → (check_output output status ≡ ok status) ⊎ (check_output output status ≡ err value_error)
unfolding check_output
check_output-cases output status = ground arith

response_status-cases :
    (reply : Json)
    → ((status : ResponseStatus) × (response_status reply ≡ ok status))
      ⊎ ((e : Error) × (response_status reply ≡ err e)
          × (can_raise (is_readable_reply responses reply) e ≡ true))
unfolding response_status
response_status-cases reply = elim (Bool-cases (is_hashable (get_key "status" reply))) [
  | inl known ↦ elim (Option-cases (status_of_text (get_key "status" reply))) [
    | inl missing ↦ rw (known, missing) (inr (value_error, refl, refl))
    | inr (status, there) ↦ elim (check_output-cases (get_key "output" reply) status) [
      | inl valid ↦ rw (known, there, valid) (inl (status, refl))
      | inr invalid ↦ rw (known, there, invalid) (inr (value_error, refl, refl))
    ]
  ]
  | inr unknown ↦ rw unknown (inr (unhandled_error, refl, refl))
]

pub error_of-is_fault : (fault : Fault) → is_handled fault ≡ true → is_fault (error_of fault) ≡ true
error_of-is_fault (failing failure) h = refl
error_of-is_fault invalid_value h = refl
error_of-is_fault client_gone h = refl
error_of-is_fault unhandled h = cc h

module _ (readable : Bool) (c : Call) (s : Scope) (h : IsReady c s.db) where
  finish-Goes :
      (status : CallStatus) (code : Option CallError) (http : Option ℕ) (reply : Reply)
      → is_running status ≡ false
      → (is_unsent reply ≡ true → s.dispatched ≡ false)
      → Goes readable c s.db ((finish c status code http >> pure reply) s)
  unfolding ◌>>=◌
  finish-Goes status code http reply over honest =
      let f = finish-IsFinished c status code http s over h in
      rw f.done (f.ended, λ e. f.free (honest e))

  status-Goes :
      (code : ℕ) (status : ResponseStatus)
      → Goes readable c s.db (
          ((if is_completed status
                then finish c succeeded none none
                else finish c failed (some (upstream_response status)) none)
              >> pure (relayed_reply code))
            s)
  status-Goes code status = elim (Bool-cases (is_completed status)) [
    | inl complete ↦ rw complete (finish-Goes succeeded none none _ refl (ground arith))
    | inr incomplete ↦ rw incomplete (finish-Goes failed _ none _ refl (ground arith))
  ]

  reject-Goes :
      (status : ℕ) (code : Code)
      → s.dispatched ≡ false
      → Goes readable c s.db (reject c status code s)
  unfolding reject
  reject-Goes status code idle = finish-Goes failed _ _ _ refl (λ e. idle)

module _ (c : Call) (s : Scope) (h : IsReady c s.db) where
  completion-Goes :
      (readable : Bool) (code : ℕ) (reply : Json)
      → Goes readable c s.db (
          (if is_completion reply
              then (finish c succeeded none none >> pure (relayed_reply code))
              else raise value_error)
            s)
  unfolding ◌>>=◌
  completion-Goes readable code reply = elim (Bool-cases (is_completion reply)) [
    | inl valid ↦ rw valid (finish-Goes readable c s h succeeded none none _ refl (ground arith))
    | inr invalid ↦ rw invalid (inl (refl, refl))
  ]

  deliver_by-Goes :
      (p : Protocol) (code : ℕ) (reply : Json)
      → Goes (is_readable_reply p reply) c s.db (deliver_by p c code reply s)
  unfolding deliver_by ◌>>=◌
  deliver_by-Goes responses code reply = elim (response_status-cases reply) [
    | inl (status, known) ↦
        rw known (status-Goes (is_readable_reply responses reply) c s h code status)
    | inr (e, invalid, fault) ↦ rw invalid (inl (refl, fault))
  ]
  deliver_by-Goes chat_completions code reply = completion-Goes true code reply
  deliver_by-Goes other_protocol code reply = completion-Goes true code reply

module _ (c : Call) where
  raise-Goes :
      (fault : Fault) (s : Scope)
      → Goes (is_handled fault) c s.db (raise {A = Reply} (error_of fault) s)
  unfolding ◌>>=◌
  raise-Goes fault s = inl (refl, raised-can_raise fault)

  report-Goes :
      (readable : Bool) (status : ℕ) (invalid unsupported : Bool) (s : Scope)
      → IsReady c s.db
      → Goes readable c s.db (report_refusal c status invalid unsupported s)
  unfolding report_refusal
  report-Goes readable status invalid unsupported s h =
      finish-Goes readable c s h failed _ none _ refl (ground arith)

  -- A refusal whose body was read, or could not be read, without an exception that passes.
  read_refusal-Goes :
      (probed invalid unsupported : Bool) (status : ℕ) (s : Scope)
      → IsReady c s.db
      → Goes (not probed) c s.db (
          (if probed then raise unhandled_error else report_refusal c status invalid unsupported) s)
  unfolding ◌>>=◌
  read_refusal-Goes true invalid unsupported status s h = inl (refl, refl)
  read_refusal-Goes false invalid unsupported status s h =
      report-Goes true status invalid unsupported s h

  refuse-Goes :
      (status : ℕ) (body : Body) (invalid unsupported : Bool) (s : Scope)
      → IsReady c s.db
      → Goes (is_readable_refusal c status body) c s.db (refuse c status body invalid unsupported s)
  unfolding refuse ◌>>=◌
  refuse-Goes status (broken client_gone) invalid unsupported s h = inl (refl, refl)
  refuse-Goes status (broken unhandled) invalid unsupported s h = inl (refl, refl)
  refuse-Goes status (broken invalid_value) invalid unsupported s h =
      read_refusal-Goes _ invalid unsupported status s h
  refuse-Goes status (broken (failing failure)) invalid unsupported s h =
      read_refusal-Goes _ invalid unsupported status s h
  refuse-Goes status (json reply) invalid unsupported s h =
      read_refusal-Goes _ invalid unsupported status s h
  refuse-Goes status (unrenderable reply) invalid unsupported s h =
      read_refusal-Goes _ invalid unsupported status s h

  deliver-Goes :
      (status : ℕ) (reply : Json) (s : Scope)
      → IsReady c s.db
      → Goes (is_readable_reply c.protocol reply) c s.db (deliver c status reply s)
  unfolding deliver report_usage ◌>>=◌
  deliver-Goes status reply s h =
      deliver_by-Goes c (report_usage reply c.protocol s).1 h c.protocol status reply

  unread-Goes :
      (readable : Bool) (e : Error) (s t : Scope)
      → Goes readable c s.db (err e, t)
      → Goes false c s.db (err e, t)
  unread-Goes readable e s t (inl (same, can)) = inl (same, can_raise_mono readable e can)
  unread-Goes readable e s t (inr w) =
      inr (record { unread = refl; error = w.error; held = w.held })

  unrelayed-Goes :
      (status : ℕ) (reply : Json) (s : Scope)
      → IsReady c s.db
      → IsSent s
      → Goes false c s.db ((deliver c status reply >> raise {A = Reply} value_error) s)
  unfolding ◌>>=◌
  unrelayed-Goes status reply s h held = elim (Result-cases (deliver c status reply s).0) [
    | inl (relayed, done) ↦ rw done (
        inr (record {
          unread = refl;
          error = refl;
          held = (deliver-IsSent c status reply).at s held;
        }))
    | inr (e, raised) ↦ rw raised (
        unread-Goes _ e s (deliver c status reply s).1
          (rw raised at (deliver-Goes status reply s h)))
  ]

  read_body-Goes :
      (status : ℕ) (body : Body) (s : Scope)
      → IsReady c s.db
      → IsSent s
      → Goes (is_readable_body c.protocol body) c s.db (read_body c status body s)
  unfolding read_body
  read_body-Goes status (broken fault) s h held = raise-Goes fault s
  read_body-Goes status (json reply) s h held = deliver-Goes status reply s h
  read_body-Goes status (unrenderable reply) s h held = unrelayed-Goes status reply s h held

  arrive-Goes :
      (a : Arrival) (s : Scope)
      → IsReady c s.db
      → IsSent s
      → Goes (is_readable_arrival c a) c s.db (arrive c a s)
  unfolding arrive receive ◌>>=◌
  arrive-Goes (unsent fault) s h held = raise-Goes fault s
  arrive-Goes (answered status body invalid unsupported) s h held =
      let after = (receive status s).1 in
      elim (Bool-cases (is_success status)) [
        | inl fine ↦ rw fine (
            read_body-Goes status body after h
              (record { acquired = held.acquired; dispatched = held.dispatched }))
        | inr bad ↦ rw bad (refuse-Goes status body invalid unsupported after h)
      ]

  dispatch-Goes :
      (x : Exchange) (s : Scope) → IsReady c s.db → Goes (is_readable c x) c s.db (dispatch c x s)
  unfolding dispatch acquire take_slot set_dispatched ◌>>=◌
  dispatch-Goes (no_slot fault) s h = raise-Goes fault s
  dispatch-Goes (unbuilt fault) s h = elim (Bool-cases (s.free_slots == 0)) [
    | inl busy ↦ rw busy (inl (refl, refl))
    | inr free ↦ rw free (inl (refl, raised-can_raise fault))
  ]
  dispatch-Goes (sent arrival) s h = elim (Bool-cases (s.free_slots == 0)) [
    | inl busy ↦ rw busy (inl (refl, refl))
    | inr free ↦ rw free (
        arrive-Goes arrival (set_dispatched true (take_slot s)).1 h
          (record { acquired = refl; dispatched = refl }))
  ]

  pub attempt_unless-Goes :
      (refusal : Option (ℕ × Code)) (x : Exchange) (s : Scope)
      → IsReady c s.db
      → s.dispatched ≡ false
      → Goes (is_readable c x) c s.db (attempt_unless refusal c x s)
  unfolding attempt_unless
  attempt_unless-Goes none x s h idle = dispatch-Goes x s h
  attempt_unless-Goes (some (status, code)) x s h idle =
      reject-Goes (is_readable c x) c s h status code idle
