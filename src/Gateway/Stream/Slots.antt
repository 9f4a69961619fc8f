-- ===== src/Gateway/Stream/Slots.antt =====
-- app/gateway.py, the streamed reply of `completions`: the slot that its generator gives back.
use opsark_admin.Common.{
  ℕ, ◌≡◌, Bool, false, Option, none, some, List, [], ◌∷◌, arith, Bool-cases, inl, inr, ◌==◌, ◌∙◌,
  ◌+◌, ◌++◌, length, ltb,
}
use opsark_admin.Errors.{
  Error, Result, ok, err, api_error, integrity_error, value_error, unhandled_error, transport,
  cancelled_error,
}
use opsark_admin.Exec.{Exec, modify, ◌>>=◌}
use opsark_admin.Exec.Keeps.{
  Keeps, keeps_rules, Keeps-modify, Keeps-catch, Keeps-bind, Keeps-if, Keeps-raise,
}
use opsark_admin.Models.{CallStatus, CallError}
use opsark_admin.Json.{Json, Fields}
use opsark_admin.Parameters.Routes.{Protocol}
use opsark_admin.Gateway.Lines.{Bytes, split_lines}
use opsark_admin.Gateway.Exchange.{
  Call, Scope, Fault, finish, report_usage, acquire, take_slot, set_dispatched, receive,
}
use opsark_admin.Gateway.Kept.{on_failure-Keeps}
use opsark_admin.Gateway.Slots.{slots, finish-slots, release-slots}
use opsark_admin.Gateway.Stream.{
  StreamCall, StreamEvent, Streaming, Feed, Progress, continues, finished, escaped, Verdict, fine,
  invalid, crashing, on_scope, emit, yield_event, settle_choices, take_choices, take_event,
  complete, resume, take_value, take_line, take_lines, end_feed, take_parts, interrupt,
  on_stream_failure, events, open_stream, started, go_on, handle_stream, Parsed, malformed,
  too_deep, parsed, reads, respond, take_parsed,
}

-- The free slots and the one of the call.
abbrev Slots : ℕ → Streaming → Type 0
Slots n s = slots s.scope ≡ n

module _ (n : ℕ) where
  on_scope-Keeps :
      {A : Type 0} (m : Exec Scope A)
      → Keeps (λ scope. slots scope ≡ n) m
      → Keeps (Slots n) (on_scope m)
  unfolding on_scope
  on_scope-Keeps m kept = record { at = λ s h. kept.at s.scope h }

  emit-Keeps : (e : StreamEvent) → Keeps (Slots n) (modify (emit e))
  emit-Keeps e = Keeps-modify _ (λ s h. h)

  yield_event-Keeps : (e : StreamEvent) → Keeps (Slots n) (yield_event e)
  unfolding yield_event ◌>>=◌
  yield_event-Keeps e = record { at = λ s h. h }

  settle_choices-Keeps :
      (verdict : Verdict) (c : StreamCall) (fields : Fields)
      → Keeps (Slots n) (settle_choices verdict c fields)
  unfolding settle_choices
  settle_choices-Keeps fine c fields = yield_event-Keeps _
  settle_choices-Keeps invalid c fields = search keeps_rules
  settle_choices-Keeps crashing c fields = search keeps_rules

  reported-Keeps :
      (reply : Json) (protocol : Protocol)
      → Keeps (Slots n) (on_scope (report_usage reply protocol))
  unfolding report_usage
  reported-Keeps reply protocol = on_scope-Keeps _ (Keeps-modify _ (λ s h. h))

  take_choices-Keeps :
      (c : StreamCall) (fields : Fields) (found : Option Json)
      → Keeps (Slots n) (take_choices c fields found)
  unfolding take_choices
  take_choices-Keeps c fields (some (Json.array choices)) =
      search (keeps_rules, reported-Keeps, settle_choices-Keeps)
  take_choices-Keeps c fields _ = search keeps_rules

  take_event-Keeps : (c : StreamCall) (found : Json) → Keeps (Slots n) (take_event c found)
  unfolding take_event
  take_event-Keeps c (Json.object fields) = search (keeps_rules, take_choices-Keeps)
  take_event-Keeps c _ = search keeps_rules

  recorded-Keeps :
      (c : Call) (status : CallStatus) (code : Option CallError)
      → Keeps (Slots n) (on_scope (finish c status code none))
  recorded-Keeps c status code = on_scope-Keeps _ (finish-slots n c status code none)

  complete-Keeps : (c : StreamCall) → Keeps (Slots n) (complete c)
  unfolding complete
  complete-Keeps c = search (keeps_rules, recorded-Keeps, emit-Keeps)

  resume-Keeps :
      (progress : Progress) (next : Exec Streaming Progress)
      → Keeps (Slots n) next
      → Keeps (Slots n) (resume progress next)
  resume-Keeps continues next kept = kept
  resume-Keeps finished next kept = search keeps_rules
  resume-Keeps escaped next kept = search keeps_rules

  interrupt-Keeps : (c : StreamCall) → Keeps (Slots n) (interrupt c)
  unfolding interrupt
  interrupt-Keeps c = search (keeps_rules, recorded-Keeps, emit-Keeps)

  on_stream_failure-Keeps : (c : StreamCall) (e : Error) → Keeps (Slots n) (on_stream_failure c e)
  unfolding on_stream_failure
  on_stream_failure-Keeps c value_error = interrupt-Keeps c
  on_stream_failure-Keeps c (transport failure) = interrupt-Keeps c
  on_stream_failure-Keeps c cancelled_error = search (keeps_rules, recorded-Keeps)
  on_stream_failure-Keeps c (api_error status code) = search keeps_rules
  on_stream_failure-Keeps c integrity_error = search keeps_rules
  on_stream_failure-Keeps c unhandled_error = search keeps_rules

  end_feed-Keeps : (ending : Option Fault) → Keeps (Slots n) (end_feed ending)
  unfolding end_feed
  end_feed-Keeps none = search keeps_rules
  end_feed-Keeps (some fault) = search keeps_rules

  take_parsed-Keeps : (c : StreamCall) (found : Parsed) → Keeps (Slots n) (take_parsed c found)
  unfolding take_parsed
  take_parsed-Keeps c malformed = search keeps_rules
  take_parsed-Keeps c too_deep = search keeps_rules
  take_parsed-Keeps c (parsed found) = take_event-Keeps c found

  module _ (loads : Bytes → Parsed) (c : StreamCall) where
    take_value-Keeps : (value : Bytes) → Keeps (Slots n) (take_value loads c value)
    unfolding take_value
    take_value-Keeps value = search (keeps_rules, complete-Keeps, take_parsed-Keeps)

    take_line-Keeps : (line : Bytes) → Keeps (Slots n) (take_line loads c line)
    unfolding take_line
    take_line-Keeps line = search (keeps_rules, take_value-Keeps)

    take_lines-Keeps : (lines : List Bytes) → Keeps (Slots n) (take_lines loads c lines)
    unfolding take_lines
    take_lines-Keeps [] = search keeps_rules
    take_lines-Keeps (line ∷ lines) =
        Keeps-bind _ _ (take_line-Keeps line)
          (λ progress. resume-Keeps progress _ (take_lines-Keeps lines))

    take_parts-Keeps :
        (total : ℕ) (pending : Bytes) (parts : List Bytes) (ending : Option Fault)
        → Keeps (Slots n) (take_parts loads c total pending parts ending)
    unfolding take_parts
    take_parts-Keeps total pending [] ending = end_feed-Keeps ending
    take_parts-Keeps total pending (part ∷ parts) ending =
        let split = split_lines (pending ++ part) in
        Keeps-if (ltb 16777216 (total + length part)) _ _ (Keeps-raise value_error) (
          Keeps-if (ltb 1048576 (length (pending ++ part))) _ _ (Keeps-raise value_error) (
            Keeps-bind (take_lines loads c split.0) _ (take_lines-Keeps split.0) (λ progress.
              resume-Keeps progress _
                (take_parts-Keeps (total + length part) split.1 parts ending))))

    -- The generator gives the slot back.
    events-free_slots :
        (feed : Feed) (s : Streaming)
        → slots s.scope ≡ n
        → (events loads c feed s).1.scope.free_slots ≡ n
    unfolding events
    events-free_slots feed s h =
        release-slots _
        ∙ (Keeps-catch _ _ (take_parts-Keeps 0 [] feed.parts feed.ending)
              (on_stream_failure-Keeps c)).at
            s h

opened-slots :
    (status : ℕ) (is_event_stream : Bool) (scope : Scope)
    → scope.acquired ≡ false
    → slots (open_stream status is_event_stream scope).1 ≡ scope.free_slots
unfolding open_stream acquire take_slot set_dispatched receive ◌>>=◌
opened-slots status is_event_stream scope fresh = elim (Bool-cases (scope.free_slots == 0)) [
  | inl busy ↦ rw busy (ground (arith, fresh))
  | inr free ↦ elim (Bool-cases is_event_stream) [
    | inl right ↦ rw (free, right) (ground (arith, fresh))
    | inr other ↦ rw (free, other) (ground (arith, fresh))
  ]
]

go_on-free_slots :
    (loads : Bytes → Parsed) (c : StreamCall) (feed : Feed) (patience : Option ℕ) (n : ℕ)
    (p : Result (Unit {0}) × Scope)
    → slots p.1 ≡ n
    → (go_on loads c feed (reads patience) p).1.scope.free_slots ≡ n
unfolding go_on respond
go_on-free_slots loads c feed patience n (ok a, scope) h =
    events-free_slots n loads c feed (started patience scope) h
go_on-free_slots loads c feed patience n (err e, scope) h =
    release-slots _ ∙ (on_failure-Keeps (finish-slots n) (λ t d r p k. k) c.call e).at scope h

-- A streamed call whose response is started gives back exactly the slot that it took, if it took one:
-- in its generator, however that ends, or in the handler where there is no generator yet.
pub handle_stream-free_slots :
    (loads : Bytes → Parsed) (c : StreamCall) (status : ℕ) (is_event_stream : Bool) (feed : Feed)
    (patience : Option ℕ) (scope : Scope)
    → scope.acquired ≡ false
    → (handle_stream loads c status is_event_stream feed (reads patience) scope).1.scope.free_slots
      ≡ scope.free_slots
unfolding handle_stream
handle_stream-free_slots loads c status is_event_stream feed patience scope fresh =
    go_on-free_slots loads c feed patience scope.free_slots
      (open_stream status is_event_stream scope) (opened-slots status is_event_stream scope fresh)
