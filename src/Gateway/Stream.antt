-- ===== src/Gateway/Stream.antt =====
-- app/gateway.py, the streamed reply of `completions`: the opening of the stream in the outer `try`, and
-- the generator `events` that reads the provider's reply and yields events to the client. A `Feed` is
-- what the network does, a `Client` what becomes of the response: it is cancelled before its generator
-- is started, or `patience` events are taken before the generator is closed at a `yield`; `json.loads`
-- is a parameter. Each request reads its own generator once.
pub mod Chunks
pub mod Closing
pub mod Slots
mod Tests
use opsark_admin.Common.{
  ℕ, ◌+◌, ◌-◌, Bool, true, false, ◌&&◌, ◌||◌, not, Option, none, some, List, [], ◌∷◌, ◌++◌, String,
  ltb, ◌==◌, if◌then◌else◌, length,
}
use opsark_admin.Common.Int.{ℤ, pos, eqb_ℤ}
use opsark_admin.Errors.{Error, Result, ok, err, value_error, transport, cancelled_error}
use opsark_admin.Exec.{Exec, pure, raise, lift, gets, modify, catch, ◌>>=◌, ◌>>◌, match_option}
use opsark_admin.Models.{
  CallStatus, succeeded, failed, cancelled, stream_interrupted, client_disconnected,
}
use opsark_admin.Accounts.{text_eq}
use opsark_admin.Json.{
  Json, null, boolean, integer, decimal, str, array, object, Items, nil, item, Fields, field,
  find_field, is_there,
}
use opsark_admin.Gateway.Lines.{Bytes, split_lines, event_value, is_done}
use opsark_admin.Gateway.Exchange.{
  Call, Scope, Fault, error_of, Reply, finish, acquire, set_dispatched, receive, report_usage,
  on_failure, release,
}

-- `alias` is the model's name that the client gave, `capture` the setting.
pub record StreamCall : Type 0 where
  pub call : Call
  pub alias : String
  pub capture : Bool

pub data StreamEvent : Type 0 where
  event : Json → StreamEvent
  done_event interrupted_event : StreamEvent

-- The variables of the generator, with those of the handler; `total` and `pending` are passed along.
pub record Streaming : Type 0 where
  pub scope : Scope
  pub patience : Option ℕ
  pub emitted : List StreamEvent

-- `escaped`: an exception is raised that none of the handlers catches. It is the GeneratorExit of a
-- generator that is closed at a `yield`, a TypeError or a RecursionError. A generator that is never
-- started ends in this way too.
pub data Progress : Type 0 where
  continues finished escaped : Progress

-- The parts that arrive, and how the reading ends: with the reply's end, or with an exception.
pub record Feed : Type 0 where
  pub parts : List Bytes
  pub ending : Option Fault

-- What `json.loads` makes of a value: a ValueError, a RecursionError or a JSON value.
pub data Parsed : Type 0 where
  malformed too_deep : Parsed
  parsed : Json → Parsed

pub data Client : Type 0 where
  absent : Client
  reads : Option ℕ → Client

-- What a check of the reply raises: nothing, a ValueError or a TypeError.
pub data Verdict : Type 0 where
  fine invalid crashing : Verdict

abbrev pub is_falsy : Json → Bool
is_falsy null = true
is_falsy (boolean b) = not b
is_falsy (integer n) = eqb_ℤ n (pos 0)
is_falsy (decimal n) = n == 0
is_falsy (str s) = text_eq s ""
is_falsy (array nil) = true
is_falsy (object Fields.end) = true
is_falsy _ = false

-- `(tool.get("function") or {}).get(key) or ""`, which has to be a text.
abbrev pub is_tool_text : Option Json → Bool
is_tool_text none = true
is_tool_text (some (str s)) = true
is_tool_text (some value) = is_falsy value

abbrev pub is_function : Option Json → Bool
is_function none = true
is_function (some (object fields)) =
    is_tool_text (find_field "name" fields) && is_tool_text (find_field "arguments" fields)
is_function _ = false

abbrev pub is_tool : Json → Bool
is_tool (object fields) = is_function (find_field "function" fields)
is_tool _ = false

abbrev pub check_tools : Items → Verdict
check_tools nil = fine
check_tools (item x xs) = let rest = check_tools xs in if is_tool x then rest else invalid

-- `for tool in delta.get("tool_calls") or []`: a text or a dictionary yields texts, and what is no
-- container cannot be iterated over.
abbrev pub check_tool_calls : Json → Verdict
check_tool_calls (array items) = check_tools items
check_tool_calls (str s) = invalid
check_tool_calls (object fields) = invalid
check_tool_calls _ = crashing

abbrev pub check_calls : Option Json → Verdict
check_calls none = fine
check_calls (some value) = if is_falsy value then fine else check_tool_calls value

abbrev pub check_fields : Json → Verdict
check_fields (object fields) = check_calls (find_field "tool_calls" fields)
check_fields _ = invalid

-- `choice.get("delta") or {}`
abbrev pub check_delta : Option Json → Verdict
check_delta none = fine
check_delta (some value) = if is_falsy value then fine else check_fields value

abbrev pub check_choice : Bool → Json → Verdict
check_choice capture (object fields) =
    if capture then check_delta (find_field "delta" fields) else fine
check_choice capture _ = invalid

-- The first check that fails ends the loop.
abbrev pub and_then : Verdict → Verdict → Verdict
and_then fine next = next
and_then verdict next = verdict

abbrev pub check_choices : Bool → Items → Verdict
check_choices capture nil = fine
check_choices capture (item x xs) = and_then (check_choice capture x) (check_choices capture xs)

-- `data["model"] = alias`
abbrev pub set_field : String → Json → Fields → Fields
set_field key value Fields.end = field key value Fields.end
set_field key value (field name old rest) =
    let others = set_field key value rest in
    if text_eq name key then field name value rest else field name old others

unfoldable pub on_scope : {A : Type 0} → Exec Scope A → Exec Streaming A
on_scope m s = let (r, scope) = m s.scope in (r, record s { scope = scope })

abbrev pub emit : StreamEvent → Streaming → Streaming
emit e s = record s { emitted = s.emitted ++ e ∷ [] }

abbrev pub after_yield : Option ℕ → Progress
after_yield none = continues
after_yield (some n) = if n == 0 then escaped else continues

abbrev pub less_patience : Option ℕ → Option ℕ
less_patience none = none
less_patience (some n) = some (n - 1)

-- `yield`, where the generator may be closed.
unfoldable pub yield_event : StreamEvent → Exec Streaming Progress
yield_event e = do
  modify (emit e)
  patience ← gets (λ s. s.patience)
  modify λ s. record s { patience = less_patience s.patience }
  pure (after_yield patience)

unfoldable pub settle_choices : Verdict → StreamCall → Fields → Exec Streaming Progress
settle_choices fine c fields = yield_event (event (object (set_field "model" (str c.alias) fields)))
settle_choices invalid c fields = raise value_error
settle_choices crashing c fields = pure escaped

-- An event: an object without "error", with a list of choices. Its usage is read first.
unfoldable pub take_choices : StreamCall → Fields → Option Json → Exec Streaming Progress
take_choices c fields (some (array choices)) = do
  on_scope (report_usage (object (set_field "model" (str c.alias) fields)) c.call.protocol)
  settle_choices (check_choices c.capture choices) c fields
take_choices c fields _ = raise value_error

unfoldable pub take_event : StreamCall → Json → Exec Streaming Progress
take_event c (object fields) =
    if is_there (find_field "error" fields)
    then raise value_error
    else take_choices c fields (find_field "choices" fields)
take_event c _ = raise value_error

-- `finish("succeeded")` and the last `yield`; the generator returns, or is closed with the same
-- effect.
unfoldable pub complete : StreamCall → Exec Streaming Progress
complete c = do
  on_scope (finish c.call succeeded none none)
  modify (emit done_event)
  pure finished

-- The loops go on with what comes next unless the generator is through.
abbrev pub resume : Progress → Exec Streaming Progress → Exec Streaming Progress
resume continues next = next
resume finished next = pure finished
resume escaped next = pure escaped

-- The `except` clauses of the generator.
unfoldable pub interrupt : StreamCall → Exec Streaming Progress
interrupt c = do
  on_scope (finish c.call failed (some stream_interrupted) none)
  modify (emit interrupted_event)
  pure finished

unfoldable pub on_stream_failure : StreamCall → Error → Exec Streaming Progress
on_stream_failure c cancelled_error = do
  on_scope (finish c.call cancelled (some client_disconnected) none)
  raise cancelled_error
on_stream_failure c value_error = interrupt c
on_stream_failure c (transport failure) = interrupt c
on_stream_failure c e = raise e

-- A reply that ends before its last event is an error too.
unfoldable pub end_feed : Option Fault → Exec Streaming Progress
end_feed none = raise value_error
end_feed (some fault) = raise (error_of fault)

unfoldable pub take_parsed : StreamCall → Parsed → Exec Streaming Progress
take_parsed c malformed = raise value_error
take_parsed c too_deep = pure escaped
take_parsed c (parsed found) = take_event c found

module _ (loads : Bytes → Parsed) where
  unfoldable pub take_value : StreamCall → Bytes → Exec Streaming Progress
  take_value c value = if is_done value then complete c else take_parsed c (loads value)

  -- A line that is no event is passed over.
  unfoldable pub take_line : StreamCall → Bytes → Exec Streaming Progress
  take_line c line = match_option (event_value line) (pure continues) (take_value c)

  -- The lines in order, up to one that ends the generator.
  unfoldable pub take_lines : StreamCall → List Bytes → Exec Streaming Progress
  take_lines c [] = pure continues
  take_lines c (line ∷ lines) = do progress ← take_line c line; resume progress (take_lines c lines)

  -- The parts of the reply, of which `total` bytes were read and `pending` make no line yet: at most
  -- 16 MiB in all, and 1 MiB that are not split yet.
  unfoldable pub take_parts :
      StreamCall → ℕ → Bytes → List Bytes → Option Fault → Exec Streaming Progress
  take_parts c total pending [] ending = end_feed ending
  take_parts c total pending (part ∷ parts) ending =
      if ltb 16777216 (total + length part)
      then raise value_error
      else if ltb 1048576 (length (pending ++ part))
      then raise value_error
      else (do
        progress ← take_lines c (split_lines (pending ++ part)).0
        resume progress
            (take_parts c (total + length part) (split_lines (pending ++ part)).1 parts ending))

  -- The generator with its `finally`.
  unfoldable pub events : StreamCall → Feed → Exec Streaming Progress
  events c feed s =
      let (r, ended) = catch (take_parts c 0 [] feed.parts feed.ending) (on_stream_failure c) s in
      (r, record ended { scope = release ended.scope })

-- The outer `try` up to the StreamingResponse, for a reply of that status.
unfoldable pub open_stream : ℕ → Bool → Exec Scope Unit
open_stream status is_event_stream = do
  acquire
  set_dispatched true
  receive status
  if is_event_stream then pure tt else raise value_error

pub data Opened : Type 0 where
  replied : Reply → Opened
  streamed : Progress → Opened

abbrev pub as_opened : {A : Type 0} → (A → Opened) → Result A → Result Opened
as_opened f (ok a) = ok (f a)
as_opened f (err e) = err e

abbrev pub started : Option ℕ → Scope → Streaming
started patience scope = record { scope = scope; patience = patience; emitted = [] }

-- The StreamingResponse with its generator, whose `finally` runs only if it is started: the slot is
-- released by the generator once there is one, and by the handler before.
unfoldable pub respond :
    (Bytes → Parsed) → StreamCall → Feed → Client → Scope → Result Opened × Streaming
respond loads c feed absent scope = (ok (streamed escaped), started none scope)
respond loads c feed (reads patience) scope =
    let (r, s) = events loads c feed (started patience scope) in (as_opened streamed r, s)

unfoldable pub go_on :
    (Bytes → Parsed)
    → StreamCall
    → Feed
    → Client
    → Result (Unit {0}) × Scope
    → Result Opened × Streaming
go_on loads c feed client (ok a, scope) = respond loads c feed client scope
go_on loads c feed client (err e, scope) =
    let (r, s) = on_failure c.call e scope in (as_opened replied r, started none (release s))

-- A streamed call from the wait for a slot, where the request is sent and answered.
unfoldable pub handle_stream :
    (Bytes → Parsed) → StreamCall → ℕ → Bool → Feed → Client → Scope → Result Opened × Streaming
handle_stream loads c status is_event_stream feed client scope =
    go_on loads c feed client (open_stream status is_event_stream scope)
