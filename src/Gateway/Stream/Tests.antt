-- ===== src/Gateway/Stream/Tests.antt =====
-- app/gateway.py, the streamed reply of `completions` at the small database of Credits/Samples.antt.
use opsark_admin.Common.{◌≡◌, refl, true, false, none, some, [], ◌∷◌, arith}
use opsark_admin.Errors.{read_error}
use opsark_admin.Credits.Samples.{db}
use opsark_admin.Json.{object, array, field, end, nil}
use opsark_admin.Parameters.Routes.{chat_completions}
use opsark_admin.Gateway.Lines.{Bytes}
use opsark_admin.Gateway.Exchange.{
  Call, Scope, failing, acquire, take_slot, set_dispatched, receive,
}
use opsark_admin.Exec.{◌>>=◌}
use opsark_admin.Gateway.Stream.{
  StreamCall, Feed, Parsed, parsed, absent, reads, started, events, open_stream, respond, go_on,
  handle_stream,
}
use opsark_admin.Gateway.Stream.Chunks.{events-whole}
use opsark_admin.Gateway.Stream.Slots.{handle_stream-free_slots}

abbrev call : Call
call = record {
  call_id = 7;
  user_id = none;
  protocol = chat_completions;
  schema_requested = false;
  capability_error = none;
  elapsed = 12;
  ended_at = 50;
}

abbrev streaming : StreamCall
streaming = record { call = call; alias = "fast"; capture = true }

abbrev scope : Scope
scope = record {
  db = db;
  free_slots = 3;
  acquired = false;
  dispatched = false;
  received = false;
  pending = record { http_status = none; input_tokens = none; output_tokens = none };
}

-- Every value is read as an event without choices.
abbrev loads : Bytes → Parsed
loads bytes = parsed (object (field "choices" (array nil) end))

abbrev event_line : Bytes
event_line = b'd' ∷ b'a' ∷ b't' ∷ b'a' ∷ b':' ∷ b'{' ∷ b'}' ∷ b'\n' ∷ []

abbrev feed : Feed
feed = record { parts = event_line ∷ []; ending = some (failing read_error) }

handle_stream-free_slots_example :
    (handle_stream loads streaming 200 true feed (reads (some 0)) scope).1.scope.free_slots ≡ 3
handle_stream-free_slots_example =
    handle_stream-free_slots loads streaming 200 true feed (some 0) scope refl

-- A response that is cancelled before its generator is started keeps its slot.
slot_kept : (handle_stream loads streaming 200 true feed absent scope).1.scope.free_slots ≡ 2
unfolding handle_stream go_on respond open_stream acquire take_slot set_dispatched receive ◌>>=◌
slot_kept = refl

abbrev first_half : Bytes
first_half = b'd' ∷ b'a' ∷ []

abbrev second_half : Bytes
second_half = b't' ∷ b'a' ∷ b':' ∷ b'{' ∷ b'}' ∷ b'\n' ∷ []

events-whole_example :
    events loads streaming
      (record { parts = first_half ∷ second_half ∷ []; ending = none })
      (started none scope)
    ≡ events loads streaming
        (record { parts = event_line ∷ []; ending = none })
        (started none scope)
events-whole_example =
    events-whole loads streaming (first_half ∷ second_half ∷ []) (event_line ∷ []) none
      (started none scope) refl (omega arith)
