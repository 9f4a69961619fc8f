-- ===== src/Gateway/Stream/Closing.antt =====
-- app/gateway.py, the streamed reply of `completions`: what is recorded when the generator is through.
use opsark_admin.Common.{
  ◌≡◌, Bool, true, false, ◌&&◌, ◌||◌, Option, none, some, List, [], ◌∷◌, ◌++◌,
}
use opsark_admin.Errors.{Result, ok, err}
use opsark_admin.Exec.{Exec}
use opsark_admin.Models.{Db}
use opsark_admin.Json.{Json, find_field}
use opsark_admin.Gateway.Lines.{Bytes, event_value, is_done, split_lines}
use opsark_admin.Gateway.Exchange.{Call, Scope, Fault}
use opsark_admin.Gateway.Outcome.{IsReady, IsEnded}
use opsark_admin.Gateway.Paths.{is_fault, is_handled}
use opsark_admin.Gateway.Stream.{
  StreamCall, Streaming, Feed, Progress, continues, finished, escaped, Verdict, crashing,
  check_choices, Parsed, too_deep, parsed,
}

-- No exception passes the handlers of the generator because of a value: it can be parsed, and what
-- stands for its tool calls can be iterated over.
abbrev not_crashing : Verdict → Bool
not_crashing crashing = false
not_crashing _ = true

abbrev are_calm_choices : Bool → Option Json → Bool
are_calm_choices capture (some (Json.array choices)) = not_crashing (check_choices capture choices)
are_calm_choices capture _ = true

abbrev is_calm : Bool → Parsed → Bool
is_calm capture too_deep = false
is_calm capture (parsed (Json.object fields)) =
    are_calm_choices capture (find_field "choices" fields)
is_calm capture _ = true

abbrev is_calm_line : Bool → (Bytes → Parsed) → Option Bytes → Bool
is_calm_line capture loads none = true
is_calm_line capture loads (some value) = is_done value || is_calm capture (loads value)

abbrev are_calm_lines : Bool → (Bytes → Parsed) → List Bytes → Bool
are_calm_lines capture loads [] = true
are_calm_lines capture loads (line ∷ lines) =
    is_calm_line capture loads (event_value line) && are_calm_lines capture loads lines

abbrev is_calm_end : Option Fault → Bool
is_calm_end none = true
is_calm_end (some fault) = is_handled fault

-- The same of all lines of the parts that arrive, and of how their arrival ends.
unfoldable pub are_calm_parts : Bool → (Bytes → Parsed) → Bytes → List Bytes → Option Fault → Bool
are_calm_parts capture loads pending [] ending = is_calm_end ending
are_calm_parts capture loads pending (part ∷ parts) ending =
    let rest = are_calm_parts capture loads (split_lines (pending ++ part)).1 parts ending in
    are_calm_lines capture loads (split_lines (pending ++ part)).0 && rest

abbrev pub is_calm_feed : Bool → (Bytes → Parsed) → Feed → Bool
is_calm_feed capture loads feed = are_calm_parts capture loads [] feed.parts feed.ending

-- The call has ended when the generator is through; nothing is written before.
abbrev Flows : Call → Db → Result Progress × Streaming → Type 0
Flows c db (ok finished, s) = IsEnded c s.scope.db
Flows c db (ok continues, s) = (s.scope.db ≡ db) × (s.patience ≡ none)
Flows c db (ok escaped, s) = ⊥
Flows c db (err e, s) = (s.scope.db ≡ db) × (is_fault e ≡ true)

module _ (c : StreamCall) (db : Db) (ready : IsReady c.call db) where
  -- After the handlers the call has ended.
  abbrev Closes : Result Progress × Streaming → Type 0
  Closes (r, s) = IsEnded c.call s.scope.db

abbrev pub Opens : Db → Result (Unit {0}) × Scope → Type 0
Opens db (ok a, scope) = scope.db ≡ db
Opens db (err e, scope) = (scope.db ≡ db) × (is_fault e ≡ true)
