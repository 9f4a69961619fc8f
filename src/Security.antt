-- ===== src/Security.antt =====
-- app/security.py, `Limiter`: at most so many requests for a key in a sliding window. Times are
-- milliseconds of the monotonic clock, and a key is a number since keys are only compared.
pub mod Queue
pub mod Forget
pub mod Window
mod Tests
use opsark_admin.Common.{
  ℕ, ◌+◌, Bool, false, Option, none, some, List, [], ◌∷◌, ◌++◌, leb, ltb, if◌then◌else◌, length,
  filter,
}
use opsark_admin.Common.Table.{Table, get, update, insert}
use opsark_admin.Errors.{api_error, rate_limited}
use opsark_admin.Exec.{Exec, gets, modify, raise, ◌>>=◌, ◌>>◌}

abbrev pub last : List ℕ → Option ℕ
last [] = none
last (e ∷ []) = some e
last (e ∷ d ∷ es) = last (d ∷ es)

-- `v and v[-1] > now - 3600`
abbrev pub is_recent : ℕ → List ℕ → Bool
is_recent now events = elim (last events) [ none ↦ false | some e ↦ ltb now (e + 3600000) ]

-- The queues are dropped that saw no request for an hour, once there are more than 10000 of them.
unfoldable pub forget : ℕ → Table (List ℕ) → Table (List ℕ)
forget now entries =
    if ltb 10000 (length entries)
    then filter (λ (key, events). is_recent now events) entries
    else entries

-- `defaultdict(deque)`
abbrev pub events_of : ℕ → Table (List ℕ) → List ℕ
events_of key entries = elim (get key entries) [ none ↦ [] | some events ↦ events ]

abbrev pub set_events : ℕ → List ℕ → Table (List ℕ) → Table (List ℕ)
set_events key events entries = elim (get key entries) [
  | none ↦ insert key events entries
  | some old ↦ update key (λ _. events) entries
]

-- `while events and events[0] <= now - seconds: events.popleft()`
abbrev pub drop_expired : ℕ → ℕ → List ℕ → List ℕ
drop_expired now window [] = []
drop_expired now window (e ∷ events) =
    let rest = drop_expired now window events in if leb (e + window) now then rest else e ∷ events

unfoldable pub check : ℕ → ℕ → ℕ → ℕ → Exec (Table (List ℕ)) Unit
check key limit window now = do
  modify (forget now)
  events ← gets (λ entries. drop_expired now window (events_of key entries))
  modify (set_events key events)
  if leb limit (length events)
      then raise (api_error 429 rate_limited)
      else modify (set_events key (events ++ now ∷ []))
