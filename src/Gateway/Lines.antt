-- ===== src/Gateway/Lines.antt =====
-- app/gateway.py, `events` of `completions`: the bytes of a streamed reply and the lines of events in
-- them.
pub mod Cut
use opsark_admin.Common.{
  ℕ, Bool, true, false, ◌&&◌, ◌||◌, Option, none, some, List, [], ◌∷◌, leb, ◌==◌, if◌then◌else◌,
}

abbrev pub Bytes : Type 0
Bytes = List ℕ

abbrev pub add_to_first : ℕ → List Bytes × Bytes → List Bytes × Bytes
add_to_first b ([], rest) = ([], b ∷ rest)
add_to_first b (line ∷ lines, rest) = ((b ∷ line) ∷ lines, rest)

-- `while b"\n" in pending: line, pending = pending.split(b"\n", 1)`: the lines that are complete, and
-- what is left.
unfoldable pub split_lines : Bytes → List Bytes × Bytes
split_lines [] = ([], [])
split_lines (b ∷ bytes) =
    let (lines, rest) = split_lines bytes in
    if b == b'\n' then ([] ∷ lines, rest) else add_to_first b (lines, rest)

-- The white space of `bytes.strip`.
abbrev pub is_space : ℕ → Bool
is_space b = (leb 9 b && leb b 13) || b == b' '

abbrev pub strip_start : Bytes → Bytes
strip_start [] = []
strip_start (b ∷ bytes) = let rest = strip_start bytes in if is_space b then rest else b ∷ bytes

abbrev pub keep_unless : Bool → ℕ → Bytes → Bytes
keep_unless true b [] = []
keep_unless _ b rest = b ∷ rest

abbrev pub strip_end : Bytes → Bytes
strip_end [] = []
strip_end (b ∷ bytes) = keep_unless (is_space b) b (strip_end bytes)

abbrev pub strip : Bytes → Bytes
strip bytes = strip_end (strip_start bytes)

-- The rest of a line that starts with a prefix.
abbrev pub after_prefix : Bytes → Bytes → Option Bytes
after_prefix [] line = some line
after_prefix (p ∷ prefix) [] = none
after_prefix (p ∷ prefix) (b ∷ line) =
    let rest = after_prefix prefix line in if p == b then rest else none

abbrev pub same_bytes : Bytes → Bytes → Bool
same_bytes [] [] = true
same_bytes (x ∷ xs) (y ∷ ys) = x == y && same_bytes xs ys
same_bytes _ _ = false

-- `line[5:].strip()` of a stripped line that starts with `data:`.
unfoldable pub event_value : Bytes → Option Bytes
event_value line = elim (after_prefix (b'd' ∷ b'a' ∷ b't' ∷ b'a' ∷ b':' ∷ []) (strip line)) [
  | none ↦ none
  | some value ↦ some (strip value)
]

unfoldable pub is_done : Bytes → Bool
is_done = same_bytes (b'[' ∷ b'D' ∷ b'O' ∷ b'N' ∷ b'E' ∷ b']' ∷ [])
