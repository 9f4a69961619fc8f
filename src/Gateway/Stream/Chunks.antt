-- ===== src/Gateway/Stream/Chunks.antt =====
-- app/gateway.py, the streamed reply of `completions`: the events do not depend on how the network cuts
-- the provider's bytes into parts.
use opsark_admin.Common.{
  ℕ, ◌+◌, ◌≤◌, ◌≡◌, refl, false, Option, List, [], ◌∷◌, ◌++◌, arith, ap, sym, ◌∙◌, fun_ext, length,
  length-append, ltb, ◌==◌, Bool-cases, inl, inr,
}
use mathlib.Core.List.{append-nil, append_assoc}
use opsark_admin.Exec.{Exec, ◌>>=◌}
use opsark_admin.Exec.Keeps.{Result-cases}
use opsark_admin.Gateway.Lines.{Bytes, add_to_first, split_lines}
use opsark_admin.Gateway.Lines.Cut.{split_lines-append}
use opsark_admin.Gateway.Exchange.{Fault}
use opsark_admin.Gateway.Stream.{
  StreamCall, Parsed, Streaming, Progress, continues, finished, escaped, resume, take_line,
  take_lines, end_feed, take_parts, events,
}

-- The bytes of all parts.
abbrev pub whole : List Bytes → Bytes
whole [] = []
whole (part ∷ parts) = part ++ whole parts

-- What is left of a piece has no line in it, and is no longer than the piece.
add_to_first-rest :
    (b : ℕ) (lines : List Bytes) (rest : Bytes)
    → (b == b'\n') ≡ false
    → split_lines rest ≡ ([], rest)
    → split_lines (add_to_first b (lines, rest)).1 ≡ ([], (add_to_first b (lines, rest)).1)
unfolding split_lines
add_to_first-rest b [] rest other h = rw (other, h) refl
add_to_first-rest b (line ∷ lines) rest other h = h

pub split_lines-rest : (xs : Bytes) → split_lines (split_lines xs).1 ≡ ([], (split_lines xs).1)
unfolding split_lines
split_lines-rest [] = refl
split_lines-rest (b ∷ xs) = elim (Bool-cases (b == b'\n')) [
  | inl newline ↦ rw newline (split_lines-rest xs)
  | inr other ↦
      rw other
        (add_to_first-rest b (split_lines xs).0 (split_lines xs).1 other (split_lines-rest xs))
]

length-add_to_first :
    (b n : ℕ) (lines : List Bytes) (rest : Bytes)
    → length rest ≤ n
    → length (add_to_first b (lines, rest)).1 ≤ 1 + n
length-add_to_first b n [] rest h = omega (arith, h)
length-add_to_first b n (line ∷ lines) rest h = omega (arith, h)

length-rest : (xs : Bytes) → length (split_lines xs).1 ≤ length xs
unfolding split_lines
length-rest [] = omega arith
length-rest (b ∷ xs) = elim (Bool-cases (b == b'\n')) [
  | inl newline ↦ rw newline (omega (arith, length-rest xs))
  | inr other ↦ rw other (
      omega (
        arith,
        length-add_to_first b (length xs) (split_lines xs).0 (split_lines xs).1 (length-rest xs),
      ))
]

module _ (loads : Bytes → Parsed) (c : StreamCall) where
  -- Two runs that agree where they go on agree.
  resumed :
      (progress : Progress) (m rest next : Exec Streaming Progress)
      (after : Exec Streaming Progress)
      → ((s : Streaming) → (m >>= λ q. resume q next) s ≡ (rest >>= λ p. resume p after) s)
      → (s : Streaming)
      → (resume progress m >>= λ q. resume q next) s
        ≡ (resume progress rest >>= λ p. resume p after) s
  unfolding ◌>>=◌
  resumed continues m rest next after same s = same s
  resumed finished m rest next after same s = refl
  resumed escaped m rest next after same s = refl

  take_lines-append :
      (xs ys : List Bytes) (next : Exec Streaming Progress) (s : Streaming)
      → (take_lines loads c (xs ++ ys) >>= λ q. resume q next) s
        ≡ (take_lines loads c xs >>= λ p. resume p (take_lines loads c ys >>= λ q. resume q next)) s
  unfolding take_lines ◌>>=◌
  take_lines-append [] ys next s = refl
  take_lines-append (line ∷ xs) ys next s = elim (Result-cases (take_line loads c line s).0) [
    | inl (progress, returned) ↦ rw returned (
        resumed progress (take_lines loads c (xs ++ ys)) (take_lines loads c xs) next
          (take_lines loads c ys >>= λ q. resume q next) (take_lines-append xs ys next) _)
    | inr (e, raised) ↦ rw raised refl
  ]

  -- The whole reply at once: its lines, and then its end.
  abbrev at_once : Bytes → Option Fault → Exec Streaming Progress
  at_once bytes ending =
      take_lines loads c (split_lines bytes).0 >>= λ progress. resume progress (end_feed ending)

  small_sum : (a b n : ℕ) → a + b ≤ n → ltb n a ≡ false
  small_sum a b n h = ground (arith, h)

  take_parts-at_once :
      (total : ℕ) (pending : Bytes) (parts : List Bytes) (ending : Option Fault) (s : Streaming)
      → split_lines pending ≡ ([], pending)
      → total + length (whole parts) ≤ 16777216
      → length pending + length (whole parts) ≤ 1048576
      → take_parts loads c total pending parts ending s ≡ at_once (pending ++ whole parts) ending s
  unfolding take_parts
  take_parts-at_once total pending [] ending s unsplit few short =
      rw (append-nil, unsplit) (unfold take_lines ◌>>=◌ in refl)
  take_parts-at_once total pending (part ∷ parts) ending s unsplit few short =
      let xs = pending ++ part in
      let sum : length (part ++ whole parts) ≡ length part + length (whole parts) =
        length-append part (whole parts) in
      let size : length xs ≡ length pending + length part = length-append pending part in
      let fits : ltb 16777216 (total + length part) ≡ false =
        small_sum _ (length (whole parts)) _ (omega (arith, few, sum)) in
      let room : ltb 1048576 (length xs) ≡ false =
        small_sum _ (length (whole parts)) _ (omega (arith, short, sum, size)) in
      let rest : take_parts loads c (total + length part) (split_lines xs).1 parts ending
          ≡ at_once ((split_lines xs).1 ++ whole parts) ending =
        fun_ext λ t.
          take_parts-at_once (total + length part) (split_lines xs).1 parts ending t
            (split_lines-rest xs) (omega (arith, few, sum))
            (omega (arith, short, sum, size, length-rest xs)) in
      let lines : (split_lines (pending ++ (part ++ whole parts))).0
          ≡ (split_lines xs).0 ++ (split_lines ((split_lines xs).1 ++ whole parts)).0 =
        ap (λ bytes. (split_lines bytes).0) (sym (append_assoc pending part (whole parts)))
        ∙ ap (λ q. q.0) (split_lines-append xs (whole parts)) in
      rw (fits, room, rest)
        (sym (
          ap (λ l. (take_lines loads c l >>= λ q. resume q (end_feed ending)) s) lines
          ∙ take_lines-append (split_lines xs).0 _ (end_feed ending) s))

-- However the network cuts a reply of at most 1 MiB into parts, the generator does the same: it
-- yields the same events, records the same outcome and ends in the same way.
pub events-whole :
    (loads : Bytes → Parsed) (c : StreamCall) (parts others : List Bytes) (ending : Option Fault)
    (s : Streaming)
    → whole parts ≡ whole others
    → length (whole parts) ≤ 1048576
    → events loads c (record { parts = parts; ending = ending }) s
      ≡ events loads c (record { parts = others; ending = ending }) s
unfolding events
events-whole loads c parts others ending s same short =
    let at_start : (list : List Bytes)
        → length (whole list) ≤ 1048576
        → take_parts loads c 0 [] list ending ≡ at_once loads c (whole list) ending =
      λ list small. fun_ext λ t.
        take_parts-at_once loads c 0 [] list ending t (unfold split_lines in refl)
          (omega (arith, small)) (omega (arith, small)) in
    rw (at_start parts short, at_start others (rw same at short), same) refl
