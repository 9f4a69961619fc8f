-- ===== src/Gateway/Lines/Cut.antt =====
-- app/gateway.py, `events`: however the network cuts the bytes, the same lines are read.
use opsark_admin.Common.{ℕ, ◌≡◌, refl, false, List, [], ◌∷◌, ◌++◌, ◌==◌, Bool-cases, inl, inr}
use opsark_admin.Gateway.Lines.{Bytes, add_to_first, split_lines}

-- The lines of a piece, given those of what came before it and what that left.
abbrev resumed : List Bytes × Bytes → Bytes → List Bytes × Bytes
resumed first ys = (first.0 ++ (split_lines (first.1 ++ ys)).0, (split_lines (first.1 ++ ys)).1)

add_to_first-resumed :
    (b : ℕ) (lines : List Bytes) (rest ys : Bytes)
    → (b == b'\n') ≡ false
    → add_to_first b (resumed (lines, rest) ys) ≡ resumed (add_to_first b (lines, rest)) ys
unfolding split_lines
add_to_first-resumed b [] rest ys other = rw other refl
add_to_first-resumed b (line ∷ lines) rest ys other = refl

-- The lines of two pieces are those of the first, and those of what it left with the second.
pub split_lines-append : (xs ys : Bytes) → split_lines (xs ++ ys) ≡ resumed (split_lines xs) ys
unfolding split_lines
split_lines-append [] ys = refl
split_lines-append (b ∷ xs) ys = elim (Bool-cases (b == b'\n')) [
  | inl newline ↦ rw (newline, split_lines-append xs ys) refl
  | inr other ↦
      rw (other, split_lines-append xs ys)
        (add_to_first-resumed b (split_lines xs).0 (split_lines xs).1 ys other)
]
