-- ===== src/Credits/Holds.antt =====
-- app/credits.py: the amounts that unresolved journal rows hold, summed over a user's rows.
use opsark_admin.Common.{
  ℕ, ◌≡◌, Bool, false, ◌||◌, some, List, [], ◌∷◌, ◌++◌, arith, ◌==◌, any, if◌then◌else◌, ap,
  Bool-cases, inl, inr,
}
use opsark_admin.Common.Int.{ℤ, pos, pos_part, neg_part, ◌+ℤ◌, ◌≤ℤ◌, int_laws}
use opsark_admin.Common.Table.{Table, get, update, insert}
use opsark_admin.Models.{CreditLedger, OperationKey, ModelReservation, operation_key_eq}
use opsark_admin.Credits.{is_unresolved, has_entry}

-- What a row holds back from its user's balance.
abbrev pub held_amount : ModelReservation → ℤ
held_amount row = if is_unresolved row.state then row.amount else pos 0

abbrev pub held_for : ℕ → ModelReservation → ℤ
held_for u row = if row.user_id == u then held_amount row else pos 0

abbrev pub held_total : ℕ → Table ModelReservation → ℤ
held_total u [] = pos 0
held_total u ((id, row) ∷ t) = held_for u row +ℤ held_total u t

abbrev pub AmountsNonneg : Table ModelReservation → Type 0
AmountsNonneg [] = Unit
AmountsNonneg ((id, row) ∷ t) = (pos 0 ≤ℤ row.amount) × AmountsNonneg t

-- The call was charged or released by an entry of its own.
abbrev pub is_charged : ℕ → List CreditLedger → Bool
is_charged id = any (λ entry. operation_key_eq entry.operation_key (OperationKey.settle id))

swap_ends : (a t b : ℤ) → a +ℤ t +ℤ b ≡ b +ℤ t +ℤ a
swap_ends a t b = omega int_laws

under_head : (a x b t c : ℤ) → x +ℤ b ≡ t +ℤ c → a +ℤ x +ℤ b ≡ a +ℤ t +ℤ c
under_head a x b t c h = omega (int_laws, ap pos_part h, ap neg_part h)

behind_head : (a x t c : ℤ) → x ≡ t +ℤ c → a +ℤ x ≡ a +ℤ t +ℤ c
behind_head a x t c h = omega (int_laws, ap pos_part h, ap neg_part h)

pub held_total-update :
    (u id : ℕ) (f : ModelReservation → ModelReservation) (row : ModelReservation)
    (t : Table ModelReservation)
    → get id t ≡ some row
    → held_total u (update id f t) +ℤ held_for u row ≡ held_total u t +ℤ held_for u (f row)
held_total-update u id f row [] e = cc
held_total-update u id f row ((j, r) ∷ t) e = elim (Bool-cases (id == j)) [
  | inl here ↦
      let same : r ≡ row = ground (arith, here) in
      rw (here, same) (swap_ends (held_for u (f row)) (held_total u t) (held_for u row))
  | inr there ↦ rw there (
      under_head (held_for u r) (held_total u (update id f t)) (held_for u row) (held_total u t)
        (held_for u (f row)) (held_total-update u id f row t (ground arith)))
]

pub held_total-insert :
    (u id : ℕ) (row : ModelReservation) (t : Table ModelReservation)
    → held_total u (insert id row t) ≡ held_total u t +ℤ held_for u row
held_total-insert u id row [] = omega int_laws
held_total-insert u id row ((j, r) ∷ t) =
    behind_head (held_for u r) (held_total u (insert id row t)) (held_total u t) (held_for u row)
      (held_total-insert u id row t)

pub held_total_nonneg :
    (u : ℕ) (t : Table ModelReservation) → AmountsNonneg t → pos 0 ≤ℤ held_total u t
held_total_nonneg u [] h = omega arith
held_total_nonneg u ((j, r) ∷ t) h = grind (int_laws, held_total_nonneg u t h.1)

-- No row holds more than its user's rows hold together.
pub held_for-le_total :
    (u id : ℕ) (row : ModelReservation) (t : Table ModelReservation)
    → AmountsNonneg t
    → get id t ≡ some row
    → held_for u row ≤ℤ held_total u t
held_for-le_total u id row [] h e = cc
held_for-le_total u id row ((j, r) ∷ t) h e =
    grind (int_laws, held_for-le_total u id row t h.1, held_total_nonneg u t h.1)

pub amount_nonneg :
    (id : ℕ) (row : ModelReservation) (t : Table ModelReservation)
    → AmountsNonneg t
    → get id t ≡ some row
    → pos 0 ≤ℤ row.amount
amount_nonneg id row [] h e = cc
amount_nonneg id row ((j, r) ∷ t) h e = ground (arith, amount_nonneg id row t h.1)

pub update-AmountsNonneg :
    (id : ℕ) (f : ModelReservation → ModelReservation) (row : ModelReservation)
    (t : Table ModelReservation)
    → AmountsNonneg t
    → get id t ≡ some row
    → pos 0 ≤ℤ (f row).amount
    → AmountsNonneg (update id f t)
update-AmountsNonneg id f row [] h e p = tt
update-AmountsNonneg id f row ((j, r) ∷ t) h e p =
    ground (arith, update-AmountsNonneg id f row t h.1)

pub insert-AmountsNonneg :
    (id : ℕ) (row : ModelReservation) (t : Table ModelReservation)
    → AmountsNonneg t
    → pos 0 ≤ℤ row.amount
    → AmountsNonneg (insert id row t)
insert-AmountsNonneg id row [] h p = (p, tt)
insert-AmountsNonneg id row ((j, r) ∷ t) h p = (h.0, insert-AmountsNonneg id row t h.1 p)

pub is_charged-append :
    (id : ℕ) (l : List CreditLedger) (e : CreditLedger)
    → is_charged id (l ++ e ∷ [])
      ≡ (is_charged id l || operation_key_eq e.operation_key (OperationKey.settle id))
is_charged-append id [] e = ground arith
is_charged-append id (x ∷ l) e = ground (arith, is_charged-append id l e)

pub has_entry_of_uncharged :
    (u id : ℕ) (l : List CreditLedger)
    → is_charged id l ≡ false
    → has_entry u (OperationKey.settle id) l ≡ false
unfolding has_entry
has_entry_of_uncharged u id [] h = ground arith
has_entry_of_uncharged u id (x ∷ l) h = ground (arith, has_entry_of_uncharged u id l)
