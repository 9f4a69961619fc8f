-- ===== src/Feedback/Emptied.antt =====
-- app/feedback.py: a ticket that was emptied stays empty.
use opsark_admin.Common.{
  ℕ, Bool, ◌≡◌, refl, false, ap, Option, none, some, List, [], ◌∷◌, ◌==◌, arith, Bool-cases,
  Option-cases, inl, inr,
}
use opsark_admin.Common.Table.{Table, get, update, get-update, get-insert}
use opsark_admin.Errors.{
  Error, api_error, integrity_error, value_error, unhandled_error, transport, cancelled_error,
}
use opsark_admin.Exec.{◌>>=◌}
use opsark_admin.Exec.Keeps.{
  Keeps, Keeps-modify, Keeps-transaction, Keeps-if, Keeps-raise, keeps_rules,
}
use opsark_admin.Feedback.{
  Payload, SupportTicket, Feedback, FeedbackInput, Submission, Response, write_tickets, expire,
  expire_all, purge_expired, owned, emptied, delete_mine,
}
use opsark_admin.Feedback.Submit.{
  answer, add_ticket, add_mutation, submit_new, on_conflict, on_taken, add_new, submit_once, submit,
}
use opsark_admin.Feedback.Answer.{
  ReplyInput, unseal, unseal_some, detail, read, replied, write_reply, reply_to, reply_live, reply,
}

-- The ticket is there without a content.
pub record IsEmptied (k : ℕ) (db : Feedback) : Type 0 where
  pub row : SupportTicket
  pub found : get k db.tickets ≡ some row
  pub empty : row.encrypted_payload ≡ none

pub get-expire_all :
    (k now : ℕ) (rows : Table SupportTicket) (row : SupportTicket)
    → get k rows ≡ some row
    → row.encrypted_payload ≡ none
    → get k (expire_all now rows) ≡ some row
get-expire_all k now [] row found empty = cc found
get-expire_all k now ((j, r) ∷ rows) row found empty = elim (Bool-cases (k == j)) [
  | inl hit ↦
      let first : some r ≡ some row = rw hit at found in
      let same : r ≡ row = cc first in
      let stays : expire now row ≡ row = rw empty (ground arith) in rw (hit, same) (ap some stays)
  | inr miss ↦ rw miss (get-expire_all k now rows row (rw miss at found) empty)
]

module _ (k : ℕ) where
  write_tickets-Keeps :
      (f : Table SupportTicket → Table SupportTicket)
      → ((rows : Table SupportTicket) (row : SupportTicket)
          → get k rows ≡ some row
          → row.encrypted_payload ≡ none
          → (after : SupportTicket) × (get k (f rows) ≡ some after)
            × (after.encrypted_payload ≡ none))
      → Keeps (IsEmptied k) (write_tickets f)
  unfolding write_tickets
  write_tickets-Keeps f good = Keeps-modify _ λ db h.
      let (after, found, empty) = good db.tickets h.row h.found h.empty in
      record { row = after; found = found; empty = empty }

  pub purge_expired-Keeps : (now : ℕ) → Keeps (IsEmptied k) (purge_expired now)
  unfolding purge_expired
  purge_expired-Keeps now =
      write_tickets-Keeps _
        λ rows row found empty. (row, get-expire_all k now rows row found empty, empty)

  owned-Keeps : (id : ℕ) (user_id : Option ℕ) → Keeps (IsEmptied k) (owned id user_id)
  unfolding owned
  owned-Keeps id user_id = search keeps_rules

  get-emptied :
      (id : ℕ) (rows : Table SupportTicket) (row : SupportTicket)
      → get k rows ≡ some row
      → row.encrypted_payload ≡ none
      → (after : SupportTicket) × (get k (update id emptied rows) ≡ some after)
        × (after.encrypted_payload ≡ none)
  unfolding emptied
  get-emptied id rows row found empty = elim (Bool-cases (id == k)) [
    | inl hit ↦ (emptied row, rw (get-update id k emptied rows, hit, found) refl, refl)
    | inr miss ↦ (row, rw (get-update id k emptied rows, miss) found, empty)
  ]

  emptied-Keeps : (id : ℕ) → Keeps (IsEmptied k) (write_tickets (update id emptied))
  emptied-Keeps id = write_tickets-Keeps (update id emptied) (get-emptied id)

  pub delete_mine-Keeps : (id user_id : ℕ) → Keeps (IsEmptied k) (delete_mine id user_id)
  unfolding delete_mine
  delete_mine-Keeps id user_id = search (keeps_rules, owned-Keeps, emptied-Keeps)

  answer-Keeps :
      (fingerprint : ℕ) (hash : Option ℕ) (response : Response)
      → Keeps (IsEmptied k) (answer fingerprint hash response)
  unfolding answer
  answer-Keeps fingerprint hash response = search keeps_rules

  module _ (decrypt : List ℕ → Option Payload) where
    unseal-Keeps : (value : List ℕ) → Keeps (IsEmptied k) (unseal decrypt value)
    unfolding unseal
    unseal-Keeps value = search keeps_rules

    unseal_some-Keeps : (value : List ℕ) → Keeps (IsEmptied k) (unseal_some decrypt value)
    unfolding unseal_some
    unseal_some-Keeps value = search (keeps_rules, unseal-Keeps)

    detail-Keeps : (row : SupportTicket) (now : ℕ) → Keeps (IsEmptied k) (detail decrypt row now)
    unfolding detail
    detail-Keeps row now = search (keeps_rules, unseal_some-Keeps)

    pub read-Keeps :
        (id : ℕ) (user_id : Option ℕ) (now : ℕ) → Keeps (IsEmptied k) (read decrypt id user_id now)
    unfolding read
    read-Keeps id user_id now = search (keeps_rules, owned-Keeps, purge_expired-Keeps, detail-Keeps)

  module _ (seal : Payload → List ℕ) (decrypt : List ℕ → Option Payload) where
    replied-Keeps :
        (id : ℕ) (payload : Payload) (body : ReplyInput) (now : ℕ)
        → (id == k) ≡ false
        → Keeps (IsEmptied k) (write_tickets (update id (replied seal payload body now)))
    replied-Keeps id payload body now other = write_tickets-Keeps _ λ rows row found empty.
        (row, rw (get-update id k (replied seal payload body now) rows, other) found, empty)

    -- An answer to another ticket.
    write_reply-Keeps :
        (id : ℕ) (row : SupportTicket) (body : ReplyInput) (bad : Bool) (now : ℕ)
        (payload : Payload)
        → (id == k) ≡ false
        → Keeps (IsEmptied k) (write_reply seal id row body bad now payload)
    unfolding write_reply
    write_reply-Keeps id row body bad now payload other = Keeps-if _ _ _ (Keeps-raise _) (
        Keeps-if bad _ _ (Keeps-raise _)
          (Keeps-if _ _ _ (replied-Keeps id payload body now other) (Keeps-raise _)))

    reply_to-Keeps :
        (id : ℕ) (row : SupportTicket) (body : ReplyInput) (bad : Bool) (now : ℕ) (value : List ℕ)
        → (id == k) ≡ false
        → Keeps (IsEmptied k) (reply_to seal decrypt id row body bad now value)
    unfolding reply_to
    reply_to-Keeps id row body bad now value other =
        search
          (keeps_rules, unseal-Keeps decrypt, write_reply-Keeps, owned-Keeps, detail-Keeps decrypt)

    reply_live-Keeps :
        (id : ℕ) (row : SupportTicket) (body : ReplyInput) (bad : Bool) (now : ℕ) (value : List ℕ)
        → (id == k) ≡ false
        → Keeps (IsEmptied k) (reply_live seal decrypt id row body bad now value)
    unfolding reply_live
    reply_live-Keeps id row body bad now value other = search (keeps_rules, reply_to-Keeps)

    -- An answer finds an emptied ticket without a content, and refuses.
    pub reply-Keeps :
        (id : ℕ) (body : ReplyInput) (bad : Bool) (now : ℕ)
        → Keeps (IsEmptied k) (reply seal decrypt id body bad now)
    unfolding reply owned ◌>>=◌
    reply-Keeps id body bad now = record {
      at = λ db h. elim (Bool-cases (id == k)) [
        | inl hit ↦ let same : id ≡ k = ground (arith, hit) in rw (same, h.found, h.empty) h
        | inr other ↦ elim (Option-cases (get id db.tickets)) [
          | inl missing ↦ rw missing h
          | inr (row, found) ↦ elim (Option-cases row.encrypted_payload) [
            | inl none_left ↦ rw (found, none_left) h
            | inr (value, content) ↦
                rw (found, content) ((reply_live-Keeps id _ body bad now value other).at db h)
          ]
        ]
      ];
    }

  module _ (seal : Payload → List ℕ) (digest guest_digest : ℕ → ℕ) where
    add_ticket-Keeps : (id : ℕ) (row : SupportTicket) → Keeps (IsEmptied k) (add_ticket id row)
    unfolding add_ticket write_tickets ◌>>=◌
    add_ticket-Keeps id row = record {
      at = λ db h. elim (Option-cases (get id db.tickets)) [
        | inr (other, taken) ↦ rw taken h
        | inl free ↦
            let apart : (id == k) ≡ false = elim (Bool-cases (id == k)) [
              | inl hit ↦ let same : id ≡ k = ground (arith, hit) in cc (rw (same, h.found) at free)
              | inr miss ↦ miss
            ] in
            rw free (record {
              row = h.row;
              found = rw (get-insert id k row db.tickets free, apart) h.found;
              empty = h.empty;
            })
      ];
    }

    add_mutation-Keeps : (row : Submission) → Keeps (IsEmptied k) (add_mutation row)
    unfolding add_mutation
    add_mutation-Keeps row =
        Keeps-modify _ λ db h. record { row = h.row; found = h.found; empty = h.empty }

    submit_new-Keeps :
        (id : ℕ) (user_id : Option ℕ) (body : FeedbackInput) (now : ℕ)
        → Keeps (IsEmptied k) (submit_new seal digest guest_digest id user_id body now)
    unfolding submit_new
    submit_new-Keeps id none body now = search (keeps_rules, purge_expired-Keeps, add_ticket-Keeps)
    submit_new-Keeps id (some user_id) body now =
        search (keeps_rules, purge_expired-Keeps, add_ticket-Keeps, add_mutation-Keeps)

    on_conflict-Keeps :
        (user_id : Option ℕ) (body : FeedbackInput)
        → Keeps (IsEmptied k) (on_conflict seal digest guest_digest user_id body)
    unfolding on_conflict
    on_conflict-Keeps none body = search (keeps_rules, answer-Keeps)
    on_conflict-Keeps (some user_id) body = Keeps-raise _

    on_taken-Keeps :
        (user_id : Option ℕ) (body : FeedbackInput) (e : Error)
        → Keeps (IsEmptied k) (on_taken seal digest guest_digest user_id body e)
    unfolding on_taken
    on_taken-Keeps user_id body integrity_error = on_conflict-Keeps user_id body
    on_taken-Keeps user_id body (api_error status code) = Keeps-raise _
    on_taken-Keeps user_id body value_error = Keeps-raise _
    on_taken-Keeps user_id body unhandled_error = Keeps-raise _
    on_taken-Keeps user_id body (transport failure) = Keeps-raise _
    on_taken-Keeps user_id body cancelled_error = Keeps-raise _

    add_new-Keeps :
        (id : ℕ) (user_id : Option ℕ) (body : FeedbackInput) (now : ℕ)
        → Keeps (IsEmptied k) (add_new seal digest guest_digest id user_id body now)
    unfolding add_new
    add_new-Keeps id user_id body now =
        search (keeps_rules, Keeps-transaction, Keeps-if, submit_new-Keeps, on_taken-Keeps)

    pub submit-Keeps :
        (id : ℕ) (user_id : Option ℕ) (body : FeedbackInput) (now : ℕ)
        → Keeps (IsEmptied k) (submit seal digest guest_digest id user_id body now)
    unfolding submit submit_once
    submit-Keeps id none body now = search (keeps_rules, answer-Keeps, add_new-Keeps)
    submit-Keeps id (some user_id) body now = search (keeps_rules, answer-Keeps, add_new-Keeps)
