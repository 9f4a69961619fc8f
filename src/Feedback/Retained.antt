-- ===== src/Feedback/Retained.antt =====
-- app/feedback.py: what every request on the tickets keeps.
use opsark_admin.Common.{
  ℕ, Bool, ◌≡◌, ◌≤◌, false, Option, none, some, List, [], ◌∷◌, leb, length, ◌&&◌, not, ◌==◌,
  length-append, arith, Bool-cases, inl, inr,
}
use opsark_admin.Common.Table.{Table, update, insert}
use opsark_admin.Errors.{
  Error, api_error, integrity_error, value_error, unhandled_error, transport, cancelled_error,
}
use opsark_admin.Exec.Keeps.{
  Keeps, Keeps-modify, Keeps-transaction, Keeps-guard, Keeps-if, Keeps-raise, keeps_rules,
}
use opsark_admin.Skills.{is_missing}
use opsark_admin.Feedback.{
  TicketStatus, active, Payload, TicketReply, SupportTicket, Feedback, FeedbackInput, Submission,
  Response, write_tickets, expire, expire_all, purge_expired, owned, emptied, delete_mine,
}
use opsark_admin.Feedback.Submit.{
  answer, new_ticket, add_ticket, add_mutation, submit_new, on_conflict, on_taken, add_new,
  submit_once, submit,
}
use opsark_admin.Feedback.Answer.{
  ReplyInput, appended, unseal, unseal_some, detail, read, replied, write_reply, reply_to,
  reply_live, reply,
}

abbrev pub IsFew : Option Payload → Type 0
IsFew none = Unit
IsFew (some payload) = length payload.replies ≤ 50

-- An empty ticket has expired or is deleted; another one is active, with at most 50 replies.
abbrev pub IsRetained : (List ℕ → Option Payload) → Option (List ℕ) → TicketStatus → Type 0
IsRetained decrypt none (active status) = ⊥
IsRetained decrypt none status = Unit
IsRetained decrypt (some value) (active status) = IsFew (decrypt value)
IsRetained decrypt (some value) status = ⊥

abbrev pub AllRetained : (List ℕ → Option Payload) → Table SupportTicket → Type 0
AllRetained decrypt [] = Unit
AllRetained decrypt ((id, row) ∷ rows) =
    IsRetained decrypt row.encrypted_payload row.status × AllRetained decrypt rows

abbrev pub IsKept : (List ℕ → Option Payload) → Feedback → Type 0
IsKept decrypt db = AllRetained decrypt db.tickets

appended_bounded :
    (message : Option ℕ) (now : ℕ) (replies : List TicketReply)
    → leb 50 (length replies) ≡ false
    → length (appended message now replies) ≤ 50
appended_bounded none now replies room = ground arith
appended_bounded (some message) now replies room =
    rw (length-append replies (record { message = message; created_at = now } ∷ [])) (ground arith)

module _ (decrypt : List ℕ → Option Payload) where
  expire_one :
      (now : ℕ) (row : SupportTicket)
      → IsRetained decrypt row.encrypted_payload row.status
      → IsRetained decrypt (expire now row).encrypted_payload (expire now row).status
  expire_one now row h =
      elim (Bool-cases (leb row.expires_at now && not (is_missing row.encrypted_payload))) [
        | inl old ↦ rw old tt
        | inr live ↦ rw live h
      ]

  expire_all-AllRetained :
      (now : ℕ) (rows : Table SupportTicket)
      → AllRetained decrypt rows
      → AllRetained decrypt (expire_all now rows)
  expire_all-AllRetained now [] h = tt
  expire_all-AllRetained now ((id, row) ∷ rows) h =
      (expire_one now row h.0, expire_all-AllRetained now rows h.1)

  update-AllRetained :
      (id : ℕ) (f : SupportTicket → SupportTicket) (rows : Table SupportTicket)
      → ((row : SupportTicket) → IsRetained decrypt (f row).encrypted_payload (f row).status)
      → AllRetained decrypt rows
      → AllRetained decrypt (update id f rows)
  update-AllRetained id f [] good h = tt
  update-AllRetained id f ((j, row) ∷ rows) good h = elim (Bool-cases (id == j)) [
    | inl hit ↦ rw hit (good row, h.1)
    | inr miss ↦ rw miss (h.0, update-AllRetained id f rows good h.1)
  ]

  insert-AllRetained :
      (id : ℕ) (row : SupportTicket) (rows : Table SupportTicket)
      → IsRetained decrypt row.encrypted_payload row.status
      → AllRetained decrypt rows
      → AllRetained decrypt (insert id row rows)
  insert-AllRetained id row [] good h = (good, tt)
  insert-AllRetained id row ((j, other) ∷ rows) good h =
      (h.0, insert-AllRetained id row rows good h.1)

  write_tickets-Keeps :
      (f : Table SupportTicket → Table SupportTicket)
      → ((rows : Table SupportTicket) → AllRetained decrypt rows → AllRetained decrypt (f rows))
      → Keeps (IsKept decrypt) (write_tickets f)
  unfolding write_tickets
  write_tickets-Keeps f good = Keeps-modify _ (λ db h. good db.tickets h)

  pub purge_expired-Keeps : (now : ℕ) → Keeps (IsKept decrypt) (purge_expired now)
  unfolding purge_expired
  purge_expired-Keeps now = write_tickets-Keeps _ (expire_all-AllRetained now)

  owned-Keeps : (id : ℕ) (user_id : Option ℕ) → Keeps (IsKept decrypt) (owned id user_id)
  unfolding owned
  owned-Keeps id user_id = search keeps_rules

  emptied-Keeps : (id : ℕ) → Keeps (IsKept decrypt) (write_tickets (update id emptied))
  unfolding emptied
  emptied-Keeps id = write_tickets-Keeps _ (λ rows. update-AllRetained id emptied rows (λ row. tt))

  pub delete_mine-Keeps : (id user_id : ℕ) → Keeps (IsKept decrypt) (delete_mine id user_id)
  unfolding delete_mine
  delete_mine-Keeps id user_id = search (keeps_rules, owned-Keeps, emptied-Keeps)

  answer-Keeps :
      (fingerprint : ℕ) (hash : Option ℕ) (response : Response)
      → Keeps (IsKept decrypt) (answer fingerprint hash response)
  unfolding answer
  answer-Keeps fingerprint hash response = search keeps_rules

  unseal-Keeps : (value : List ℕ) → Keeps (IsKept decrypt) (unseal decrypt value)
  unfolding unseal
  unseal-Keeps value = search keeps_rules

  unseal_some-Keeps : (value : List ℕ) → Keeps (IsKept decrypt) (unseal_some decrypt value)
  unfolding unseal_some
  unseal_some-Keeps value = search (keeps_rules, unseal-Keeps)

  detail-Keeps : (row : SupportTicket) (now : ℕ) → Keeps (IsKept decrypt) (detail decrypt row now)
  unfolding detail
  detail-Keeps row now = search (keeps_rules, unseal_some-Keeps)

  pub read-Keeps :
      (id : ℕ) (user_id : Option ℕ) (now : ℕ) → Keeps (IsKept decrypt) (read decrypt id user_id now)
  unfolding read
  read-Keeps id user_id now = search (keeps_rules, owned-Keeps, purge_expired-Keeps, detail-Keeps)

module _ (seal : Payload → List ℕ) (decrypt : List ℕ → Option Payload)
    (opens : (p : Payload) → decrypt (seal p) ≡ some p) where
  new_ticket-IsRetained :
      (digest : ℕ → ℕ) (user_id guest_key : Option ℕ) (body : FeedbackInput) (now : ℕ)
      → IsRetained decrypt
          (new_ticket seal digest user_id guest_key body now).encrypted_payload
          (new_ticket seal digest user_id guest_key body now).status
  unfolding new_ticket
  new_ticket-IsRetained digest user_id guest_key body now =
      rw (opens (record { content = body.content; replies = [] })) (ground arith)

  replied-IsRetained :
      (payload : Payload) (body : ReplyInput) (now : ℕ) (row : SupportTicket)
      → leb 50 (length payload.replies) ≡ false
      → IsRetained decrypt
          (replied seal payload body now row).encrypted_payload
          (replied seal payload body now row).status
  unfolding replied
  replied-IsRetained payload body now row room =
      rw (opens (record payload { replies = appended body.message now payload.replies }))
        (appended_bounded body.message now payload.replies room)

  replied-Keeps :
      (id : ℕ) (payload : Payload) (body : ReplyInput) (now : ℕ)
      → leb 50 (length payload.replies) ≡ false
      → Keeps (IsKept decrypt) (write_tickets (update id (replied seal payload body now)))
  replied-Keeps id payload body now room = write_tickets-Keeps decrypt _ λ rows.
      update-AllRetained decrypt id (replied seal payload body now) rows
        λ old. replied-IsRetained payload body now old room

  write_reply-Keeps :
      (id : ℕ) (row : SupportTicket) (body : ReplyInput) (bad : Bool) (now : ℕ) (payload : Payload)
      → Keeps (IsKept decrypt) (write_reply seal id row body bad now payload)
  unfolding write_reply
  write_reply-Keeps id row body bad now payload =
      Keeps-guard (leb 50 (length payload.replies)) _ _ (Keeps-raise _) λ room.
        Keeps-if bad _ _ (Keeps-raise _)
          (Keeps-if _ _ _ (replied-Keeps id payload body now room) (Keeps-raise _))

  reply_to-Keeps :
      (id : ℕ) (row : SupportTicket) (body : ReplyInput) (bad : Bool) (now : ℕ) (value : List ℕ)
      → Keeps (IsKept decrypt) (reply_to seal decrypt id row body bad now value)
  unfolding reply_to
  reply_to-Keeps id row body bad now value = search (
    keeps_rules,
    unseal-Keeps decrypt,
    write_reply-Keeps,
    owned-Keeps decrypt,
    detail-Keeps decrypt,
  )

  reply_live-Keeps :
      (id : ℕ) (row : SupportTicket) (body : ReplyInput) (bad : Bool) (now : ℕ) (value : List ℕ)
      → Keeps (IsKept decrypt) (reply_live seal decrypt id row body bad now value)
  unfolding reply_live
  reply_live-Keeps id row body bad now value = search (keeps_rules, reply_to-Keeps)

  pub reply-Keeps :
      (id : ℕ) (body : ReplyInput) (bad : Bool) (now : ℕ)
      → Keeps (IsKept decrypt) (reply seal decrypt id body bad now)
  unfolding reply
  reply-Keeps id body bad now = search (keeps_rules, owned-Keeps decrypt, reply_live-Keeps)

  module _ (digest guest_digest : ℕ → ℕ) where
    added-Keeps :
        (id : ℕ) (user_id guest_key : Option ℕ) (body : FeedbackInput) (now : ℕ)
        → Keeps
            (IsKept decrypt)
            (write_tickets (insert id (new_ticket seal digest user_id guest_key body now)))
    added-Keeps id user_id guest_key body now = write_tickets-Keeps decrypt _ λ rows.
        insert-AllRetained decrypt id (new_ticket seal digest user_id guest_key body now) rows
          (new_ticket-IsRetained digest user_id guest_key body now)

    add_ticket-Keeps :
        (id : ℕ) (user_id guest_key : Option ℕ) (body : FeedbackInput) (now : ℕ)
        → Keeps (IsKept decrypt) (add_ticket id (new_ticket seal digest user_id guest_key body now))
    unfolding add_ticket
    add_ticket-Keeps id user_id guest_key body now = search (keeps_rules, added-Keeps)

    add_mutation-Keeps : (row : Submission) → Keeps (IsKept decrypt) (add_mutation row)
    unfolding add_mutation
    add_mutation-Keeps row = Keeps-modify _ λ db h. h

    submit_new-Keeps :
        (id : ℕ) (user_id : Option ℕ) (body : FeedbackInput) (now : ℕ)
        → Keeps (IsKept decrypt) (submit_new seal digest guest_digest id user_id body now)
    unfolding submit_new
    submit_new-Keeps id none body now =
        search (keeps_rules, purge_expired-Keeps decrypt, add_ticket-Keeps)
    submit_new-Keeps id (some user_id) body now =
        search (keeps_rules, purge_expired-Keeps decrypt, add_ticket-Keeps, add_mutation-Keeps)

    on_conflict-Keeps :
        (user_id : Option ℕ) (body : FeedbackInput)
        → Keeps (IsKept decrypt) (on_conflict seal digest guest_digest user_id body)
    unfolding on_conflict
    on_conflict-Keeps none body = search (keeps_rules, answer-Keeps decrypt)
    on_conflict-Keeps (some user_id) body = Keeps-raise _

    on_taken-Keeps :
        (user_id : Option ℕ) (body : FeedbackInput) (e : Error)
        → Keeps (IsKept decrypt) (on_taken seal digest guest_digest user_id body e)
    unfolding on_taken
    on_taken-Keeps user_id body integrity_error = on_conflict-Keeps user_id body
    on_taken-Keeps user_id body (api_error status code) = Keeps-raise _
    on_taken-Keeps user_id body value_error = Keeps-raise _
    on_taken-Keeps user_id body unhandled_error = Keeps-raise _
    on_taken-Keeps user_id body (transport failure) = Keeps-raise _
    on_taken-Keeps user_id body cancelled_error = Keeps-raise _

    add_new-Keeps :
        (id : ℕ) (user_id : Option ℕ) (body : FeedbackInput) (now : ℕ)
        → Keeps (IsKept decrypt) (add_new seal digest guest_digest id user_id body now)
    unfolding add_new
    add_new-Keeps id user_id body now =
        search (keeps_rules, Keeps-transaction, submit_new-Keeps, on_taken-Keeps)

    submit_once-Keeps :
        (id : ℕ) (user_id : Option ℕ) (body : FeedbackInput) (now : ℕ)
        → Keeps (IsKept decrypt) (submit_once seal digest guest_digest id user_id body now)
    unfolding submit_once
    submit_once-Keeps id none body now = search (keeps_rules, answer-Keeps decrypt, add_new-Keeps)
    submit_once-Keeps id (some user_id) body now =
        search (keeps_rules, answer-Keeps decrypt, add_new-Keeps)

    pub submit-Keeps :
        (id : ℕ) (user_id : Option ℕ) (body : FeedbackInput) (now : ℕ)
        → Keeps (IsKept decrypt) (submit seal digest guest_digest id user_id body now)
    unfolding submit
    submit-Keeps id user_id body now = search (keeps_rules, submit_once-Keeps)
