-- ===== src/Feedback/Answer.antt =====
-- app/feedback.py, `detail` and `reply`: the reading of a ticket and the staff's answers.
use opsark_admin.Common.{
  ℕ, ◌+◌, Bool, Option, none, some, List, [], ◌∷◌, ◌++◌, leb, ltb, ◌==◌, if◌then◌else◌, length,
}
use opsark_admin.Common.Table.{update}
use opsark_admin.Errors.{
  api_error, feedback_conflict, feedback_expired, feedback_reply_limit, sensitive_content,
  private_content_unavailable,
}
use opsark_admin.Exec.{Exec, pure, raise, ◌>>=◌, ◌>>◌, match_option}
use opsark_admin.Feedback.{
  ReplyStatus, TicketReply, Payload, SupportTicket, Feedback, write_tickets, purge_expired, active,
  owned,
}

pub record ReplyInput : Type 0 where
  pub revision : ℕ
  pub status : ReplyStatus
  pub message : Option ℕ

abbrev pub appended : Option ℕ → ℕ → List TicketReply → List TicketReply
appended none now replies = replies
appended (some message) now replies = replies ++ record { message = message; created_at = now } ∷ []

module _ (decrypt : List ℕ → Option Payload) where
  unfoldable pub unseal : List ℕ → Exec Feedback Payload
  unseal value =
      match_option (decrypt value) (raise (api_error 503 private_content_unavailable)) pure

  unfoldable pub unseal_some : List ℕ → Exec Feedback (Option Payload)
  unseal_some value = do payload ← unseal value; pure (some payload)

  -- The content that a reader sees, none once it has expired or is deleted.
  unfoldable pub detail : SupportTicket → ℕ → Exec Feedback (Option Payload)
  detail row now =
      if ltb now row.expires_at
      then match_option row.encrypted_payload (pure none) unseal_some
      else pure none

  -- `read_mine` for a user, `read_ticket` for the staff.
  unfoldable pub read : ℕ → Option ℕ → ℕ → Exec Feedback (Option Payload)
  read ticket_id user_id now = do
    row ← owned ticket_id user_id
    purge_expired now
    fresh ← owned ticket_id user_id
    detail fresh now

module _ (seal : Payload → List ℕ) where
  unfoldable pub replied : Payload → ReplyInput → ℕ → SupportTicket → SupportTicket
  replied payload body now row = record row {
    encrypted_payload =
        some (seal (record payload { replies = appended body.message now payload.replies }));
    status = active body.status;
    revision = body.revision + 1;
  }

  -- Nothing runs between the reading of the row and the UPDATE, whose condition is its revision.
  unfoldable pub write_reply :
      ℕ → SupportTicket → ReplyInput → Bool → ℕ → Payload → Exec Feedback Unit
  write_reply ticket_id row body has_credentials now payload =
      if leb 50 (length payload.replies)
      then raise (api_error 409 feedback_reply_limit)
      else if has_credentials
      then raise (api_error 422 sensitive_content)
      else if row.revision == body.revision
      then write_tickets (update ticket_id (replied payload body now))
      else raise (api_error 409 feedback_conflict)

module _ (seal : Payload → List ℕ) (decrypt : List ℕ → Option Payload) where
  unfoldable pub reply_to :
      ℕ → SupportTicket → ReplyInput → Bool → ℕ → List ℕ → Exec Feedback (Option Payload)
  reply_to ticket_id row body has_credentials now value = do
    payload ← unseal decrypt value
    write_reply seal ticket_id row body has_credentials now payload
    fresh ← owned ticket_id none
    detail decrypt fresh now

  unfoldable pub reply_live :
      ℕ → SupportTicket → ReplyInput → Bool → ℕ → List ℕ → Exec Feedback (Option Payload)
  reply_live ticket_id row body has_credentials now value =
      if leb row.expires_at now
      then raise (api_error 410 feedback_expired)
      else reply_to ticket_id row body has_credentials now value

  -- `has_credentials` is the verdict of `reject_credentials` on the message.
  unfoldable pub reply : ℕ → ReplyInput → Bool → ℕ → Exec Feedback (Option Payload)
  reply ticket_id body has_credentials now = do
    row ← owned ticket_id none
    match_option row.encrypted_payload (raise (api_error 410 feedback_expired))
        (reply_live ticket_id row body has_credentials now)
