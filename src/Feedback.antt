-- ===== src/Feedback.antt =====
-- app/feedback.py: the tickets of support, submitted once per key, answered by the staff under an
-- optimistic lock, and emptied when they expire or their author deletes them. The checks of a
-- body's format, of credentials in a submission and of the rate come before this, and the audit
-- rows are left out. A content is opaque; the encryption, whose texts are lists of codes, and the
-- digests are parameters. The program keeps the submissions of users in one table with the mutations
-- of skills (Skills.antt); here they have a table of their own, so a key that a user has used for
-- both is left out.
pub mod Submit
pub mod Answer
pub mod Once
pub mod Retained
pub mod History
pub mod Emptied
pub mod Deleted
mod Tests
use opsark_admin.Common.{
  ℕ, ◌+◌, Bool, true, false, ◌&&◌, not, Option, none, some, List, [], ◌∷◌, leb, ◌==◌, if◌then◌else◌,
}
use opsark_admin.Common.Table.{Table, get, update}
use opsark_admin.Errors.{api_error, feedback_not_found}
use opsark_admin.Exec.{Exec, pure, raise, gets, modify, ◌>>=◌, match_option}
use opsark_admin.Skills.{is_missing}

pub data Category : Type 0 where
  general task : Category

pub data ReplyStatus : Type 0 where
  opened in_progress resolved : ReplyStatus

pub data TicketStatus : Type 0 where
  active : ReplyStatus → TicketStatus
  expired deleted : TicketStatus

pub record TicketReply : Type 0 where
  pub message : ℕ
  pub created_at : ℕ

pub record Payload : Type 0 where
  pub content : ℕ
  pub replies : List TicketReply

pub record SupportTicket : Type 0 where
  pub user_id : Option ℕ
  pub guest_submission_key : Option ℕ
  pub request_hash : Option ℕ
  pub category : Category
  pub status : TicketStatus
  pub revision : ℕ
  pub encrypted_payload : Option (List ℕ)
  pub created_at : ℕ
  pub expires_at : ℕ

pub record Response : Type 0 where
  pub id : ℕ
  pub revision : ℕ

pub record Submission : Type 0 where
  pub user_id : ℕ
  pub id : ℕ
  pub request_hash : ℕ
  pub response : Response

pub record Feedback : Type 0 where
  pub tickets : Table SupportTicket
  pub mutations : List Submission

-- `content` is the body without its key and its consent; the logs count by their length.
pub record FeedbackInput : Type 0 where
  pub mutation_id : ℕ
  pub category : Category
  pub diagnostic : Option ℕ
  pub log_excerpt : ℕ
  pub task_logs : ℕ
  pub content : ℕ

unfoldable pub write_tickets : (Table SupportTicket → Table SupportTicket) → Exec Feedback Unit
write_tickets f = modify λ db. record db { tickets = f db.tickets }

-- The row of an UPDATE that empties what has expired and is not empty yet.
abbrev pub expire : ℕ → SupportTicket → SupportTicket
expire now row =
    if leb row.expires_at now && not (is_missing row.encrypted_payload)
    then record row { encrypted_payload = none; status = expired; revision = row.revision + 1 }
    else row

abbrev pub expire_all : ℕ → Table SupportTicket → Table SupportTicket
expire_all now [] = []
expire_all now ((id, row) ∷ rows) = (id, expire now row) ∷ expire_all now rows

unfoldable pub purge_expired : ℕ → Exec Feedback Unit
purge_expired now = write_tickets (expire_all now)

-- `user_id is not None and row.user_id != user_id`, the other way round.
abbrev pub may_open : Option ℕ → SupportTicket → Bool
may_open none row = true
may_open (some user_id) row = elim row.user_id [ none ↦ false | some owner ↦ owner == user_id ]

unfoldable pub owned : ℕ → Option ℕ → Exec Feedback SupportTicket
owned ticket_id user_id = do
  found ← gets (λ db. get ticket_id db.tickets)
  match_option found (raise (api_error 404 feedback_not_found))
      λ row. if may_open user_id row then pure row else raise (api_error 404 feedback_not_found)

unfoldable pub emptied : SupportTicket → SupportTicket
emptied row = record row { encrypted_payload = none; status = deleted; revision = row.revision + 1 }

unfoldable pub delete_mine : ℕ → ℕ → Exec Feedback Unit
delete_mine ticket_id user_id = do
  row ← owned ticket_id (some user_id)
  write_tickets (update ticket_id emptied)
