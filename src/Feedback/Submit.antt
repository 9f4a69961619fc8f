-- ===== src/Feedback/Submit.antt =====
-- app/feedback.py, `submit`: a ticket is added once per key of its author.
use opsark_admin.Common.{
  ℕ, ◌+◌, Bool, true, false, ◌&&◌, ◌||◌, not, Option, none, some, List, [], ◌∷◌, ltb, ◌==◌,
  if◌then◌else◌,
}
use opsark_admin.Common.Table.{Table, get, insert}
use opsark_admin.Errors.{
  Error, api_error, integrity_error, mutation_conflict, task_selection_required, unexpected_logs,
}
use opsark_admin.Exec.{
  Exec, pure, raise, gets, modify, catch, transaction, ◌>>=◌, ◌>>◌, match_option,
}
use opsark_admin.Skills.{is_missing}
use opsark_admin.Feedback.{
  Category, Payload, SupportTicket, Response, Submission, Feedback, FeedbackInput, write_tickets,
  purge_expired, general, task, opened, active,
}

abbrev pub is_task : Category → Bool
is_task task = true
is_task general = false

-- The category and the diagnostic belong together, and only a task has logs.
abbrev pub has_selection : FeedbackInput → Bool
has_selection body =
    if is_task body.category then not (is_missing body.diagnostic) else is_missing body.diagnostic

abbrev pub has_unexpected_logs : FeedbackInput → Bool
has_unexpected_logs body =
    not (is_task body.category) && (ltb 0 body.log_excerpt || ltb 0 body.task_logs)

-- The mutation of a user by its key.
unfoldable pub find_mutation : ℕ → ℕ → List Submission → Option Submission
find_mutation user_id id [] = none
find_mutation user_id id (row ∷ rows) =
    if (row.user_id == user_id) && (row.id == id) then some row else find_mutation user_id id rows

-- `row.guest_submission_key == guest_key`
abbrev pub is_of_guest : ℕ → SupportTicket → Bool
is_of_guest guest_key row = elim row.guest_submission_key [
  | none ↦ false
  | some key ↦ key == guest_key
]

unfoldable pub find_guest : ℕ → Table SupportTicket → Option (ℕ × SupportTicket)
find_guest guest_key [] = none
find_guest guest_key ((id, row) ∷ rows) =
    if is_of_guest guest_key row then some (id, row) else find_guest guest_key rows

-- `old.request_hash == fingerprint`
abbrev pub same_hash : Option ℕ → ℕ → Bool
same_hash none fingerprint = false
same_hash (some hash) fingerprint = hash == fingerprint

-- A ticket that is there already answers the request, if the content is the same.
unfoldable pub answer : ℕ → Option ℕ → Response → Exec Feedback Response
answer fingerprint request_hash response =
    if same_hash request_hash fingerprint
    then pure response
    else raise (api_error 409 mutation_conflict)

module _ (seal : Payload → List ℕ) (digest : ℕ → ℕ) where
  unfoldable pub new_ticket : Option ℕ → Option ℕ → FeedbackInput → ℕ → SupportTicket
  new_ticket user_id guest_key body now = record {
    user_id = user_id;
    guest_submission_key = guest_key;
    request_hash = some (digest body.content);
    category = body.category;
    status = active opened;
    revision = 1;
    encrypted_payload = some (seal (record { content = body.content; replies = [] }));
    created_at = now;
    expires_at = now + 2592000000;
  }

-- `db.add(row)` and the flush, under the primary key.
unfoldable pub add_ticket : ℕ → SupportTicket → Exec Feedback Unit
add_ticket id row = do
  taken ← gets (λ db. get id db.tickets)
  match_option taken (write_tickets (insert id row)) λ _. raise integrity_error

unfoldable pub add_mutation : Submission → Exec Feedback Unit
add_mutation row = modify λ db. record db { mutations = row ∷ db.mutations }

module _ (seal : Payload → List ℕ) (digest guest_digest : ℕ → ℕ) where
  unfoldable pub submit_new : ℕ → Option ℕ → FeedbackInput → ℕ → Exec Feedback Response
  submit_new id none body now = do
    purge_expired now
    add_ticket id (new_ticket seal digest none (some (guest_digest body.mutation_id)) body now)
    pure (record { id = id; revision = 1 })
  submit_new id (some user_id) body now = do
    purge_expired now
    add_ticket id (new_ticket seal digest (some user_id) none body now)
    add_mutation (record {
      user_id = user_id;
      id = body.mutation_id;
      request_hash = digest body.content;
      response = record { id = id; revision = 1 };
    })
    pure (record { id = id; revision = 1 })

  -- The rows that another request committed first.
  unfoldable pub on_conflict : Option ℕ → FeedbackInput → Exec Feedback Response
  on_conflict none body = do
    old ← gets (λ db. find_guest (guest_digest body.mutation_id) db.tickets)
    match_option old (raise (api_error 409 mutation_conflict)) λ (id, row).
        answer (digest body.content) row.request_hash (record { id = id; revision = 1 })
  on_conflict (some user_id) body = raise (api_error 409 mutation_conflict)

  unfoldable pub on_taken : Option ℕ → FeedbackInput → Error → Exec Feedback Response
  on_taken user_id body integrity_error = on_conflict user_id body
  on_taken user_id body e = raise e

  unfoldable pub add_new : ℕ → Option ℕ → FeedbackInput → ℕ → Exec Feedback Response
  add_new id user_id body now =
      catch (transaction (submit_new id user_id body now)) (on_taken user_id body)

  unfoldable pub submit_once : ℕ → Option ℕ → FeedbackInput → ℕ → Exec Feedback Response
  submit_once id none body now = do
    old ← gets (λ db. find_guest (guest_digest body.mutation_id) db.tickets)
    match_option old (add_new id none body now) λ (old_id, row).
        answer (digest body.content) row.request_hash (record { id = old_id; revision = 1 })
  submit_once id (some user_id) body now = do
    old ← gets (λ db. find_mutation user_id body.mutation_id db.mutations)
    match_option old (add_new id (some user_id) body now)
        λ row. answer (digest body.content) (some row.request_hash) row.response

  unfoldable pub submit : ℕ → Option ℕ → FeedbackInput → ℕ → Exec Feedback Response
  submit id user_id body now =
      if not (has_selection body)
      then raise (api_error 422 task_selection_required)
      else if has_unexpected_logs body
      then raise (api_error 422 unexpected_logs)
      else submit_once id user_id body now
