-- ===== src/Feedback/Tests.antt =====
-- app/feedback.py at examples.
use opsark_admin.Common.{ℕ, ◌≡◌, ◌≢◌, refl, false, Option, none, some, List, [], ◌∷◌, ap, arith}
use opsark_admin.Errors.{ok}
use opsark_admin.Exec.{transaction, ◌>>=◌}
use opsark_admin.Feedback.{
  general, opened, resolved, active, TicketReply, Payload, SupportTicket, Feedback, FeedbackInput,
  Response, write_tickets, purge_expired, owned, delete_mine,
}
use opsark_admin.Feedback.Submit.{
  find_guest, new_ticket, add_ticket, submit_new, add_new, submit_once, submit,
}
use opsark_admin.Feedback.Answer.{ReplyInput, read}
use opsark_admin.Feedback.Deleted.{delete_mine-read}
use opsark_admin.Feedback.Once.{submit-submit}
use opsark_admin.Feedback.Retained.{IsKept}
use opsark_admin.Feedback.History.{
  Request, submitted, listed, deleted, answered, serve_all, serve_all-IsKept,
}

-- A reversible coding in place of the encryption.
abbrev flat : List TicketReply → List ℕ
flat [] = []
flat (reply ∷ replies) = reply.message ∷ reply.created_at ∷ flat replies

abbrev pairs : List ℕ → List TicketReply
pairs (message ∷ time ∷ rest) = record { message = message; created_at = time } ∷ pairs rest
pairs _ = []

abbrev encode : Payload → List ℕ
encode payload = payload.content ∷ flat payload.replies

abbrev decode : List ℕ → Option Payload
decode [] = none
decode (content ∷ rest) = some (record { content = content; replies = pairs rest })

pairs-flat : (replies : List TicketReply) → pairs (flat replies) ≡ replies
pairs-flat [] = refl
pairs-flat (reply ∷ replies) = ap (λ rest. reply ∷ rest) (pairs-flat replies)

decode-encode : (payload : Payload) → decode (encode payload) ≡ some payload
decode-encode payload =
    ap (λ replies. some (record { content = payload.content; replies = replies }))
      (pairs-flat payload.replies)

abbrev ticket : SupportTicket
ticket = record {
  user_id = some 7;
  guest_submission_key = none;
  request_hash = some 40;
  category = general;
  status = active opened;
  revision = 2;
  encrypted_payload = some (encode (record { content = 40; replies = [] }));
  created_at = 100;
  expires_at = 2592000100;
}

abbrev db : Feedback
db = record { tickets = (1, ticket) ∷ []; mutations = [] }

abbrev body : FeedbackInput
body = record {
  mutation_id = 9;
  category = general;
  diagnostic = none;
  log_excerpt = 0;
  task_logs = 0;
  content = 50;
}

abbrev staff_reply : ReplyInput
staff_reply = record { revision = 2; status = resolved; message = some 60 }

abbrev keep : ℕ → ℕ
keep n = n

abbrev first_reply : Response
first_reply = record { id = 2; revision = 1 }

accepted : (submit encode keep keep 2 none body 200 db).0 ≡ ok first_reply
unfolding submit submit_once add_new submit_new add_ticket new_ticket find_guest purge_expired
    write_tickets transaction ◌>>=◌
accepted = refl

submit-submit_example :
    submit encode keep keep 3 none body 300 (submit encode keep keep 2 none body 200 db).1
    ≡ (ok first_reply, (submit encode keep keep 2 none body 200 db).1)
submit-submit_example = submit-submit encode keep keep body 2 3 none 200 300 first_reply db accepted

abbrev requests : List Request
requests =
    submitted 2 none body 200
    ∷ answered 1 staff_reply false 300
    ∷ deleted 1 7
    ∷ listed 9000000000
    ∷ []

serve_all-IsKept_example : IsKept decode (serve_all encode decode keep keep requests db)
serve_all-IsKept_example =
    serve_all-IsKept encode decode decode-encode keep keep requests db (omega arith, tt)

removed : (delete_mine 1 7 db).0 ≡ ok tt
unfolding delete_mine owned write_tickets ◌>>=◌
removed = refl

delete_mine-read_example :
    (read decode 1 none 400 (
      serve_all encode decode keep keep
        (answered 1 staff_reply false 300 ∷ [])
        (delete_mine 1 7 db).1)).0
    ≢ ok (some (record { content = 40; replies = [] }))
delete_mine-read_example =
    delete_mine-read encode decode keep keep 1 7 db removed (answered 1 staff_reply false 300 ∷ [])
      none 400 (record { content = 40; replies = [] })
