-- ===== src/Feedback/History.antt =====
-- app/feedback.py: sequences of requests on the tickets, of users and of the staff.
use opsark_admin.Common.{ℕ, Bool, ◌≡◌, Option, some, List, [], ◌∷◌}
use opsark_admin.Feedback.{Payload, Feedback, FeedbackInput, purge_expired, delete_mine}
use opsark_admin.Feedback.Submit.{submit}
use opsark_admin.Feedback.Answer.{ReplyInput, read, reply}
use opsark_admin.Feedback.Retained.{
  IsKept, purge_expired-Keeps, submit-Keeps, read-Keeps, delete_mine-Keeps, reply-Keeps,
}

-- `listed` is `mine` or `inbox`, whose lists are not modelled.
pub data Request : Type 0 where
  submitted : ℕ → Option ℕ → FeedbackInput → ℕ → Request
  listed : ℕ → Request
  opened : ℕ → Option ℕ → ℕ → Request
  deleted : ℕ → ℕ → Request
  answered : ℕ → ReplyInput → Bool → ℕ → Request

module _ (seal : Payload → List ℕ) (decrypt : List ℕ → Option Payload)
    (digest guest_digest : ℕ → ℕ) where
  abbrev pub serve : Request → Feedback → Feedback
  serve (submitted id user_id body now) db =
      (submit seal digest guest_digest id user_id body now db).1
  serve (listed now) db = (purge_expired now db).1
  serve (opened id user_id now) db = (read decrypt id user_id now db).1
  serve (deleted id user_id) db = (delete_mine id user_id db).1
  serve (answered id body has_credentials now) db =
      (reply seal decrypt id body has_credentials now db).1

  abbrev pub serve_all : List Request → Feedback → Feedback
  serve_all [] db = db
  serve_all (request ∷ requests) db = serve_all requests (serve request db)

module _ (seal : Payload → List ℕ) (decrypt : List ℕ → Option Payload)
    (opens : (p : Payload) → decrypt (seal p) ≡ some p) (digest guest_digest : ℕ → ℕ) where
  serve-IsKept :
      (request : Request) (db : Feedback)
      → IsKept decrypt db
      → IsKept decrypt (serve seal decrypt digest guest_digest request db)
  serve-IsKept (submitted id user_id body now) db h =
      (submit-Keeps seal decrypt opens digest guest_digest id user_id body now).at db h
  serve-IsKept (listed now) db h = (purge_expired-Keeps decrypt now).at db h
  serve-IsKept (opened id user_id now) db h = (read-Keeps decrypt id user_id now).at db h
  serve-IsKept (deleted id user_id) db h = (delete_mine-Keeps decrypt id user_id).at db h
  serve-IsKept (answered id body has_credentials now) db h =
      (reply-Keeps seal decrypt opens id body has_credentials now).at db h

  -- If what was sealed opens again, then after any requests every ticket that is empty has expired
  -- or was deleted, every other one is active, and a content that opens holds at most 50 replies,
  -- provided that this held before.
  pub serve_all-IsKept :
      (requests : List Request) (db : Feedback)
      → IsKept decrypt db
      → IsKept decrypt (serve_all seal decrypt digest guest_digest requests db)
  serve_all-IsKept [] db h = h
  serve_all-IsKept (request ∷ requests) db h =
      serve_all-IsKept requests _ (serve-IsKept request db h)
