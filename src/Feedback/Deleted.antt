-- ===== src/Feedback/Deleted.antt =====
-- app/feedback.py: the content of a ticket is gone once its author has deleted it.
use opsark_admin.Common.{
  ℕ, ◌≡◌, ◌≢◌, refl, Option, some, List, [], ◌∷◌, ltb, Bool-cases, Option-cases, inl, inr,
}
use opsark_admin.Common.Table.{get, get-update_self}
use opsark_admin.Errors.{ok}
use opsark_admin.Exec.{◌>>=◌}
use opsark_admin.Feedback.{
  Payload, Feedback, write_tickets, purge_expired, owned, may_open, emptied, delete_mine,
}
use opsark_admin.Feedback.Answer.{detail, read}
use opsark_admin.Feedback.History.{
  Request, submitted, listed, opened, deleted, answered, serve, serve_all,
}
use opsark_admin.Feedback.Emptied.{
  IsEmptied, get-expire_all, submit-Keeps, purge_expired-Keeps, read-Keeps, delete_mine-Keeps,
  reply-Keeps,
}

module _ (k : ℕ) where
  module _ (seal : Payload → List ℕ) (decrypt : List ℕ → Option Payload)
      (digest guest_digest : ℕ → ℕ) where
    serve-IsEmptied :
        (request : Request) (db : Feedback)
        → IsEmptied k db
        → IsEmptied k (serve seal decrypt digest guest_digest request db)
    serve-IsEmptied (submitted id user_id body now) db h =
        (submit-Keeps k seal digest guest_digest id user_id body now).at db h
    serve-IsEmptied (listed now) db h = (purge_expired-Keeps k now).at db h
    serve-IsEmptied (opened id user_id now) db h = (read-Keeps k decrypt id user_id now).at db h
    serve-IsEmptied (deleted id user_id) db h = (delete_mine-Keeps k id user_id).at db h
    serve-IsEmptied (answered id body has_credentials now) db h =
        (reply-Keeps k seal decrypt id body has_credentials now).at db h

    serve_all-IsEmptied :
        (requests : List Request) (db : Feedback)
        → IsEmptied k db
        → IsEmptied k (serve_all seal decrypt digest guest_digest requests db)
    serve_all-IsEmptied [] db h = h
    serve_all-IsEmptied (request ∷ requests) db h =
        serve_all-IsEmptied requests _ (serve-IsEmptied request db h)

-- The deletion of a ticket empties it.
delete_mine-IsEmptied :
    (k user_id : ℕ) (db : Feedback)
    → (delete_mine k user_id db).0 ≡ ok tt
    → IsEmptied k (delete_mine k user_id db).1
unfolding delete_mine owned write_tickets emptied ◌>>=◌
delete_mine-IsEmptied k user_id db done = elim (Option-cases (get k db.tickets)) [
  | inl missing ↦ cc (rw missing at done)
  | inr (row, found) ↦ elim (Bool-cases (may_open (some user_id) row)) [
    | inl mine ↦
        rw (found, mine)
          (record {
            row = emptied row;
            found = rw (get-update_self k emptied db.tickets, found) refl;
            empty = refl;
          })
    | inr other ↦ cc (rw (found, other) at done)
  ]
]

read-IsEmptied :
    (decrypt : List ℕ → Option Payload) (k : ℕ) (user_id : Option ℕ) (now : ℕ) (payload : Payload)
    (db : Feedback)
    → IsEmptied k db
    → (read decrypt k user_id now db).0 ≢ ok (some payload)
unfolding read owned detail purge_expired write_tickets ◌>>=◌
read-IsEmptied decrypt k user_id now payload db h e = elim (Bool-cases (may_open user_id h.row)) [
  | inr other ↦ cc (rw (h.found, other) at e)
  | inl allowed ↦
      let later = get-expire_all k now db.tickets h.row h.found h.empty in
      elim (Bool-cases (ltb now h.row.expires_at)) [
        | inl fresh ↦ cc (rw (h.found, allowed, later, allowed, fresh, h.empty) at e)
        | inr over ↦ cc (rw (h.found, allowed, later, allowed, over) at e)
      ]
]

-- Once its author has deleted a ticket, nobody reads a content of it again, whatever submissions,
-- readings, deletions and answers of the staff come in between.
pub delete_mine-read :
    (seal : Payload → List ℕ) (decrypt : List ℕ → Option Payload) (digest guest_digest : ℕ → ℕ)
    (k author : ℕ) (db : Feedback)
    → (delete_mine k author db).0 ≡ ok tt
    → (requests : List Request) (user_id : Option ℕ) (now : ℕ) (payload : Payload)
    → (read decrypt k user_id now
        (serve_all seal decrypt digest guest_digest requests (delete_mine k author db).1)).0
      ≢ ok (some payload)
delete_mine-read seal decrypt digest guest_digest k author db done requests user_id now payload =
    read-IsEmptied decrypt k user_id now payload _ (
      serve_all-IsEmptied k seal decrypt digest guest_digest requests _
        (delete_mine-IsEmptied k author db done))
