-- ===== src/Feedback/Once.antt =====
-- app/feedback.py, `submit`: a submission takes effect once.
use opsark_admin.Common.{
  ℕ, ◌≡◌, refl, true, ◌==◌, Option, none, some, subst, arith, Bool-cases, Option-cases, inl, inr,
  List, ◌∷◌, [],
}
use opsark_admin.Common.Table.{Table, get, insert}
use opsark_admin.Errors.{
  Error, Result, ok, api_error, integrity_error, value_error, unhandled_error, transport,
  cancelled_error,
}
use opsark_admin.Exec.{transaction, ◌>>=◌}
use opsark_admin.Exec.Keeps.{
  Result-cases, transaction_done, transaction_raises, catch_returns, catch_raises,
}
use opsark_admin.Feedback.{
  Payload, SupportTicket, Feedback, FeedbackInput, Response, Submission, expire_all, write_tickets,
  purge_expired,
}
use opsark_admin.Feedback.Submit.{
  has_selection, has_unexpected_logs, is_of_guest, find_guest, find_mutation, same_hash, answer,
  new_ticket, add_ticket, add_mutation, submit_new, on_conflict, on_taken, add_new, submit_once,
  submit,
}

-- The purge empties tickets and leaves their keys.
find_guest-expire_all :
    (key now : ℕ) (rows : Table SupportTicket)
    → find_guest key rows ≡ none
    → find_guest key (expire_all now rows) ≡ none
unfolding find_guest
find_guest-expire_all key now [] missing = refl
find_guest-expire_all key now ((id, row) ∷ rows) missing =
    ground (arith, find_guest-expire_all key now rows)

find_guest-insert :
    (key id : ℕ) (row : SupportTicket) (rows : Table SupportTicket)
    → find_guest key rows ≡ none
    → is_of_guest key row ≡ true
    → find_guest key (insert id row rows) ≡ some (id, row)
unfolding find_guest
find_guest-insert key id row [] missing own = rw own refl
find_guest-insert key id row ((j, other) ∷ rows) missing own =
    ground (arith, find_guest-insert key id row rows)

ok_injective {ℓ} : {A : Type ℓ} {a b : A} → Result.ok a ≡ ok b → a ≡ b
ok_injective e = ground (arith, e)

same_refl : (n : ℕ) → (n == n) ≡ true
same_refl n = ground arith

module _ (seal : Payload → List ℕ) (digest guest_digest : ℕ → ℕ) (body : FeedbackInput) where
  -- The rows say that the body was submitted, with this reply.
  abbrev Answers : Option ℕ → Response → Feedback → Type 0
  Answers none reply db =
      (found : ℕ × SupportTicket) × (find_guest (guest_digest body.mutation_id) db.tickets
        ≡ some found)
      × (same_hash found.1.request_hash (digest body.content) ≡ true)
      × (record { id = found.0; revision = 1 } ≡ reply)
  Answers (some user_id) reply db =
      (row : Submission) × (find_mutation user_id body.mutation_id db.mutations ≡ some row)
      × (same_hash (some row.request_hash) (digest body.content) ≡ true)
      × (row.response ≡ reply)

  answered :
      (id : ℕ) (user_id : Option ℕ) (now : ℕ) (reply : Response) (db : Feedback)
      → Answers user_id reply db
      → submit_once seal digest guest_digest id user_id body now db ≡ (ok reply, db)
  unfolding submit_once answer ◌>>=◌
  answered id none now reply db (found, there, same, e) = rw (there, same, e) refl
  answered id (some user_id) now reply db (row, there, same, e) = rw (there, same, e) refl

  -- A new ticket of a guest is found by its key.
  new_guest :
      (id now : ℕ) (reply : Response) (db : Feedback)
      → find_guest (guest_digest body.mutation_id) db.tickets ≡ none
      → (submit_new seal digest guest_digest id none body now db).0 ≡ ok reply
      → Answers none reply (submit_new seal digest guest_digest id none body now db).1
  unfolding submit_new purge_expired add_ticket write_tickets new_ticket ◌>>=◌
  new_guest id now reply db missing done =
      elim (Option-cases (get id (expire_all now db.tickets))) [
        | inl free ↦ rw free (
          (id, new_ticket seal digest none (some (guest_digest body.mutation_id)) body now),
          find_guest-insert (guest_digest body.mutation_id) id _ (expire_all now db.tickets)
              (find_guest-expire_all (guest_digest body.mutation_id) now db.tickets missing)
              (same_refl (guest_digest body.mutation_id)),
          same_refl (digest body.content),
          ok_injective (rw free at done),
        )
        | inr (row, taken) ↦ absurd (ground (arith, rw taken at done))
      ]

  new_user :
      (id user_id now : ℕ) (reply : Response) (db : Feedback)
      → (submit_new seal digest guest_digest id (some user_id) body now db).0 ≡ ok reply
      → Answers
          (some user_id)
          reply
          (submit_new seal digest guest_digest id (some user_id) body now db).1
  unfolding submit_new purge_expired add_ticket add_mutation write_tickets new_ticket find_mutation
      ◌>>=◌
  new_user id user_id now reply db done = elim (Option-cases (get id (expire_all now db.tickets))) [
    | inl free ↦ rw free (
      record {
        user_id = user_id;
        id = body.mutation_id;
        request_hash = digest body.content;
        response = record { id = id; revision = 1 };
      },
      rw (same_refl user_id, same_refl body.mutation_id) refl,
      same_refl (digest body.content),
      ok_injective (rw free at done),
    )
    | inr (row, taken) ↦ absurd (ground (arith, rw taken at done))
  ]

  abbrev IsFresh : Option ℕ → Feedback → Type 0
  IsFresh none db = find_guest (guest_digest body.mutation_id) db.tickets ≡ none
  IsFresh (some user_id) db = find_mutation user_id body.mutation_id db.mutations ≡ none

  refused :
      (user_id : Option ℕ) (reply : Response) (e : Error) (db : Feedback)
      → IsFresh user_id db
      → ¬ ((on_taken seal digest guest_digest user_id body e db).0 ≡ ok reply)
  unfolding on_taken on_conflict ◌>>=◌
  refused none reply integrity_error db fresh done = ground (arith, rw fresh at done)
  refused (some user_id) reply integrity_error db fresh done = ground (arith, done)
  refused user_id reply (api_error status code) db fresh done = ground (arith, done)
  refused user_id reply value_error db fresh done = ground (arith, done)
  refused user_id reply unhandled_error db fresh done = ground (arith, done)
  refused user_id reply (transport failure) db fresh done = ground (arith, done)
  refused user_id reply cancelled_error db fresh done = ground (arith, done)

  submitted :
      (id : ℕ) (user_id : Option ℕ) (now : ℕ) (reply : Response) (db : Feedback)
      → IsFresh user_id db
      → (submit_new seal digest guest_digest id user_id body now db).0 ≡ ok reply
      → Answers user_id reply (submit_new seal digest guest_digest id user_id body now db).1
  submitted id none now reply db fresh done = new_guest id now reply db fresh done
  submitted id (some user_id) now reply db fresh done = new_user id user_id now reply db done

  added :
      (id : ℕ) (user_id : Option ℕ) (now : ℕ) (reply : Response) (db : Feedback)
      → IsFresh user_id db
      → (add_new seal digest guest_digest id user_id body now db).0 ≡ ok reply
      → Answers user_id reply (add_new seal digest guest_digest id user_id body now db).1
  unfolding add_new
  added id user_id now reply db fresh done =
      let m = submit_new seal digest guest_digest id user_id body now in
      let handler = on_taken seal digest guest_digest user_id body in
      elim (Result-cases (transaction m db).0) [
        | inl (a, returned) ↦
            let whole = catch_returns (transaction m) handler db a returned in
            let same : a ≡ reply = ok_injective (rw whole at done) in
            let (ran, kept) = transaction_done m db a returned in
            rw (whole, kept)
              (submitted id user_id now reply db fresh (subst (λ x. (m db).0 ≡ ok x) same ran))
        | inr (e, raised) ↦ absurd (
            refused user_id reply e db fresh (
              rw
                (catch_raises (transaction m) handler db e raised, transaction_raises m db e raised)
                at done))
      ]

  submit_once_answers :
      (id : ℕ) (user_id : Option ℕ) (now : ℕ) (reply : Response) (db : Feedback)
      → (submit_once seal digest guest_digest id user_id body now db).0 ≡ ok reply
      → Answers user_id reply (submit_once seal digest guest_digest id user_id body now db).1
  unfolding submit_once answer ◌>>=◌
  submit_once_answers id none now reply db done =
      elim (Option-cases (find_guest (guest_digest body.mutation_id) db.tickets)) [
        | inl missing ↦ rw missing (added id none now reply db missing (rw missing at done))
        | inr (found, there) ↦
            elim (Bool-cases (same_hash found.1.request_hash (digest body.content))) [
              | inl same ↦
                  rw (there, same) (found, there, same, ok_injective (rw (there, same) at done))
              | inr other ↦ absurd (ground (arith, rw (there, other) at done))
            ]
      ]
  submit_once_answers id (some user_id) now reply db done =
      elim (Option-cases (find_mutation user_id body.mutation_id db.mutations)) [
        | inl missing ↦
            rw missing (added id (some user_id) now reply db missing (rw missing at done))
        | inr (row, there) ↦ elim (Bool-cases (row.request_hash == digest body.content)) [
          | inl same ↦ rw (there, same) (row, there, same, ok_injective (rw (there, same) at done))
          | inr other ↦ absurd (ground (arith, rw (there, other) at done))
        ]
      ]

  -- A submission that has returned, made again with the same key and content at any time, by the
  -- same user or as a guest again, returns the same reply and writes nothing.
  pub submit-submit :
      (id again : ℕ) (user_id : Option ℕ) (now later : ℕ) (reply : Response) (db : Feedback)
      → (submit seal digest guest_digest id user_id body now db).0 ≡ ok reply
      → submit seal digest guest_digest again user_id body later
          (submit seal digest guest_digest id user_id body now db).1
        ≡ (ok reply, (submit seal digest guest_digest id user_id body now db).1)
  unfolding submit ◌>>=◌
  submit-submit id again user_id now later reply db done = elim (Bool-cases (has_selection body)) [
    | inr missing ↦ absurd (ground (arith, rw missing at done))
    | inl chosen ↦ elim (Bool-cases (has_unexpected_logs body)) [
      | inl logs ↦ absurd (ground (arith, rw (chosen, logs) at done))
      | inr fine ↦
          rw (chosen, fine)
            (answered again user_id later reply _
              (submit_once_answers id user_id now reply db (rw (chosen, fine) at done)))
    ]
  ]
