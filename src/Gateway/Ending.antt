-- ===== src/Gateway/Ending.antt =====
-- app/gateway.py, `completions`: how a call ends, on every path through the handler.
use opsark_admin.Common.{
  ℕ, ◌≡◌, refl, Bool, true, false, none, some, arith, Bool-cases, inl, inr, ◌⊎◌, sym, subst, ◌∙◌,
}
use opsark_admin.Errors.{
  Error, Result, ok, err, api_error, integrity_error, value_error, unhandled_error, transport,
  cancelled_error,
}
use opsark_admin.Exec.{Exec, pure, catch, gets, ◌>>=◌}
use opsark_admin.Exec.Keeps.{Result-cases, catch_returns, catch_raises}
use opsark_admin.Models.{failed, cancelled, client_disconnected, CallError, Db}
use opsark_admin.Gateway.Exchange.{
  Call, Scope, failure_code, Exchange, Reply, error_reply, finish, set_dispatched, attempt,
  was_unsent, certainty_after, fail, on_failure, handle,
}
use opsark_admin.Gateway.Slots.{release-db}
use opsark_admin.Gateway.Delivered.{fail-IsSent}
use opsark_admin.Gateway.Outcome.{IsReady, IsEnded, IsFree, finish-IsFinished}
use opsark_admin.Gateway.Paths.{
  Goes, IsUnrelayed, attempt_unless-Goes, can_raise, is_readable, is_unsent,
}

-- After the handlers: the call has ended, whether a reply is made or the client is gone.
abbrev pub Ends : Bool → Call → Db → Result Reply × Scope → Type 0
Ends readable c db (r, s) =
    (readable ≡ true → IsEnded c s.db)
    × ((reply : Reply) → r ≡ ok reply → is_unsent reply ≡ true → IsFree c db s.db)

unsent_reply :
    (status : ℕ) (code : CallError) (dispatched received : Bool) (reply : Reply)
    → ◌≡◌ {A = Result Reply}
        (ok (error_reply status code (certainty_after dispatched received)))
        (ok reply)
    → is_unsent reply ≡ true
    → dispatched ≡ false
unsent_reply status code false received reply same e = refl
unsent_reply status code true true reply same e = ground arith
unsent_reply status code true false reply same e = ground arith

module _ (readable : Bool) (c : Call) (s : Scope) (h : IsReady c s.db) where
  reported-Ends :
      (code : CallError) (status : ℕ)
      → Ends readable c s.db (
          (finish c failed (some code) none >>= λ _.
          gets (λ scope. scope.dispatched) >>= λ dispatched.
          gets (λ scope. scope.received) >>= λ received.
          pure (error_reply status code (certainty_after dispatched received)))
            s)
  unfolding ◌>>=◌
  reported-Ends code status =
      let f = finish-IsFinished c failed (some code) none s refl h in
      rw f.done (
        λ fine. f.ended,
        λ reply same e. f.free (sym f.local.0 ∙ unsent_reply _ _ _ _ reply same e),
      )

  gone-Ends : Ends readable c s.db (on_failure c cancelled_error s)
  unfolding on_failure ◌>>=◌
  gone-Ends =
      let f = finish-IsFinished c cancelled (some client_disconnected) none s refl h in
      rw f.done (λ fine. f.ended, λ reply same e. absurd (ground arith))

module _ (readable : Bool) (c : Call) where
  fail-Ends : (e : Error) (s : Scope) → IsReady c s.db → Ends readable c s.db (fail c e s)
  unfolding fail set_dispatched ◌>>=◌
  fail-Ends e s h = elim (Bool-cases (was_unsent s.acquired e)) [
    | inl never ↦ rw never (reported-Ends readable c (set_dispatched false s).1 h _ _)
    | inr maybe ↦ rw maybe (reported-Ends readable c s h _ _)
  ]

  pub on_failure-Ends :
      (e : Error) (s : Scope)
      → IsReady c s.db
      → can_raise readable e ≡ true
      → Ends readable c s.db (on_failure c e s)
  unfolding on_failure ◌>>=◌
  on_failure-Ends value_error s h fault = fail-Ends value_error s h
  on_failure-Ends (transport failure) s h fault = fail-Ends (transport failure) s h
  on_failure-Ends cancelled_error s h fault = gone-Ends readable c s h
  on_failure-Ends (api_error status code) s h fault = absurd (ground arith)
  on_failure-Ends integrity_error s h fault = absurd (ground arith)
  on_failure-Ends unhandled_error s h unread =
      (λ fine. absurd (ground (arith, rw fine at unread)), λ reply same e. absurd (ground arith))

  returned-Ends :
      (db : Db) (p : Result Reply × Scope) (reply : Reply)
      → Goes readable c db p
      → p.0 ≡ ok reply
      → Ends readable c db (ok reply, p.1)
  returned-Ends db (ok first, s) reply (ended, free) same =
      (λ fine. ended, λ other again e. free (ground arith))
  returned-Ends db (err e, s) reply goes same = absurd (ground arith)

  raised-Goes :
      (db : Db) (p : Result Reply × Scope) (e : Error)
      → Goes readable c db p
      → p.0 ≡ err e
      → ((p.1.db ≡ db) × (can_raise readable e ≡ true)) ⊎ IsUnrelayed readable e p.1
  raised-Goes db (ok first, s) e goes same = absurd (ground arith)
  raised-Goes db (err first, s) e goes same =
      let equal : first ≡ e = cc same in
      subst (λ q. ((s.db ≡ db) × (can_raise readable q ≡ true)) ⊎ IsUnrelayed readable q s) equal
        goes

  unrelayed-Ends :
      (db : Db) (e : Error) (s : Scope)
      → IsUnrelayed readable e s
      → Ends readable c db (on_failure c e s)
  unfolding on_failure
  unrelayed-Ends db e s w =
      subst (λ q. Ends readable c db (on_failure c q s)) (sym w.error)
        (
          λ fine. absurd (ground (arith, fine, w.unread)),
          λ reply same quiet.
              let (received, told) = fail-IsSent c s reply w.held same in
              absurd (told_sent received reply told quiet),
        )
    where
      told_sent :
          (received : Bool) (reply : Reply)
          → reply ≡ error_reply 502 (failure_code true value_error) (certainty_after true received)
          → is_unsent reply ≡ true
          → ⊥
      told_sent true reply told quiet = ground (arith, rw told at quiet)
      told_sent false reply told quiet = ground (arith, rw told at quiet)

  caught-Ends :
      (m : Exec Scope Reply) (s : Scope)
      → IsReady c s.db
      → Goes readable c s.db (m s)
      → Ends readable c s.db (catch m (on_failure c) s)
  caught-Ends m s h goes = elim (Result-cases (m s).0) [
    | inl (reply, done) ↦
        rw (catch_returns m (on_failure c) s reply done) (returned-Ends s.db (m s) reply goes done)
    | inr (e, raised) ↦ elim (raised-Goes s.db (m s) e goes raised) [
      | inl (kept, fault) ↦ rw (catch_raises m (on_failure c) s e raised) (
          subst (λ db. Ends readable c db (on_failure c e (m s).1)) kept
            (on_failure-Ends e (m s).1 (subst (IsReady c) (sym kept) h) fault))
      | inr unrelayed ↦
          rw (catch_raises m (on_failure c) s e raised) (unrelayed-Ends s.db e (m s).1 unrelayed)
    ]
  ]

module _ (c : Call) where
  attempt-Ends :
      (x : Exchange) (s : Scope)
      → IsReady c s.db
      → s.dispatched ≡ false
      → Ends (is_readable c x) c s.db (catch (attempt c x) (on_failure c) s)
  unfolding attempt
  attempt-Ends x s h idle =
      caught-Ends (is_readable c x) c (attempt c x) s h
        (attempt_unless-Goes c c.capability_error x s h idle)

-- An admitted call ends: whatever the client does and whatever of the named exceptions the network and
-- the provider's reply lead to, when the handler is through, the call has an outcome other than
-- "running", and the row of a user's call in the journal is settled, released or up for review. Three
-- things are excluded: an exception that no handler names, such as the RecursionError of a deeply
-- nested body or the InvalidURL of an address; a list or a dictionary where the code looks a value up
-- in a set, as the status of a Responses reply or the code of a refused schema; and a reply to be
-- relayed that JSONResponse refuses for a NaN or a half of a surrogate pair.
pub handle-IsEnded :
    (c : Call) (x : Exchange) (s : Scope)
    → IsReady c s.db
    → s.dispatched ≡ false
    → is_readable c x ≡ true
    → IsEnded c (handle c x s).1.db
unfolding handle
handle-IsEnded c x s h idle fine = rw release-db ((attempt-Ends c x s h idle).0 fine)

-- If a caller is told that a request was not dispatched, then the call has cost nothing: the
-- balances and the ledger are as before, and the row of a user's call is released with a usage of
-- zero.
pub handle-IsFree :
    (c : Call) (x : Exchange) (s : Scope)
    → IsReady c s.db
    → s.dispatched ≡ false
    → (reply : Reply) → (handle c x s).0 ≡ ok reply
    → is_unsent reply ≡ true
    → IsFree c s.db (handle c x s).1.db
unfolding handle
handle-IsFree c x s h idle reply same e = rw release-db ((attempt-Ends c x s h idle).1 reply same e)
