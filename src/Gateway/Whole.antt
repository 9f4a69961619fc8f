-- ===== src/Gateway/Whole.antt =====
-- app/gateway.py, `completions`: the request of a user from its checks over its admission to its
-- outcome. A user's request is no stream, so `handle` is what follows the admission.
use opsark_admin.Common.{List, ℕ, ◌≡◌, refl, true, false, Option, none, some, String, ◌⊎◌, inl, inr}
use opsark_admin.Errors.{Error, Result, err}
use opsark_admin.Exec.{Exec, lift, ◌>>=◌, ◌>>◌}
use opsark_admin.Exec.Keeps.{Result-cases}
use opsark_admin.Json.{object, Fields, find_field, is_one_of}
use opsark_admin.Common.{[], ◌∷◌}
use opsark_admin.Protocols.{output_format}
use opsark_admin.Parameters.{ModelParameters}
use opsark_admin.Catalog.{Catalog}
use opsark_admin.Catalog.Capabilities.{RevisionSource}
use opsark_admin.Credits.Sound.{IsSound}
use opsark_admin.Gateway.{Admission, admit}
use opsark_admin.Gateway.Admitted.{SameCredits, admit-SameCredits, admit-IsReady}
use opsark_admin.Gateway.Exchange.{Call, Scope, Exchange, Reply, on_db, handle}
use opsark_admin.Gateway.Outcome.{IsEnded}
use opsark_admin.Gateway.Paths.{is_readable}
use opsark_admin.Gateway.Ending.{handle-IsEnded}
use opsark_admin.Gateway.Request.{Request, Caller}
use opsark_admin.Gateway.Request.Prepare.{Outgoing, Prepared, prepare}

-- The new key of the row of the call, the digest of the body, and the times.
pub record Moment : Type 0 where
  pub call_id : ℕ
  pub request_hash : ℕ
  pub now : ℕ
  pub elapsed : ℕ
  pub ended_at : ℕ

abbrev pub or_no_key : Option ℕ → ℕ
or_no_key none = 0
or_no_key (some key) = key

abbrev pub user_caller : ℕ → List String → Caller
user_caller user allowed_models = record { user_id = some user; allowed_models = allowed_models }

abbrev pub admission_of : Request → Caller → Moment → Admission
admission_of r caller m = record {
  call_id = m.call_id;
  user_id = caller.user_id;
  idempotency_key = or_no_key r.idempotency_key;
  request_hash = m.request_hash;
  now = m.now;
}

-- `schema_requested` is the test of `schema_probe` of the format that is sent.
abbrev pub call_of : Request → Caller → Moment → Prepared → Call
call_of r caller m p = record {
  call_id = m.call_id;
  user_id = caller.user_id;
  protocol = r.protocol;
  schema_requested =
      is_one_of ("json_schema" ∷ [])
        (find_field "type" (output_format (object p.body.fields) r.protocol));
  capability_error = p.capability_error;
  elapsed = m.elapsed;
  ended_at = m.ended_at;
}

module _ (validate_call_parameters : Fields → Result ModelParameters)
    (destination : String → Result String) (secret : ℕ → Result ℕ) (size : Outgoing → ℕ)
    (digest : RevisionSource → ℕ) (catalog : Catalog) where
  unfoldable pub completions : Request → ℕ → List String → Moment → Exchange → Exec Scope Reply
  completions r user allowed m x = do
    let caller = user_caller user allowed
    p ← lift (prepare validate_call_parameters destination secret size digest r caller catalog)
    on_db (admit (admission_of r caller m))
    handle (call_of r caller m p) x

  -- A user's request costs nothing or ends. From sound accounts, journal and ledger, it either is
  -- refused with an exception, and then no balance, no ledger entry and no row of the journal has
  -- changed, or its call has ended, with an outcome other than "running" and with no open row in the
  -- journal. As for the end of a call, the exchange is one without a fault that no handler names,
  -- without a list or a dictionary where the code looks a value up in a set, and without a reply to
  -- be relayed that JSONResponse refuses.
  pub completions-IsEnded :
      (r : Request) (user : ℕ) (allowed : List String) (m : Moment) (x : Exchange) (s : Scope)
      → IsSound s.db
      → s.dispatched ≡ false
      → ((p : Prepared) → is_readable (call_of r (user_caller user allowed) m p) x ≡ true)
      → ((e : Error) × ((completions r user allowed m x s).0 ≡ err e)
          × SameCredits s.db (completions r user allowed m x s).1.db)
        ⊎ ((p : Prepared) × IsEnded
              (call_of r (user_caller user allowed) m p)
              (completions r user allowed m x s).1.db)
  unfolding completions on_db ◌>>=◌
  completions-IsEnded r user allowed m x s sound idle readable =
      elim (Result-cases (
        prepare validate_call_parameters destination secret size digest r (user_caller user allowed)
          catalog)) [
            | inr (e, refused) ↦
                rw refused
                  (inl (e, refl, record { accounts = refl; ledger = refl; reservations = refl }))
            | inl (p, prepared) ↦
                elim (Result-cases (admit (admission_of r (user_caller user allowed) m) s.db).0) [
                  | inr (e, refused) ↦
                      rw (prepared, refused)
                        (inl (
                          e,
                          refl,
                          admit-SameCredits (admission_of r (user_caller user allowed) m) s.db e
                              refused,
                        ))
                  | inl (_, entered) ↦
                      rw (prepared, entered)
                        (inr (
                          p,
                          handle-IsEnded (call_of r (user_caller user allowed) m p) x
                              (record s {
                                db = (admit (admission_of r (user_caller user allowed) m) s.db).1;
                              })
                              (admit-IsReady (admission_of r (user_caller user allowed) m)
                                (call_of r (user_caller user allowed) m p) s.db refl refl sound
                                entered)
                              idle (readable p),
                        ))
                ]
          ]
