-- ===== src/Gateway/Slots.antt =====
-- app/gateway.py, `completions`: the slots of the gateway, which bound the calls that run at a time,
-- and the agreement of balances, ledger and journal.
use opsark_admin.Common.{
  ℕ, ◌≡◌, refl, ◌+◌, Bool, false, arith, ◌==◌, if◌then◌else◌, Bool-cases, inl, inr, Option, some,
  none, ◌∙◌,
}
use opsark_admin.Common.Table.{Table}
use opsark_admin.Errors.{Code}
use opsark_admin.Exec.{Exec, catch, modify, ◌>>=◌}
use opsark_admin.Exec.Keeps.{Keeps, keeps_rules, Keeps-modify, Keeps-transaction, catch_lem}
use opsark_admin.Models.{Db, CallStatus, CallError, ModelCall}
use opsark_admin.Credits.{write_calls}
use opsark_admin.Credits.Settle.{Settlement, settle}
use opsark_admin.Credits.Sound.{IsSound}
use opsark_admin.Credits.Settlement.Whole.{settle-IsSound}
use opsark_admin.Gateway.Usage.{Pending}
use opsark_admin.Gateway.Exchange.{
  Call, Scope, Exchange, no_slot, unbuilt, sent, on_db, settle_usage, record_outcome, finish,
  acquire, take_slot, dispatch, attempt_unless, attempt, on_failure, release, handle, Reply,
}
use opsark_admin.Gateway.Kept.{sent-Keeps, reject-Keeps, on_failure-Keeps, handled-Keeps}

-- The slots that are free and the one that the handler holds.
abbrev pub slots : Scope → ℕ
slots scope = scope.free_slots + (if scope.acquired then 1 else 0)

pub finish-slots :
    (n : ℕ) (c : Call) (status : CallStatus) (code : Option CallError) (http : Option ℕ)
    → Keeps (λ s. slots s ≡ n) (finish c status code http)
unfolding finish on_db ◌>>=◌
finish-slots n c status code http = record { at = λ s h. h }

module _ (c : Call) (s : Scope) (fresh : s.acquired ≡ false) where
  taken-slots : (s.free_slots == 0) ≡ false → slots (take_slot s) ≡ slots s
  unfolding take_slot
  taken-slots free = ground arith

  dispatch-slots : (x : Exchange) → slots (dispatch c x s).1 ≡ slots s
  unfolding dispatch acquire ◌>>=◌
  dispatch-slots (no_slot fault) = refl
  dispatch-slots (unbuilt fault) = elim (Bool-cases (s.free_slots == 0)) [
    | inl busy ↦ rw busy refl
    | inr free ↦ rw free (taken-slots free)
  ]
  dispatch-slots (sent arrival) = elim (Bool-cases (s.free_slots == 0)) [
    | inl busy ↦ rw busy refl
    | inr free ↦ rw free (
        (sent-Keeps (finish-slots (slots s)) (λ t d r p h. h) c arrival).at (take_slot s)
          (taken-slots free))
  ]

  attempt_unless-slots :
      (refusal : Option (ℕ × Code)) (x : Exchange)
      → slots (attempt_unless refusal c x s).1 ≡ slots s
  unfolding attempt_unless
  attempt_unless-slots none x = dispatch-slots x
  attempt_unless-slots (some (status, code)) x =
      (reject-Keeps (finish-slots (slots s)) (λ t d r p h. h) c status code).at s refl

  attempt-slots : (x : Exchange) → slots (attempt c x s).1 ≡ slots s
  unfolding attempt
  attempt-slots x = attempt_unless-slots c.capability_error x

pub release-slots : (s : Scope) → (release s).free_slots ≡ slots s
unfolding release
release-slots s = ground arith

caught-slots :
    (m : Exec Scope Reply) (c : Call) (s : Scope)
    → slots (m s).1 ≡ slots s
    → slots (catch m (on_failure c) s).1 ≡ slots s
caught-slots m c s h =
    catch_lem {P = λ t. slots t ≡ slots s} m (on_failure c) s h
      (λ e. on_failure-Keeps (finish-slots (slots s)) (λ t d r p k. k) c e)

-- Whatever the provider, the network and the client do, a handler that starts without a slot gives
-- back exactly the slot that it took, if it took one: the free slots are as many as before, on
-- every path, the errors included.
pub handle-free_slots :
    (c : Call) (x : Exchange) (s : Scope)
    → s.acquired ≡ false
    → (handle c x s).1.free_slots ≡ s.free_slots
unfolding handle
handle-free_slots c x s fresh =
    release-slots _ ∙ caught-slots (attempt c x) c s (attempt-slots c s fresh x) ∙ (ground arith)

pub release-db : (s : Scope) → (release s).db ≡ s.db
unfolding release
release-db s = ground arith

pub write_calls-IsSound : (f : Table ModelCall → Table ModelCall) → Keeps IsSound (write_calls f)
unfolding write_calls ◌>>=◌
write_calls-IsSound f = record {
  at = λ db h. record { nonneg = h.nonneg; holds = h.holds; amounts = h.amounts; rows = h.rows };
}

module _ {P : Db → Type 0}
    (keeps_calls : (f : Table ModelCall → Table ModelCall) → Keeps P (write_calls f))
    (keeps_settle : (id : ℕ) (s : Settlement) (now : ℕ) → Keeps P (settle id s now)) where
  settle_usage-Keeps :
      (user : Option ℕ) (c : Call) (dispatched : Bool) → Keeps P (settle_usage user c dispatched)
  unfolding settle_usage
  settle_usage-Keeps none c dispatched = search keeps_rules
  settle_usage-Keeps (some user) c dispatched = search (keeps_rules, keeps_settle)

  pub record_outcome-Keeps :
      (c : Call) (pending : Pending) (dispatched : Bool) (status : CallStatus)
      (code : Option CallError) (http : Option ℕ)
      → Keeps P (record_outcome c pending dispatched status code http)
  unfolding record_outcome
  record_outcome-Keeps c pending dispatched status code http =
      search (keeps_rules, keeps_calls, settle_usage-Keeps)

  finish-Keeps :
      (c : Call) (status : CallStatus) (code : Option CallError) (http : Option ℕ)
      → Keeps (λ s. P s.db) (finish c status code http)
  unfolding finish on_db ◌>>=◌
  finish-Keeps c status code http = record {
    at = λ s h.
        (Keeps-transaction _ (record_outcome-Keeps c s.pending s.dispatched status code http)).at
          s.db h;
  }

  taking-Keeps : Keeps (λ s. P s.db) (modify take_slot)
  unfolding take_slot
  taking-Keeps = Keeps-modify _ (λ s h. h)

  acquire-Keeps : Keeps (λ s. P s.db) acquire
  unfolding acquire
  acquire-Keeps = search (keeps_rules, taking-Keeps)

  pub handle-Keeps : (c : Call) (x : Exchange) (s : Scope) → P s.db → P (handle c x s).1.db
  unfolding handle
  handle-Keeps c x s h =
      rw release-db ((handled-Keeps finish-Keeps (λ t d r p k. k) acquire-Keeps c x).at s h)

-- From sound accounts, journal and ledger, a call leads to sound ones, whatever the provider, the
-- network and the client do.
pub handle-IsSound :
    (c : Call) (x : Exchange) (s : Scope) → IsSound s.db → IsSound (handle c x s).1.db
handle-IsSound =
    handle-Keeps write_calls-IsSound (λ id s now. record { at = settle-IsSound id s now })
