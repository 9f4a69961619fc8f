-- ===== src/Credits/Samples.antt =====
-- The small database of the tests: user 1 has 100 tokens, call 7 is open and direct, and call 8
-- holds 30 tokens.
use opsark_admin.Common.{false, none, some, [], ◌∷◌, arith}
use opsark_admin.Common.Int.{ℤ, pos, ◌+ℤ◌, ◌-ℤ◌}
use opsark_admin.Models.{
  Db, CreditAccount, CreditLedger, OperationKey, LedgerKind, Actor, ModelReservation, ModelCall,
  pending_usage, reserved, CallStatus,
}
use opsark_admin.Credits.Settle.{Settlement}
use opsark_admin.Credits.Balance.{IsBalanced}
use opsark_admin.Credits.Sound.{IsSound}

abbrev pub account : CreditAccount
account = record { available = pos 100; reserved = pos 30; revision = 2 }

abbrev pub grant : CreditLedger
grant = record {
  user_id = 1;
  operation_key = OperationKey.registration;
  kind = LedgerKind.initial_grant;
  delta = pos 130;
  reserved_delta = pos 0;
  available_after = pos 130;
  reserved_after = pos 0;
  actor_id = Actor.registration;
  reason = "grant";
  created_at = 10;
}

abbrev pub hold : CreditLedger
hold = record {
  user_id = 1;
  operation_key = OperationKey.reserve 8;
  kind = LedgerKind.reserve;
  delta = pos 0 -ℤ pos 30;
  reserved_delta = pos 30;
  available_after = pos 100;
  reserved_after = pos 30;
  actor_id = Actor.user 1;
  reason = "hold";
  created_at = 20;
}

abbrev pub direct_row : ModelReservation
direct_row = record {
  user_id = 1;
  idempotency_key = 5;
  request_hash = 9;
  amount = pos 0;
  actual = none;
  state = pending_usage;
  created_at = 30;
}

abbrev pub held_row : ModelReservation
held_row = record direct_row { idempotency_key = 6; amount = pos 30; state = reserved }

abbrev pub direct_call : ModelCall
direct_call = record {
  user_id = some 1;
  started_at = 30;
  duration_ms = none;
  status = CallStatus.succeeded;
  http_status = some 200;
  input_tokens = some (pos 20);
  output_tokens = some (pos 5);
  error_code = none;
}

abbrev pub db : Db
db = record {
  accounts = (1, account) ∷ [];
  ledger = grant ∷ hold ∷ [];
  reservations = (7, direct_row) ∷ (8, held_row) ∷ [];
  calls = (7, direct_call) ∷ [];
  users = [];
  sessions = [];
  policy = none;
}

pub db-IsSound : IsSound db
unfolding ◌+ℤ◌ ◌-ℤ◌
db-IsSound = record {
  nonneg = λ u. ground arith;
  holds = λ u. ground arith;
  amounts = omega arith;
  rows = λ id. ground arith;
}

pub db-IsBalanced : IsBalanced db
unfolding ◌+ℤ◌ ◌-ℤ◌
db-IsBalanced = record {
  available_sum = λ u. ground arith;
  reserved_sum = λ u. ground arith;
  nonneg = λ u. ground arith;
}

abbrev pub usage : ℤ → Settlement
usage n = record {
  actual = some n;
  no_dispatch = false;
  actor_id = Actor.gateway;
  reason = "模型用量结算";
  allow_overage = false;
}
