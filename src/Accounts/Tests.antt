-- ===== src/Accounts/Tests.antt =====
-- app/accounts.py at a small database: user 1 has 100 tokens, call 7 is open and direct, and call 8
-- holds 30 tokens.
use opsark_admin.Common.{◌≡◌, refl, some}
use opsark_admin.Credits.{reconciliation_metadata}
use opsark_admin.Credits.Samples.{direct_row, direct_call}
use opsark_admin.Accounts.{status_of}
use opsark_admin.Accounts.Anomalies.{
  is_listed, usage_complete, anomaly_of_call, anomaly_code, settlement_incomplete,
  is_listed-reconciliation_metadata, HasUsage, anomaly_code-HasUsage,
}
use opsark_admin.Common.{[], ◌∷◌, List}
use opsark_admin.Common.Int.{pos, neg}
use opsark_admin.Models.{Actor, ModelCall}
use opsark_admin.Credits.Samples.{usage}
use opsark_admin.Accounts.History.{Operation}

-- A day at the service.
abbrev requests : List Operation
requests =
    Operation.adjust 1 (neg (pos 50)) "correction" 3 2 40
    ∷ Operation.settle 7 (usage (pos 25)) 50
    ∷ Operation.reserve 1 9 11 12 (pos 10) 60
    ∷ Operation.begin_direct_call 1 10 11 12 70
    ∷ Operation.reconcile 8 (pos 35) "overage" 2 80
    ∷ Operation.refresh (Actor.staff 2) 2000000
    ∷ []

is_listed-reconciliation_metadata_example :
    is_listed 40 direct_row (some direct_call)
    ≡ (reconciliation_metadata direct_row (status_of (some direct_call)) 40).reconcile_allowed
is_listed-reconciliation_metadata_example =
    is_listed-reconciliation_metadata 40 direct_row (some direct_call)

shown_incomplete : anomaly_code 40 direct_row (some direct_call) ≡ settlement_incomplete
unfolding anomaly_code anomaly_of_call usage_complete
shown_incomplete = refl

anomaly_code-HasUsage_example : (c : ModelCall) × (some direct_call ≡ some c) × HasUsage c
anomaly_code-HasUsage_example =
    anomaly_code-HasUsage 40 direct_row (some direct_call) shown_incomplete
