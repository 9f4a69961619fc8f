-- ===== src/Credits/Tests.antt =====
-- app/credits.py at the small database of Credits/Samples.antt.
use opsark_admin.Common.{◌≡◌, refl, arith}
use opsark_admin.Common.Int.{pos, ◌+ℤ◌, ◌-ℤ◌}
use opsark_admin.Errors.{ok}
use opsark_admin.Exec.{◌>>=◌}
use opsark_admin.Credits.{
  begin_direct_call, reserve, new_reservation, lock_account, reject_duplicate_request, find_request,
  balance, has_unresolved, add_reservation, write_reservations, change, covers, apply_change,
  has_entry,
}
use opsark_admin.Common.{if◌then◌else◌}
use opsark_admin.Common.Table.{get}
use opsark_admin.Errors.{err}
use opsark_admin.Models.{needs_reconciliation}
use opsark_admin.Credits.{reconciliation_metadata}
use opsark_admin.Credits.Refresh.{is_candidate}
use opsark_admin.Credits.Duplicates.{duplicate_error, begin_direct_call-begin_direct_call}
use opsark_admin.Credits.Review.{joined_status, is_candidate-reconciliation_metadata}
use opsark_admin.Credits.Settle.{settle}
use opsark_admin.Credits.Settlement.Success.{settle_succeeds}
use opsark_admin.Credits.Settlement.Charge.{IsCharged, settle-IsCharged, settle-settle}
use opsark_admin.Credits.Refresh.{Tally, refresh_reconciliations}
use opsark_admin.Credits.Repair.{refresh_succeeds}
use opsark_admin.Models.{Actor}
use opsark_admin.Credits.Samples.{db, db-IsSound, direct_row, account, usage}

reserve_40 : (reserve 1 9 11 12 (pos 40) 60 db).0 ≡ ok tt
unfolding reserve lock_account reject_duplicate_request find_request balance has_unresolved
    add_reservation write_reservations change covers apply_change has_entry ◌>>=◌ ◌+ℤ◌ ◌-ℤ◌
    new_reservation
reserve_40 = refl

settle_succeeds_example : (settle 7 (usage (pos 500)) 50 db).0 ≡ ok tt
settle_succeeds_example =
    settle_succeeds 7 direct_row db db-IsSound refl (usage (pos 500)) refl 50 refl

settle-IsCharged_example :
    IsCharged 7 direct_row (usage (pos 25)) (pos 25) account db (settle 7 (usage (pos 25)) 50 db).1
settle-IsCharged_example =
    settle-IsCharged 7 direct_row db db-IsSound refl (usage (pos 25)) 50 (pos 25) account refl refl
      refl refl (omega arith) (omega arith)

settle-settle_example :
    settle 7 (usage (pos 3)) 70 (settle 7 (usage (pos 25)) 50 db).1
    ≡ (ok tt, (settle 7 (usage (pos 25)) 50 db).1)
settle-settle_example =
    settle-settle 7 direct_row db db-IsSound refl (usage (pos 25)) 50 (pos 25) account refl refl
      refl refl (omega arith) (omega arith) (usage (pos 3)) 70 refl

admit_direct : (begin_direct_call 1 9 11 12 60 db).0 ≡ ok tt
unfolding begin_direct_call lock_account reject_duplicate_request find_request balance
    add_reservation write_reservations ◌>>=◌ new_reservation
admit_direct = refl

begin_direct_call-begin_direct_call_example :
    begin_direct_call 1 10 11 13 70 (begin_direct_call 1 9 11 12 60 db).1
    ≡ (err (duplicate_error 12 13), (begin_direct_call 1 9 11 12 60 db).1)
begin_direct_call-begin_direct_call_example =
    begin_direct_call-begin_direct_call 1 9 11 12 60 db admit_direct 10 13 70

is_candidate-reconciliation_metadata_example :
    (is_candidate 40 db.calls (7, direct_row)
      ≡ (reconciliation_metadata direct_row (joined_status (get 7 db.calls)) 40).reconcile_allowed)
    × ((reconciliation_metadata direct_row (joined_status (get 7 db.calls)) 40).effective_state ≡ (
        if is_candidate 40 db.calls (7, direct_row)
        then needs_reconciliation
        else direct_row.state))
is_candidate-reconciliation_metadata_example =
    is_candidate-reconciliation_metadata 40 7 direct_row db.calls refl

refresh_succeeds_example :
    (tally : Tally) × ((refresh_reconciliations Actor.gateway 60 db).0 ≡ ok tally)
refresh_succeeds_example = refresh_succeeds Actor.gateway 60 db db-IsSound (refl, (refl, tt))
