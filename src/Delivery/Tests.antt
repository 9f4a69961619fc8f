-- ===== src/Delivery/Tests.antt =====
-- app/model_delivery.py at an open call that succeeded.
use opsark_admin.Common.{◌≡◌, false, some}
use opsark_admin.Credits.Samples.{direct_row, direct_call}
use opsark_admin.Delivery.{is_there, request_status, duplicate_details, request_status_lem}

request_status_lem_example :
    (is_there (request_status direct_row direct_call).provider_status
      ≡ (request_status direct_row direct_call).from_upstream)
    × ((duplicate_details direct_row (some direct_call)).from_upstream ≡ false)
    × ((duplicate_details direct_row (some direct_call)).gateway_status ≡ some 409)
    × (is_there (duplicate_details direct_row (some direct_call)).provider_status
        ≡ (request_status direct_row direct_call).from_upstream)
request_status_lem_example = request_status_lem direct_row direct_call
