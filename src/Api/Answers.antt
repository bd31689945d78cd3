-- ===== src/Api/Answers.antt =====
-- What the answers about a scan say, of both APIs: api/main.py's `_scan_status_response` and
-- api/routes_upload.py's `_build_upload_response`.
use safe_cloud.Prelude.{some, true, false, ◌≡◌, ◌⊎◌, ◌↔◌, arith}
use safe_cloud.Policy.{clean, infected, error, cleanup_failed}
use safe_cloud.Db.{Scan}
use safe_cloud.Api.{scan_status_response}

-- The status endpoint of the Nextcloud API answers that a file is allowed exactly if its row's status is CLEAN, that it is not allowed exactly if the status is INFECTED, ERROR or CLEANUP_FAILED, and says neither in every other status, which ENCRYPTED is among: a file that an ALLOW policy let through is never reported as allowed.
pub scan_status_response-allowed_iff :
    (row : Scan)
    → (((scan_status_response row).allowed ≡ some true) ↔ (row.status ≡ clean))
      × (((scan_status_response row).allowed ≡ some false)
          ↔ ((row.status ≡ infected) ⊎ (row.status ≡ error) ⊎ (row.status ≡ cleanup_failed)))
unfolding scan_status_response
scan_status_response-allowed_iff row = ground arith
