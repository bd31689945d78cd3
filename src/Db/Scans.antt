-- ===== src/Db/Scans.antt =====
-- The tables `scans` and `scan_results`.
use safe_cloud.Prelude.{
  ℕ, String, List, [], ◌∷◌, ◌++◌, Option, none, some, Bool, true, false, ◌==◌, ◌&&◌, ◌||◌, ltb,
  if◌then◌else◌, ◌+◌, is_empty, select,
}
use safe_cloud.Policy.{ScanStatus, received, validating, transferring, scanning, Reason}
use safe_cloud.Exec.{value_error, db_error, pure, raise, gets, modify, ◌>>=◌, ◌>>◌}
use safe_cloud.Db.Rows.{
  ScanInfo, ErrorMessage, Scan, ScanResult, World, Db, connect, query, execute,
}

-- The keyword arguments of `update_scan`: the names of `_UPDATABLE_COLUMNS`, and any other.
pub data Assignment : Type 0 where
  set_status : ScanStatus → Assignment
  set_allowed : Bool → Assignment
  set_threat : Option String → Assignment
  set_scanner set_scanner_version : String → Assignment
  set_duration_ms : Option ℕ → Assignment
  set_error_message : ErrorMessage → Assignment
  set_staging_path set_transfer_status set_scan_status_detail set_cleanup_status :
      String → Assignment
  set_started_at set_completed_at : ℕ → Assignment
  set_sha256 set_mime_type set_md5 : String → Assignment
  set_encrypted : Option Bool → Assignment
  set_encryption_type : Option String → Assignment
  set_encrypted_policy_applied : String → Assignment
  set_needs_review : Bool → Assignment
  set_aggregation_policy_applied : String → Assignment
  set_final_policy_reason : Reason → Assignment
  set_unknown : String → Assignment

unfoldable pub assign : Assignment → Scan → Scan
assign (set_status v) r = record r { status = v }
assign (set_allowed v) r = record r { allowed = some v }
assign (set_threat v) r = record r { threat = v }
assign (set_scanner v) r = record r { scanner = some v }
assign (set_scanner_version v) r = record r { scanner_version = some v }
assign (set_duration_ms v) r = record r { duration_ms = v }
assign (set_error_message v) r = record r { error_message = some v }
assign (set_staging_path v) r = record r { staging_path = some v }
assign (set_transfer_status v) r = record r { transfer_status = v }
assign (set_scan_status_detail v) r = record r { scan_status_detail = v }
assign (set_cleanup_status v) r = record r { cleanup_status = v }
assign (set_started_at v) r = record r { started_at = some v }
assign (set_completed_at v) r = record r { completed_at = some v }
assign (set_sha256 v) r = record r { sha256 = v }
assign (set_mime_type v) r = record r { mime_type = some v }
assign (set_md5 v) r = record r { md5 = some v }
assign (set_encrypted v) r = record r { encrypted = v }
assign (set_encryption_type v) r = record r { encryption_type = v }
assign (set_encrypted_policy_applied v) r = record r { encrypted_policy_applied = some v }
assign (set_needs_review v) r = record r { needs_review = v }
assign (set_aggregation_policy_applied v) r = record r { aggregation_policy_applied = some v }
assign (set_final_policy_reason v) r = record r { final_policy_reason = some v }
assign (set_unknown name) r = r

unfoldable pub assign_all : List Assignment → Scan → Scan
assign_all [] r = r
assign_all (a ∷ as') r = assign_all as' (assign a r)

unfoldable pub is_unknown : Assignment → Bool
is_unknown (set_unknown name) = true
is_unknown _ = false

unfoldable pub has_unknown : List Assignment → Bool
has_unknown [] = false
has_unknown (a ∷ as') = is_unknown a || has_unknown as'

-- `UPDATE scans SET … WHERE id = …`
unfoldable pub update_rows : String → (Scan → Scan) → List Scan → List Scan
update_rows id f [] = []
update_rows id f (r ∷ rs) = (if r.id == id then f r else r) ∷ update_rows id f rs

unfoldable pub update_scan : String → List Assignment → Db (Unit {0})
update_scan scan_id fields =
    if has_unknown fields
    then raise value_error
    else if is_empty fields
    then pure tt
    else execute (λ w. record w { scans = update_rows scan_id (assign_all fields) w.scans })

unfoldable pub find_scan : String → List Scan → Option Scan
find_scan id [] = none
find_scan id (r ∷ rs) = let rest = find_scan id rs in if r.id == id then some r else rest

unfoldable pub get_scan : String → Db (Option Scan)
get_scan scan_id = query (λ w. find_scan scan_id w.scans)

-- The row that `create_scan` inserts: the columns given, the others at their defaults.
unfoldable pub new_scan : String → ScanInfo → ℕ → Scan
new_scan id info created_at = record {
  id = id;
  info = info;
  created_at = created_at;
  status = received;
  allowed = none;
  threat = none;
  scanner = none;
  scanner_version = none;
  duration_ms = none;
  error_message = none;
  staging_path = none;
  transfer_status = "PENDING";
  scan_status_detail = "PENDING";
  cleanup_status = "PENDING";
  started_at = none;
  completed_at = none;
  sha256 = info.sha256;
  mime_type = info.mime_type;
  md5 = info.md5;
  encrypted = none;
  encryption_type = none;
  encrypted_policy_applied = none;
  needs_review = false;
  aggregation_policy_applied = none;
  final_policy_reason = none;
}

-- The database draws the id, which is the first argument here.
unfoldable pub create_scan : String → ScanInfo → Db Scan
create_scan id info = do
  now ← gets (λ w. w.clock)
  execute (λ w. record w { scans = w.scans ++ new_scan id info now ∷ [] })
  pure (new_scan id info now)

abbrev pub is_received : ScanStatus → Bool
is_received received = true
is_received _ = false

abbrev pub is_in_progress : ScanStatus → Bool
is_in_progress validating = true
is_in_progress transferring = true
is_in_progress scanning = true
is_in_progress _ = false

abbrev older : Option Scan → Scan → Option Scan
older none r = some r
older (some best) r = if ltb r.created_at best.created_at then some r else some best

-- `WHERE status = 'RECEIVED' ORDER BY created_at LIMIT 1`; of rows of one time, the first.
unfoldable pub oldest_received : Option Scan → List Scan → Option Scan
oldest_received best [] = best
oldest_received best (r ∷ rs) =
    oldest_received (if is_received r.status then older best r else best) rs

unfoldable pub claim_row : ℕ → Scan → Scan
claim_row now r = record r { status = validating; started_at = some now }

abbrev pub claim_in : World → Option Scan → World
claim_in w none = w
claim_in w (some r) = record w { scans = update_rows r.id (claim_row w.clock) w.scans }

abbrev pub claimed : World → Option Scan → Option Scan
claimed w none = none
claimed w (some r) = some (claim_row w.clock r)

-- One transaction: the row that is found is updated and returned. `FOR UPDATE SKIP LOCKED` has two
-- claims at once take different rows, as if they came one after the other.
unfoldable pub claim_next_scan : Db (Option Scan)
claim_next_scan = do
  connect
  w ← gets (λ w. w)
  modify (λ v. claim_in v (oldest_received none v.scans))
  pure (claimed w (oldest_received none w.scans))

abbrev is_stale : ℕ → ℕ → Scan → Bool
is_stale now seconds r =
    is_in_progress r.status && elim r.started_at [ none ↦ false | some t ↦ ltb (t + seconds) now ]

unfoldable pub find_stale_processing_scans : ℕ → Db (List Scan)
find_stale_processing_scans seconds = query (λ w. select (is_stale w.clock seconds) w.scans)

abbrev pub is_result_status : String → Bool
is_result_status s = s == "CLEAN" || s == "INFECTED" || s == "ERROR"

unfoldable pub statuses_ok : List ScanResult → Bool
statuses_ok [] = true
statuses_ok (r ∷ rs) = is_result_status r.status && statuses_ok rs

unfoldable pub insert_results : List ScanResult → Db (Unit {0})
insert_results results = modify (λ w. record w { results = w.results ++ results })

-- The inserts are one transaction, and the table's CHECK on `status` refuses any other text.
unfoldable pub create_scan_results : List ScanResult → Db (Unit {0})
create_scan_results results =
    if is_empty results
    then pure tt
    else (connect >> (if statuses_ok results then insert_results results else raise db_error))
