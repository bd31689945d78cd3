-- ===== src/Db/Rows.antt =====
-- The rows of the tables, and the state that the API and the worker share.
use safe_cloud.Prelude.{ℕ, String, List, [], ◌∷◌, Option, Bool, true, false}
use safe_cloud.Policy.{ScanStatus, Reason}
use safe_cloud.Exec.{Exec, db_error, pure, raise, gets, modify, ◌>>◌}

-- What the `INSERT` of `create_scan` writes.
pub record ScanInfo : Type 0 where
  pub request_id : String
  pub username : String
  pub nextcloud_host : String
  pub nextcloud_file_path : String
  pub relative_path : String
  pub filename : String
  pub original_size : ℕ
  pub sha256 : String
  pub user_id : Option String
  pub email : Option String
  pub department : Option String
  pub source_application : String
  pub api_client_id : Option String
  pub mime_type : Option String
  pub md5 : Option String
  pub original_filename : Option String
  pub extension : Option String
  pub scanner_profile_id : Option String
  pub transfer_mode : String
  pub parent_scan_id : Option String

-- Why Ansible gave no result: `AnsibleExecutionError`, with what its message is built from.
pub data AnsibleError : Type 0 where
  timed_out no_result_file not_an_object : AnsibleError
  binary_not_found unparsable : String → AnsibleError
  exit_code : ℕ → AnsibleError

-- A value of the column `error_message`.
pub data ErrorMessage : Type 0 where
  text : String → ErrorMessage
  source_deletion_failed : AnsibleError → ErrorMessage

-- A row of `scans`: what was inserted, and the columns that `update_scan` may write. `sha256`,
-- `mime_type` and `md5` are among both, and the row has their current values.
pub record Scan : Type 0 where
  pub id : String
  pub info : ScanInfo
  pub created_at : ℕ
  pub status : ScanStatus
  pub allowed : Option Bool
  pub threat : Option String
  pub scanner : Option String
  pub scanner_version : Option String
  pub duration_ms : Option ℕ
  pub error_message : Option ErrorMessage
  pub staging_path : Option String
  pub transfer_status : String
  pub scan_status_detail : String
  pub cleanup_status : String
  pub started_at : Option ℕ
  pub completed_at : Option ℕ
  pub sha256 : String
  pub mime_type : Option String
  pub md5 : Option String
  pub encrypted : Option Bool
  pub encryption_type : Option String
  pub encrypted_policy_applied : Option String
  pub needs_review : Bool
  pub aggregation_policy_applied : Option String
  pub final_policy_reason : Option Reason

pub record ScanResult : Type 0 where
  pub scan_id : String
  pub scanner_id : Option String
  pub scanner_name : String
  pub scanner_version : Option String
  pub status : String
  pub threat : Option String
  pub raw_output : Option String

-- A row of `scanners`, and the `ScannerConfig` that `from_row` copies from it; the CPU limit is
-- in hundredths, as in the column's NUMERIC(4,2).
pub record ScannerConfig : Type 0 where
  pub id : String
  pub name : String
  pub slug : String
  pub enabled : Bool
  pub docker_image : String
  pub scan_command : List String
  pub env_vars : List (String × String)
  pub result_parser : String
  pub timeout_seconds : ℕ
  pub cpu_limit : ℕ
  pub memory_limit_mb : ℕ

pub record Profile : Type 0 where
  pub id : String
  pub name : String
  pub slug : String
  pub enabled : Bool
  pub aggregation_policy : String
  pub is_default : Bool

pub record Membership : Type 0 where
  pub profile_id : String
  pub scanner_id : String
  pub order_index : ℕ

-- A call of `run_playbook`: the run's name, the `--limit` and the extra variables of the three
-- playbooks.
pub data PlaybookRun : Type 0 where
  fetch_run :
      (run_id limit file_path expected_sha256 : String)
      → (expected_size max_file_size : ℕ) → (allowed_root staging_dir : String) → PlaybookRun
  scan_run :
      (run_id limit staging_dir source_filename expected_sha256 : String)
      → List ScannerConfig
      → PlaybookRun
  delete_run : (run_id limit file_path expected_sha256 allowed_root : String) → PlaybookRun

pub record World : Type 0 where
  pub scans : List Scan
  pub results : List ScanResult
  pub profiles : List Profile
  pub memberships : List Membership
  pub scanners : List ScannerConfig
  pub encrypted_policies : List (String × String)
  pub paths : List String
  pub runs : List PlaybookRun
  pub faults : List Bool
  pub clock : ℕ

abbrev pub Db : Type 0 → Type 0
Db A = Exec World A

-- `pool.connection()`: raises if the next fault says so.
unfoldable pub connect : Db (Unit {0})
connect w = elim w.faults [
  | [] ↦ pure tt w
  | true ∷ rest ↦ raise db_error (record w { faults = rest })
  | false ∷ rest ↦ pure tt (record w { faults = rest })
]

unfoldable pub query : {A : Type 0} → (World → A) → Db A
query f = do connect; gets f

unfoldable pub execute : (World → World) → Db (Unit {0})
execute f = do connect; modify f
