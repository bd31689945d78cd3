-- ===== src/Examples.antt =====
-- Concrete inputs at which the theorems' hypotheses hold: jobs, claims, requests and answers.
mod Checks
mod Forms
mod Flows
use safe_cloud.Prelude.{
  ◌==◌, ℕ, String, List, [], ◌∷◌, Option, none, some, Bool, true, false, ◌≡◌, ◌≢◌, ◌⊎◌, ◌↔◌, ◌≤◌,
  ◌<◌, refl, inl, All, Any, arith, has_prefix, rstrip_slash, contains, lookup, starts_with, length,
  codes, eq_iff, if◌then◌else◌, ◌++◌, ◌+++◌,
}
use safe_cloud.Policy.{
  ScannerOutcome, ScanStatus, received, encrypted, clean, infected, error, cleanup_failed,
  aggregate_scan_results, by_policy, first_success, all_must_pass, apply_encrypted_policy,
  resolve_encrypted_policy,
}
use safe_cloud.Policy.Aggregation.{Permits, SomeStatus, aggregate_scan_results-allowed_iff}
use safe_cloud.Policy.Order.{
  IsKnown, IsVerdict, aggregate_scan_results-allowed_needs_clean, all_must_pass_strictest,
  aggregate_scan_results-IsVerdict, unknown_statuses_allowed,
}
use safe_cloud.Policy.Encrypted.{IsUnset, apply_encrypted_policy_exact, encrypted-allowed_iff}
use safe_cloud.Detection.{
  FileContent, no_bad_entry, PdfOutcome, EncryptionDetection, found, detect_encryption, by_header,
}
use safe_cloud.Detection.Verdicts.{
  IsPlain, IsCategory, detect_encryption-false_sound, detect_encryption-IsCategory,
}
use safe_cloud.Db.{ScanInfo, Scan, ScannerConfig, Profile, World, new_scan, claim_row}
use safe_cloud.Db.ScanLaws.{Row, OnlyAt}
use safe_cloud.Db.Claims.{IsWaiting, IsFirst, started, claim_next_scan-IsFirst}
use safe_cloud.Scanner.{NextcloudHost, Settings, RawResult, PlaybookResult, exited, object, Env}
use safe_cloud.Worker.{process_one}
use safe_cloud.Scanner.{
  process_scan, resolve_profile, profile_named, with_profile, with_scanners, run_job, transfer,
  inspect, exists, on_detection, scan_file, run_scan_stage, run_and_clean, run_playbook,
  playbook_of, answered, read_result, cleanup_run, after_scan, check_result, hash_matches, conclude,
  write_verdict, now, scanner_names, delete_source, delete_if, cleanup_verdict, cleanup_by,
  cleanup_staging, remove_staging, remove_tree, id_of_slug, join_path,
}
use safe_cloud.Db.{
  claim_next_scan, oldest_received, get_default_profile, query, connect, find_profile,
  get_profile_scanners, profile_scanners, scanners_of, update_scan, has_unknown, is_unknown,
  execute, update_rows, assign_all, assign, create_scan_results, statuses_ok, insert_results,
}
use safe_cloud.Exec.{◌>>=◌, pure, raise, gets, modify, try_except}
use safe_cloud.Prelude.{lower, codes_eq}
use safe_cloud.FailClosed.Evidence.{outcomes_of, IsVouched}
use safe_cloud.FailClosed.Job.{process_one-IsVouched, process_one-answers}
use safe_cloud.Api.{scan_status_response}
use safe_cloud.Upload.{build_upload_response}
use safe_cloud.Finish.Calm.{IsTerminal}
use safe_cloud.Finish.Job.{process_one-IsTerminal}
use safe_cloud.Frame.{IsFrame, process_one-IsFrame}
use safe_cloud.RateLimit.{allow}
use safe_cloud.RateLimit.Window.{
  grants, count, IsOrdered, recent, grants-count_le, allow-granted_iff,
}
use safe_cloud.Paths.{
  normpath, initial_slashes, join_slash, normalize_and_validate_path, has_null, split_slash, reduce,
}
use safe_cloud.Paths.Components.{IsPart}
use safe_cloud.Paths.Containment.{IsContained, normalize_and_validate_path-IsContained}
use safe_cloud.Panel.{
  PanelEnv, PanelState, live_attempts, is_locked_out, compare_digest, verify_password, verify_parts,
  check_rounds, matches_digest, decide_login, log_in, login_submit,
}
use safe_cloud.Panel.Login.{login_submit-authenticated}
use safe_cloud.Api.{ScanRequest, Server, Call, ApiSettings, submit_scan, scan_status_response}
use safe_cloud.Api.Submission.{Created, submit_scan-Created}
use safe_cloud.Api.Answers.{scan_status_response-allowed_iff}
use safe_cloud.Upload.{
  Client, visible, id_text, owned, staged, stream_upload_to_staging, build_upload_response,
}
use safe_cloud.Upload.Streaming.{body_of, stream_upload_to_staging-staged_iff}
use safe_cloud.Upload.Access.{owned-visible_iff, build_upload_response-allowed_iff}

abbrev pdf_file : FileContent
pdf_file = record {
  bytes = some (codes "%PDF-1.7 body");
  zip = no_bad_entry;
  pdf = PdfOutcome.reader false;
}

abbrev host : NextcloudHost
host = record { ansible_host = "10.0.0.5"; allowed_root = "/data" }

abbrev settings : Settings
settings = record {
  staging_base = "/staging";
  quarantine_base = "/quarantine";
  runs_dir = "/runs";
  retain_infected_copy = true;
  max_file_size = 1000;
  staging_max_lifetime_seconds = 3600;
  nextcloud_hosts_map = ("cloud1", host) ∷ [];
}

abbrev raw_clean : RawResult
raw_clean = record {
  scanner_name = some "clamav";
  scanner_slug = some "clamav";
  scanner_version = none;
  status = some "CLEAN";
  threat = none;
  message = none;
}

abbrev playbook_result : PlaybookResult
playbook_result = record {
  stage = none;
  message = none;
  actual_sha256 = some "ab";
  filename = none;
  scan_results = raw_clean ∷ [];
  deletion_status = none;
}

abbrev env : Env
env = record {
  settings = settings;
  content = λ path. pdf_file;
  ansible = λ run paths. record {
    process = exited 0 (object playbook_result);
    elapsed_ms = 5;
    paths = paths;
  };
  mkdir_ok = λ path. true;
  rmtree_ok = λ path. true;
  move_ok = λ path. true;
  chmod_ok = λ path. true;
}

abbrev info : ScanInfo
info = record {
  request_id = "r1";
  username = "ada";
  nextcloud_host = "";
  nextcloud_file_path = "";
  relative_path = "a.pdf";
  filename = "a.pdf";
  original_size = 13;
  sha256 = "ab";
  user_id = none;
  email = none;
  department = none;
  source_application = "api";
  api_client_id = some "c1";
  mime_type = none;
  md5 = none;
  original_filename = some "a.pdf";
  extension = some "pdf";
  scanner_profile_id = none;
  transfer_mode = "direct_upload";
  parent_scan_id = none;
}

abbrev scan : Scan
unfolding new_scan claim_row
scan = claim_row 8 (new_scan "s1" info 7)

abbrev other_scan : Scan
unfolding new_scan
other_scan = new_scan "s2" info 7

abbrev scanner : ScannerConfig
scanner = record {
  id = "sc1";
  name = "ClamAV";
  slug = "clamav";
  enabled = true;
  docker_image = "clamav";
  scan_command = [];
  env_vars = [];
  result_parser = "clamav";
  timeout_seconds = 60;
  cpu_limit = 100;
  memory_limit_mb = 512;
}

abbrev profile : Profile
profile = record {
  id = "p1";
  name = "Default";
  slug = "default";
  enabled = true;
  aggregation_policy = "ALL_MUST_PASS";
  is_default = true;
}

abbrev world : World
world = record {
  scans = scan ∷ other_scan ∷ [];
  results = [];
  profiles = profile ∷ [];
  memberships = record { profile_id = "p1"; scanner_id = "sc1"; order_index = 0 } ∷ [];
  scanners = scanner ∷ [];
  encrypted_policies = ("default", "DENY") ∷ [];
  paths = "/staging/s1" ∷ "/staging/s1/input/a.pdf" ∷ [];
  runs = [];
  faults = [];
  clock = 9;
}

process_one-IsVouched_example :
    Row "s1"
      (λ r. r.allowed ≡ some true → IsVouched "s1" "ab" (process_one env scan world).1.results r)
      (process_one env scan world).1
unfolding outcomes_of new_scan claim_row
process_one-IsVouched_example =
    process_one-IsVouched scan env world refl ((λ e q. cc), ((λ e q. cc), tt))

process_one-answers_example :
    Row "s1"
      (λ r.
        ((scan_status_response r).allowed ≡ some true)
          ⊎ ((build_upload_response (process_one env scan world).1 r).allowed ≡ some true)
        → IsVouched "s1" "ab" (process_one env scan world).1.results r)
      (process_one env scan world).1
unfolding outcomes_of new_scan claim_row
process_one-answers_example =
    process_one-answers scan env world refl
      ((λ e. (λ q. cc, λ q. cc)), ((λ e. (λ q. cc, λ q. cc)), tt))

process_one-IsTerminal_example : Row "s1" IsTerminal (process_one env scan world).1
unfolding new_scan claim_row
process_one-IsTerminal_example = process_one-IsTerminal scan env world refl

process_one-IsFrame_example : IsFrame "s1" world (process_one env scan world).1
unfolding new_scan claim_row
process_one-IsFrame_example = process_one-IsFrame scan env world

-- A scan that waits, with an older and a younger one beside it.
abbrev queue : World
unfolding new_scan
queue = record world {
  scans = new_scan "s4" info 6 ∷ new_scan "s3" info 5 ∷ scan ∷ [];
  faults = false ∷ [];
}

abbrev first_claim : Scan
unfolding new_scan claim_row
first_claim = claim_row 9 (new_scan "s3" info 5)

claim_next_scan-IsFirst_example :
    (q : Scan) × Any (IsWaiting q) queue.scans
    × All (IsFirst q) queue.scans
    × (first_claim ≡ started 9 q)
    × OnlyAt q.id (started 9) queue.scans (claim_next_scan queue).1.scans
unfolding claim_next_scan ◌>>=◌ connect pure gets modify oldest_received new_scan claim_row
    update_rows
claim_next_scan-IsFirst_example = claim_next_scan-IsFirst queue first_claim refl

abbrev server : Server
server = record { world = world; hits = λ key. [] }

abbrev api : ApiSettings
api = record {
  tokens = "secret" ∷ [];
  minute = 60;
  rate_limit_per_minute = 2;
  fingerprint = λ token. "f";
}

abbrev call : Call
call = record {
  credentials = some "secret";
  client_ip = "10.1.1.1";
  now = 100;
  request_id = "r9";
  row_id = "s9";
}

abbrev payload : ScanRequest
payload = record {
  file_path = "/data/ada/files/../a.txt";
  relative_path = "a.txt";
  username = "ada";
  hostname = "cloud1";
  sha256 = "cd";
  size = 12;
}

submit_scan-Created_example :
    Created settings call payload world
      (submit_scan settings api call payload server).0
      (submit_scan settings api call payload server).1.world
submit_scan-Created_example = submit_scan-Created settings api call payload server

abbrev client : Client
client = record {
  id = "c1";
  name = "portal";
  permissions = "scan.read" ∷ [];
  scanner_profile_id = none;
}

owned-visible_iff_example :
    ((owned client (some scan) ≡ visible scan) ↔ (
      (contains "scan.read_all" client.permissions ≡ true)
      ⊎ (id_text scan.info.api_client_id ≡ client.id)))
    × ((owned client (some scan) ≡ visible scan) ⊎ (owned client (some scan) ≡ owned client none))
owned-visible_iff_example = owned-visible_iff client scan

build_upload_response-allowed_iff_example :
    ((build_upload_response world scan).allowed ≡ some true)
    ↔ ((scan.status ≡ clean) ⊎ ((scan.status ≡ encrypted) × (scan.allowed ≡ some true)))
build_upload_response-allowed_iff_example = build_upload_response-allowed_iff world scan

scan_status_response-allowed_iff_example :
    (((scan_status_response scan).allowed ≡ some true) ↔ (scan.status ≡ clean))
    × (((scan_status_response scan).allowed ≡ some false)
        ↔ ((scan.status ≡ infected) ⊎ (scan.status ≡ error) ⊎ (scan.status ≡ cleanup_failed)))
scan_status_response-allowed_iff_example = scan_status_response-allowed_iff scan

abbrev statuses : List Scan → List (ScanStatus × Option Bool × Option String)
statuses [] = []
statuses (r ∷ rs) = (r.status, r.allowed, r.threat) ∷ statuses rs

-- A direct upload of a PDF that the scanner reports clean.
clean_run :
    statuses (process_one env scan world).1.scans
    ≡ (clean, some true, none) ∷ (received, none, none) ∷ []
unfolding process_one process_scan resolve_profile profile_named get_default_profile query connect
    ◌>>=◌ pure raise gets modify find_profile with_profile get_profile_scanners profile_scanners
    scanners_of with_scanners run_job update_scan has_unknown is_unknown execute update_rows
    assign_all assign transfer inspect exists on_detection detect_encryption by_header has_prefix
    scan_file run_scan_stage run_and_clean run_playbook playbook_of answered read_result cleanup_run
    try_except after_scan check_result hash_matches lower codes_eq conclude create_scan_results
    statuses_ok insert_results write_verdict now scanner_names aggregate_scan_results by_policy
    all_must_pass delete_source delete_if cleanup_verdict cleanup_by cleanup_staging remove_staging
    remove_tree new_scan claim_row id_of_slug rstrip_slash join_path
clean_run = refl
