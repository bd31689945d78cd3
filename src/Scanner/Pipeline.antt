-- ===== src/Scanner/Pipeline.antt =====
-- api/scanner.py: `process_scan` and `force_fail_stale`, and api/worker.py: what the worker does with
-- a job, whatever exception it raises.
use Prim.Native.String.{compare}
use Prim.Native.Nat.{Ordering}
use safe_cloud.Prelude.{
  ℕ, String, List, [], ◌∷◌, Option, none, some, Bool, true, false, ◌==◌, not, if◌then◌else◌, ◌+++◌,
  text_or, lookup, map, rstrip_slash,
}
use safe_cloud.Policy.{
  ScanStatus, transferring, scanning, infected, ScannerOutcome, AggregationDecision,
  EncryptedPolicyDecision, aggregate_scan_results, resolve_encrypted_policy, apply_encrypted_policy,
}
use safe_cloud.Detection.{EncryptionDetection, detect_encryption}
use safe_cloud.Exec.{pure, raise, ◌>>=◌, ◌>>◌, other_error}
use safe_cloud.Db.{
  Scan, ScanResult, ScannerConfig, Profile, Db, set_status, set_allowed, set_threat, set_scanner,
  set_sha256, set_encrypted, set_encryption_type, set_encrypted_policy_applied, set_needs_review,
  set_aggregation_policy_applied, set_final_policy_reason, set_staging_path, set_completed_at,
  set_transfer_status, set_scan_status_detail, set_duration_ms, update_scan, get_profile_scanners,
  get_encrypted_policies, create_scan_results,
}
use safe_cloud.Scanner.Outside.{NextcloudHost, RawResult, PlaybookResult, Env, join_path}
use safe_cloud.Scanner.Staging.{
  now, exists, fail, cleanup_staging, quarantine_staging, cleanup_or_quarantine_infected_staging,
}
use safe_cloud.Scanner.Stages.{
  resolve_profile, hash_matches, run_fetch_stage, run_scan_stage, delete_infected_source,
}

abbrev pub or_else : Option String → String → String
or_else none d = d
or_else (some s) d = s

abbrev pub outcome_of : RawResult → ScannerOutcome
outcome_of r = record {
  scanner_name = or_else r.scanner_name "unknown";
  status = or_else r.status "ERROR";
  threat = r.threat;
}

unfoldable pub id_of_slug : List ScannerConfig → Option String → Option String
id_of_slug [] slug = none
id_of_slug (c ∷ cs) none = none
id_of_slug (c ∷ cs) (some slug) = if c.slug == slug then some c.id else id_of_slug cs (some slug)

-- `text or None`
abbrev non_empty : Option String → Option String
non_empty none = none
non_empty (some s) = if s == "" then none else some s

abbrev pub result_row : String → List ScannerConfig → RawResult → ScanResult
result_row scan_id scanners r = record {
  scan_id = scan_id;
  scanner_id = id_of_slug scanners r.scanner_slug;
  scanner_name = or_else r.scanner_name "unknown";
  scanner_version = r.scanner_version;
  status = or_else r.status "ERROR";
  threat = r.threat;
  raw_output = non_empty r.message;
}

-- `", ".join(sorted({…}))`
insert_name : String → List String → List String
insert_name s [] = s ∷ []
insert_name s (t ∷ ts) =
    let rest = insert_name s ts in
    elim (compare s t) [ Ordering.lt ↦ s ∷ t ∷ ts | Ordering.eq ↦ t ∷ ts | Ordering.gt ↦ t ∷ rest ]

sorted_set : List String → List String
unfolding insert_name
sorted_set [] = []
sorted_set (s ∷ ss) = insert_name s (sorted_set ss)

join : List String → String
join [] = ""
join (s ∷ []) = s
join (s ∷ t ∷ ts) = s +++ ", " +++ join (t ∷ ts)

unfoldable pub scanner_names : List ScannerOutcome → String
unfolding sorted_set join
scanner_names outcomes = join (sorted_set (map (λ o. o.scanner_name) outcomes))

module _ (env : Env) where
  -- The job's directory: `staging_path`, or the base and the id.
  abbrev pub staging_dir_of : Scan → String
  staging_dir_of scan =
      text_or scan.staging_path (rstrip_slash env.settings.staging_base +++ "/" +++ scan.id)

  unfoldable pub write_encrypted : Scan → String → EncryptedPolicyDecision → Db (Unit {0})
  write_encrypted scan policy_value decision = do
    at ← now
    update_scan scan.id (
        set_status decision.status
        ∷ set_allowed decision.allowed
        ∷ set_needs_review decision.needs_review
        ∷ set_encrypted_policy_applied policy_value
        ∷ set_final_policy_reason decision.reason
        ∷ set_completed_at at
        ∷ [])

  -- The verdict on a file that is encrypted, or may be.
  unfoldable pub decide_encrypted_file : Scan → String → EncryptionDetection → Db (Unit {0})
  decide_encrypted_file scan staging_dir detection = do
    policies ← get_encrypted_policies
    write_encrypted scan (resolve_encrypted_policy detection.category policies) (
        apply_encrypted_policy (resolve_encrypted_policy detection.category policies)
          detection.category)
    (if (apply_encrypted_policy (resolve_encrypted_policy detection.category policies)
          detection.category).quarantine
        then quarantine_staging env scan.id staging_dir
        else cleanup_staging env scan.id staging_dir true)

  unfoldable pub delete_from : Scan → String → Option NextcloudHost → Db (Unit {0})
  delete_from scan scanned_sha256 none = pure tt
  delete_from scan scanned_sha256 (some host) = delete_infected_source env scan host scanned_sha256

  unfoldable pub delete_if : Scan → String → ScanStatus → Db (Unit {0})
  delete_if scan scanned_sha256 infected =
      if scan.info.transfer_mode == "ansible_fetch"
      then delete_from scan scanned_sha256
          (lookup scan.info.nextcloud_host env.settings.nextcloud_hosts_map)
      else pure tt
  delete_if scan scanned_sha256 _ = pure tt

  -- An infected file's source is deleted where it was fetched from, if that host is configured.
  unfoldable pub delete_source : Scan → AggregationDecision → String → Db (Unit {0})
  delete_source scan decision scanned_sha256 = delete_if scan scanned_sha256 decision.status

  unfoldable pub cleanup_by : Scan → String → ScanStatus → Db (Unit {0})
  cleanup_by scan staging_dir infected =
      cleanup_or_quarantine_infected_staging env scan.id staging_dir
  cleanup_by scan staging_dir _ = cleanup_staging env scan.id staging_dir true

  unfoldable pub cleanup_verdict : Scan → String → AggregationDecision → Db (Unit {0})
  cleanup_verdict scan staging_dir decision = cleanup_by scan staging_dir decision.status

  unfoldable pub write_verdict :
      Scan → Profile → List ScannerOutcome → AggregationDecision → Db (Unit {0})
  write_verdict scan profile outcomes decision = do
    at ← now
    update_scan scan.id (
        set_status decision.status
        ∷ set_allowed decision.allowed
        ∷ set_threat decision.threat
        ∷ set_scanner (scanner_names outcomes)
        ∷ set_aggregation_policy_applied profile.aggregation_policy
        ∷ set_final_policy_reason decision.reason
        ∷ set_completed_at at
        ∷ [])

  -- From the scanners' results, whose hash has been checked, to the verdict.
  unfoldable pub conclude :
      Scan → Profile → String → List ScannerConfig → List RawResult → String → ℕ → Db (Unit {0})
  conclude scan profile staging_dir scanners raw_results final_sha256 ms = do
    update_scan scan.id
        (set_scan_status_detail "OK" ∷ set_sha256 final_sha256 ∷ set_duration_ms (some ms) ∷ [])
    create_scan_results (map (result_row scan.id scanners) raw_results)
    write_verdict scan profile (map outcome_of raw_results)
        (aggregate_scan_results (map outcome_of raw_results) profile.aggregation_policy)
    delete_source scan
        (aggregate_scan_results (map outcome_of raw_results) profile.aggregation_policy)
        final_sha256
    cleanup_verdict scan staging_dir
        (aggregate_scan_results (map outcome_of raw_results) profile.aggregation_policy)

  unfoldable pub reject_hash : Scan → String → ℕ → Db (Unit {0})
  reject_hash scan staging_dir ms = do
    update_scan scan.id (set_scan_status_detail "FAILED" ∷ set_duration_ms (some ms) ∷ [])
    fail scan.id "SHA256 mismatch at scan time - refusing to trust this result"
    cleanup_staging env scan.id staging_dir true

  unfoldable pub check_result :
      Scan → Profile → String → List ScannerConfig → Option (PlaybookResult × ℕ) → Db (Unit {0})
  check_result scan profile staging_dir scanners none = pure tt
  check_result scan profile staging_dir scanners (some (result, ms)) =
      if hash_matches result.actual_sha256 scan.sha256
      then conclude scan profile staging_dir scanners result.scan_results
          (or_else result.actual_sha256 "") ms
      else reject_hash scan staging_dir ms

  -- The scanners run.
  unfoldable pub scan_file : Scan → Profile → String → List ScannerConfig → String → Db (Unit {0})
  scan_file scan profile staging_dir scanners filename = do
    update_scan scan.id (set_status scanning ∷ [])
    answer ← run_scan_stage env scan staging_dir filename scanners
    check_result scan profile staging_dir scanners answer

  abbrev pub staged_path : String → String → String
  staged_path staging_dir filename = join_path (staging_dir +++ "/input") filename

  abbrev pub is_plain : EncryptionDetection → Bool
  is_plain detection = elim detection.encrypted [ none ↦ false | some e ↦ not e ]

  unfoldable pub on_detection :
      Scan
      → Profile
      → String
      → List ScannerConfig
      → String
      → Option EncryptionDetection
      → Db (Unit {0})
  on_detection scan profile staging_dir scanners filename none = raise other_error
  on_detection scan profile staging_dir scanners filename (some detection) = do
    update_scan scan.id
        (set_encrypted detection.encrypted ∷ set_encryption_type detection.encryption_type ∷ [])
    (if is_plain detection
        then scan_file scan profile staging_dir scanners filename
        else decide_encrypted_file scan staging_dir detection)

  -- The file is looked at if it is there; if not, the scanners run all the same.
  unfoldable pub inspect :
      Scan → Profile → String → List ScannerConfig → Bool × String → Db (Unit {0})
  inspect scan profile staging_dir scanners (false, filename) = pure tt
  inspect scan profile staging_dir scanners (true, filename) = do
    there ← exists (staged_path staging_dir filename)
    (if there
        then on_detection scan profile staging_dir scanners filename
            (detect_encryption (env.content (staged_path staging_dir filename)) filename)
        else scan_file scan profile staging_dir scanners filename)

  unfoldable pub transfer : Scan → String → Db (Bool × String)
  transfer scan staging_dir =
      if scan.info.transfer_mode == "ansible_fetch"
      then run_fetch_stage env scan staging_dir
      else (update_scan scan.id (set_transfer_status "OK" ∷ []) >> pure (true, scan.info.filename))

  unfoldable pub run_job : Scan → Profile → String → List ScannerConfig → Db (Unit {0})
  run_job scan profile staging_dir scanners = do
    update_scan scan.id (
        set_status transferring ∷ set_staging_path staging_dir ∷ set_transfer_status "PENDING" ∷ [])
    transferred ← transfer scan staging_dir
    inspect scan profile staging_dir scanners transferred

  unfoldable pub with_scanners : Scan → Profile → List ScannerConfig → Db (Unit {0})
  with_scanners scan profile [] =
      fail scan.id ("Scanner profile '" +++ profile.name +++ "' has no enabled scanners")
  with_scanners scan profile (s ∷ ss) = run_job scan profile (staging_dir_of scan) (s ∷ ss)

  unfoldable pub with_profile : Scan → Option Profile → Db (Unit {0})
  with_profile scan none =
      fail scan.id "No scanner profile is configured (and no default profile exists)"
  with_profile scan (some profile) = do
    scanners ← get_profile_scanners profile.id
    with_scanners scan profile scanners

  unfoldable pub process_scan : Scan → Db (Unit {0})
  process_scan scan = do profile ← resolve_profile scan; with_profile scan profile

  unfoldable pub force_fail_stale : Scan → Db (Unit {0})
  force_fail_stale scan = do
    fail scan.id "Scan exceeded the configured maximum processing lifetime and was aborted"
    cleanup_staging env scan.id (staging_dir_of scan) true
