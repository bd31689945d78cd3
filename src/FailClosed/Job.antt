-- ===== src/FailClosed/Job.antt =====
-- The whole job: whatever fails on its way, an allowed row has its evidence.
use safe_cloud.Prelude.Pairs.{All-mono}
use safe_cloud.Api.{scan_status_response}
use safe_cloud.Api.Answers.{scan_status_response-allowed_iff}
use safe_cloud.Upload.{build_upload_response}
use safe_cloud.Upload.Access.{build_upload_response-allowed_iff}
use safe_cloud.Policy.{clean}
use safe_cloud.Prelude.{
  ◌⊎◌, inl, inr, ℕ, String, List, [], ◌∷◌, Option, none, some, Bool, true, false, ◌≡◌, ◌≢◌, refl,
}
use safe_cloud.Detection.{EncryptionDetection}
use safe_cloud.Exec.Triple.{
  Triple-Keeps, Keeps-Post, Triple, Keeps, Triple_of_Keeps, Triple-weaken, Triple-bind, Triple-if,
  Triple-raise, Triple-try_except, Keeps-try_except, Keeps-pure, Keeps-bind, Keeps-if,
}
use safe_cloud.Db.{
  assign, assign_all, has_unknown, is_unknown, Scan, ScannerConfig, Profile, World, Db, get_profile,
  get_default_profile, get_profile_scanners,
}
use safe_cloud.Db.ScanLaws.{Row, Triple-update_scan}
use safe_cloud.Scanner.{
  Env, PlaybookResult, or_default_profile, profile_named, resolve_profile, check_result,
  reject_hash, scan_file, on_detection, inspect, transfer, run_job, with_scanners, with_profile,
  process_scan,
}
use safe_cloud.Worker.{ignore_errors, record_error, process_one}
use safe_cloud.Tolerance.Writes.{all_safe, Tolerates, late_of_safe, query-Keeps}
use safe_cloud.Tolerance.Cleanup.{cleanup_staging-Keeps, exists-Keeps}
use safe_cloud.Tolerance.Stages.{fail-Keeps, run_fetch_stage-Keeps, run_scan_stage-Keeps}
use safe_cloud.FailClosed.Evidence.{Vouched, IsVouched, outcomes_of}
use safe_cloud.FailClosed.Verdict.{
  Before-tolerant, Before, After, Before-After, leave, decide_encrypted_file-After, conclude-After,
  hash_of_matches,
}

module _ (WasClean : Type 0) (scan : Scan) (env : Env) where
  t : Tolerates all_safe scan.id (Before WasClean scan env)
  t = Before-tolerant WasClean scan env

  -- A call that makes safe writes alone, as the first part of a job.
  first :
      {A : Type 0} {m : Db A}
      → Keeps (Before WasClean scan env) m
      → Triple
          (Before WasClean scan env)
          m
          (λ _. Before WasClean scan env)
          (After WasClean scan env)
  first k =
      Triple-weaken (λ w h. h) (λ a w h. h) (Before-After WasClean scan env) (Triple_of_Keeps k)

  reject_hash-Before :
      (dir : String) (ms : ℕ) → Keeps (Before WasClean scan env) (reject_hash env scan dir ms)
  unfolding reject_hash all_safe
  reject_hash-Before dir ms = Keeps-bind _ _ (t.update _ refl refl) (λ _.
      Keeps-bind _ _ (fail-Keeps scan.id t _)
        (λ _. cleanup_staging-Keeps (late_of_safe t) env dir true))

  check_result-After :
      (profile : Profile) (dir : String) (scanners : List ScannerConfig)
      (answer : Option (PlaybookResult × ℕ))
      → Triple
          (Before WasClean scan env)
          (check_result env scan profile dir scanners answer)
          (λ _. After WasClean scan env)
          (After WasClean scan env)
  unfolding check_result
  check_result-After profile dir scanners none = leave WasClean scan env (Keeps-pure tt)
  check_result-After profile dir scanners (some (result, ms)) =
      Triple-if _ _ _
        (λ same.
          conclude-After WasClean scan env profile dir scanners result.scan_results _ ms
            (hash_of_matches WasClean scan env result.actual_sha256 same))
        (λ _. leave WasClean scan env (reject_hash-Before dir ms))

  scan_file-After :
      (profile : Profile) (dir : String) (scanners : List ScannerConfig) (filename : String)
      → Triple
          (Before WasClean scan env)
          (scan_file env scan profile dir scanners filename)
          (λ _. After WasClean scan env)
          (After WasClean scan env)
  unfolding scan_file all_safe
  scan_file-After profile dir scanners filename =
      Triple-bind _ _ (first (t.update _ refl refl)) (λ _.
        Triple-bind _ _ (first (run_scan_stage-Keeps scan t env dir filename scanners))
          (check_result-After profile dir scanners))

  on_detection-After :
      (profile : Profile) (dir : String) (scanners : List ScannerConfig) (filename : String)
      (found : Option EncryptionDetection)
      → Triple
          (Before WasClean scan env)
          (on_detection env scan profile dir scanners filename found)
          (λ _. After WasClean scan env)
          (After WasClean scan env)
  unfolding on_detection all_safe
  on_detection-After profile dir scanners filename none =
      Triple-raise _ (Before-After WasClean scan env)
  on_detection-After profile dir scanners filename (some detection) =
      Triple-bind _ _ (first (t.update _ refl refl)) (λ _.
        Triple-if _ _ _ (λ _. scan_file-After profile dir scanners filename)
          (λ _. decide_encrypted_file-After WasClean scan env dir detection))

  inspect-After :
      (profile : Profile) (dir : String) (scanners : List ScannerConfig)
      (transferred : Bool × String)
      → Triple
          (Before WasClean scan env)
          (inspect env scan profile dir scanners transferred)
          (λ _. After WasClean scan env)
          (After WasClean scan env)
  unfolding inspect
  inspect-After profile dir scanners (false, filename) = leave WasClean scan env (Keeps-pure tt)
  inspect-After profile dir scanners (true, filename) =
      Triple-bind _ _ (first (exists-Keeps (late_of_safe t) _)) (λ there.
        Triple-if there _ _ (λ _. on_detection-After profile dir scanners filename _)
          (λ _. scan_file-After profile dir scanners filename))

  transfer-Before : (dir : String) → Keeps (Before WasClean scan env) (transfer env scan dir)
  unfolding transfer all_safe
  transfer-Before dir =
      Keeps-if _ _ _ (run_fetch_stage-Keeps scan t env dir)
        (Keeps-bind _ _ (t.update _ refl refl) (λ _. Keeps-pure _))

  with_scanners-After :
      (profile : Profile) (scanners : List ScannerConfig)
      → Triple
          (Before WasClean scan env)
          (with_scanners env scan profile scanners)
          (λ _. After WasClean scan env)
          (After WasClean scan env)
  unfolding with_scanners run_job all_safe
  with_scanners-After profile [] = leave WasClean scan env (fail-Keeps scan.id t _)
  with_scanners-After profile (s ∷ ss) =
      Triple-bind _ _ (first (t.update _ refl refl))
        (λ _. Triple-bind _ _ (first (transfer-Before _)) (inspect-After profile _ (s ∷ ss)))

  with_profile-After :
      (found : Option Profile)
      → Triple
          (Before WasClean scan env)
          (with_profile env scan found)
          (λ _. After WasClean scan env)
          (After WasClean scan env)
  unfolding with_profile get_profile_scanners
  with_profile-After none = leave WasClean scan env (fail-Keeps scan.id t _)
  with_profile-After (some profile) =
      Triple-bind _ _ (first (query-Keeps _ t.connects)) (with_scanners-After profile)

  default-Before : Keeps (Before WasClean scan env) get_default_profile
  unfolding get_default_profile
  default-Before = query-Keeps _ t.connects

  or_default_profile-Before :
      (found : Option Profile) → Keeps (Before WasClean scan env) (or_default_profile found)
  unfolding or_default_profile
  or_default_profile-Before none = default-Before
  or_default_profile-Before (some profile) = Keeps-pure _

  profile_named-Before :
      (name : Option String) → Keeps (Before WasClean scan env) (profile_named name)
  unfolding profile_named get_profile
  profile_named-Before none = default-Before
  profile_named-Before (some profile_id) =
      Keeps-if _ _ _ default-Before
        (Keeps-bind _ _ (query-Keeps _ t.connects) or_default_profile-Before)

  resolve_profile-Before : Keeps (Before WasClean scan env) (resolve_profile scan)
  unfolding resolve_profile
  resolve_profile-Before = profile_named-Before _

  pub process_scan-After :
      Triple
        (Before WasClean scan env)
        (process_scan env scan)
        (λ _. After WasClean scan env)
        (After WasClean scan env)
  unfolding process_scan
  process_scan-After = Triple-bind _ _ (first resolve_profile-Before) with_profile-After

  record_error-After : Keeps (After WasClean scan env) (ignore_errors (record_error scan))
  unfolding record_error assign_all assign has_unknown is_unknown
  record_error-After =
      Keeps-try_except _ _
        (Triple-Keeps (
          Triple-update_scan scan.id _ (Vouched WasClean scan.id scan.sha256)
            (Vouched WasClean scan.id scan.sha256) refl refl (λ rs r h. (λ e. cc, λ e. cc))))
        (λ _. Keeps-pure tt)

  pub process_one-After :
      Triple
        (Before WasClean scan env)
        (process_one env scan)
        (λ _. After WasClean scan env)
        (After WasClean scan env)
  unfolding process_one
  process_one-After =
      Triple-try_except _ _ process_scan-After (λ _. Triple_of_Keeps record_error-After)

-- Whatever the database, Ansible, the scanners and the file system do or fail to do: if a job's row is not allowed and no result of it is stored when the worker takes the job, and the row is allowed afterwards, then either the row names ALLOW as the encrypted-file policy that was applied, or the results that are stored for the scan, each CLEAN, INFECTED or ERROR, are allowed by the aggregation policy that the row names, and the row's hash is the one that was expected, up to letter case.
pub process_one-IsVouched :
    (scan : Scan) (env : Env) (w : World)
    → outcomes_of scan.id w.results ≡ []
    → Row scan.id (λ r. r.allowed ≢ some true) w
    → Row scan.id
        (λ r.
          r.allowed ≡ some true
          → IsVouched scan.id scan.sha256 (process_one env scan w).1.results r)
        (process_one env scan w).1
process_one-IsVouched scan env w none_stored denied =
    All-mono _ _ (process_one env scan w).1.scans (λ r f e. (f e).0)
      (Keeps-Post (After Unit scan env) _ _ (
        (process_one-After Unit scan env).run w
          (All-mono _ _ w.scans (λ r f e. (f e, none_stored, λ c. tt)) denied)))

-- Whatever the database, Ansible, the scanners and the file system do or fail to do: if a job's row is not allowed and not CLEAN and no result of it is stored when the worker takes the job, then afterwards neither the status endpoint of the Nextcloud API nor the upload API answers that the file is allowed, unless the row names ALLOW as the encrypted-file policy that was applied, or the results that are stored for the scan, each CLEAN, INFECTED or ERROR, are allowed by the aggregation policy that the row names and the row's hash is the one that was expected, up to letter case.
pub process_one-answers :
    (scan : Scan) (env : Env) (w : World)
    → outcomes_of scan.id w.results ≡ []
    → Row scan.id (λ r. (r.allowed ≢ some true) × (r.status ≢ clean)) w
    → Row scan.id
        (λ r.
          ((scan_status_response r).allowed ≡ some true)
            ⊎ ((build_upload_response (process_one env scan w).1 r).allowed ≡ some true)
          → IsVouched scan.id scan.sha256 (process_one env scan w).1.results r)
        (process_one env scan w).1
process_one-answers scan env w none_stored denied =
    All-mono _ _ (process_one env scan w).1.scans (λ r f e a. answered r (f e) a)
      (Keeps-Post (After ⊥ scan env) _ _ (
        (process_one-After ⊥ scan env).run w
          (All-mono _ _ w.scans (λ r f e. ((f e).0, none_stored, (f e).1)) denied)))
  where
    clean_row :
        (r : Scan)
        → Vouched ⊥ scan.id scan.sha256 (process_one env scan w).1.results r
        → r.status ≡ clean
        → IsVouched scan.id scan.sha256 (process_one env scan w).1.results r
    clean_row r h c = elim (h.1 c) [ inl a ↦ h.0 a | inr b ↦ absurd b ]

    answered :
        (r : Scan)
        → Vouched ⊥ scan.id scan.sha256 (process_one env scan w).1.results r
        → ((scan_status_response r).allowed ≡ some true)
          ⊎ ((build_upload_response (process_one env scan w).1 r).allowed ≡ some true)
        → IsVouched scan.id scan.sha256 (process_one env scan w).1.results r
    answered r h (inl a) = clean_row r h ((scan_status_response-allowed_iff r).0.0 a)
    answered r h (inr a) =
        elim ((build_upload_response-allowed_iff (process_one env scan w).1 r).0 a) [
          | inl c ↦ clean_row r h c
          | inr (c, b) ↦ h.0 b
        ]
