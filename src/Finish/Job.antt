-- ===== src/Finish/Job.antt =====
-- A whole job of the worker, from a calm state.
use safe_cloud.Prelude.{ℕ, String, List, [], ◌∷◌, Option, none, some, Bool, true, false, ◌≡◌, refl}
use safe_cloud.Detection.{EncryptionDetection}
use safe_cloud.Exec.Triple.{
  Triple, Triple_of_Keeps, Triple-bind, Triple-gets, Triple-pure, Triple-raise, Triple-try_except,
  Keeps-Post,
}
use safe_cloud.Db.{
  Scan, ScannerConfig, Profile, World, assign, assign_all, is_unknown, has_unknown,
  get_profile_scanners,
}
use safe_cloud.Db.ScanLaws.{Row}
use safe_cloud.Scanner.{
  Env, PlaybookResult, exists, check_result, scan_file, on_detection, inspect, transfer, run_job,
  with_scanners, with_profile, process_scan,
}
use safe_cloud.Worker.{ignore_errors, record_error, process_one}
use safe_cloud.Tolerance.Writes.{forward_of_known, query-Keeps}
use safe_cloud.Tolerance.Job.{resolve_profile-Keeps}
use safe_cloud.Finish.Calm.{IsTerminal, Calm, Done, update_scan-Done, Calm-tolerant}
use safe_cloud.Finish.Stages.{
  if-Triple, write, fail-Done, Fetched, Scanned, run_fetch_stage-Fetched, transferred-Fetched,
  run_scan_stage-Scanned, conclude-Done, reject_hash-Done, decide_encrypted_file-Done,
}

module _ (scan : Scan) (env : Env) where
  check_result-Done :
      (profile : Profile) (dir : String) (scanners : List ScannerConfig)
      (answer : Option (PlaybookResult × ℕ))
      → Triple
          (Scanned scan env answer)
          (check_result env scan profile dir scanners answer)
          (λ _. Done scan.id)
          Calm
  unfolding check_result
  check_result-Done profile dir scanners none = Triple-pure tt (λ w h. h)
  check_result-Done profile dir scanners (some (result, ms)) =
      if-Triple _ _ _ (conclude-Done scan env profile dir scanners _ _ ms)
        (reject_hash-Done scan env dir ms)

  scan_file-Done :
      (profile : Profile) (dir : String) (scanners : List ScannerConfig) (filename : String)
      → Triple Calm (scan_file env scan profile dir scanners filename) (λ _. Done scan.id) Calm
  unfolding scan_file has_unknown is_unknown
  scan_file-Done profile dir scanners filename = Triple-bind _ _ (write scan.id _ refl refl) (λ _.
      Triple-bind _ _ (run_scan_stage-Scanned scan env dir filename scanners)
        (check_result-Done profile dir scanners))

  on_detection-Done :
      (profile : Profile) (dir : String) (scanners : List ScannerConfig) (filename : String)
      (found : Option EncryptionDetection)
      → Triple Calm
          (on_detection env scan profile dir scanners filename found)
          (λ _. Done scan.id)
          Calm
  unfolding on_detection has_unknown is_unknown
  on_detection-Done profile dir scanners filename none = Triple-raise _ (λ w h. h)
  on_detection-Done profile dir scanners filename (some detection) =
      Triple-bind _ _ (write scan.id _ refl refl) (λ _.
        if-Triple _ _ _ (scan_file-Done profile dir scanners filename)
          (decide_encrypted_file-Done scan env dir detection))

  inspect-Done :
      (profile : Profile) (dir : String) (scanners : List ScannerConfig)
      (transferred : Bool × String)
      → Triple
          (Fetched scan env transferred)
          (inspect env scan profile dir scanners transferred)
          (λ _. Done scan.id)
          Calm
  unfolding inspect exists
  inspect-Done profile dir scanners (false, filename) = Triple-pure tt (λ w h. h)
  inspect-Done profile dir scanners (true, filename) =
      Triple-bind {Q = λ _. Calm} _ _ (Triple-gets _ (λ w h. h)) (λ there.
        if-Triple there _ _ (on_detection-Done profile dir scanners filename _)
          (scan_file-Done profile dir scanners filename))

  transfer-Fetched : (dir : String) → Triple Calm (transfer env scan dir) (Fetched scan env) Calm
  unfolding transfer
  transfer-Fetched dir =
      if-Triple _ _ _ (run_fetch_stage-Fetched scan env dir) (transferred-Fetched scan env _)

  with_scanners-Done :
      (profile : Profile) (scanners : List ScannerConfig)
      → Triple Calm (with_scanners env scan profile scanners) (λ _. Done scan.id) Calm
  unfolding with_scanners run_job has_unknown is_unknown
  with_scanners-Done profile [] = fail-Done scan.id _
  with_scanners-Done profile (s ∷ ss) =
      Triple-bind _ _ (write scan.id _ refl refl)
        (λ _. Triple-bind _ _ (transfer-Fetched _) (inspect-Done profile _ (s ∷ ss)))

  with_profile-Done :
      (found : Option Profile) → Triple Calm (with_profile env scan found) (λ _. Done scan.id) Calm
  unfolding with_profile get_profile_scanners
  with_profile-Done none = fail-Done scan.id _
  with_profile-Done (some profile) =
      Triple-bind _ _ (Triple_of_Keeps (query-Keeps _ (Calm-tolerant scan.id).connects))
        (with_scanners-Done profile)

  process_scan-Done : Triple Calm (process_scan env scan) (λ _. Done scan.id) Calm
  unfolding process_scan
  process_scan-Done =
      Triple-bind _ _
        (Triple_of_Keeps (
          resolve_profile-Keeps scan env (forward_of_known (Calm-tolerant scan.id)) (λ w s r h. h)))
        with_profile-Done

  record_error-Done :
      Triple Calm (ignore_errors (record_error scan)) (λ _. Done scan.id) (Done scan.id)
  unfolding record_error assign_all assign has_unknown is_unknown
  record_error-Done =
      Triple-try_except _ _ (update_scan-Done scan.id _ refl refl (λ r. refl))
        (λ x. Triple-pure tt (λ w h. absurd h))

  pub process_one-Done : Triple Calm (process_one env scan) (λ _. Done scan.id) (Done scan.id)
  unfolding process_one
  process_one-Done = Triple-try_except _ _ process_scan-Done (λ x. record_error-Done)

-- Where no call of the database fails, the row of a job has a final status (CLEAN, INFECTED, ERROR, ENCRYPTED or CLEANUP_FAILED) when the worker is done with it, whatever the configuration, Ansible, the scanners, the file's content and the file system do, and whatever exceptions they cause.
pub process_one-IsTerminal :
    (scan : Scan) (env : Env) (w : World)
    → w.faults ≡ []
    → Row scan.id IsTerminal (process_one env scan w).1
process_one-IsTerminal scan env w calm =
    (Keeps-Post (Done scan.id) _ _ ((process_one-Done scan env).run w calm)).1
