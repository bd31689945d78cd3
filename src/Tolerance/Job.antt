-- ===== src/Tolerance/Job.antt =====
-- A whole job keeps what bears every write to its own row and the rows of its results.
use safe_cloud.Prelude.{
  ℕ, String, List, [], ◌∷◌, ◌++◌, Option, none, some, Bool, true, false, inl, inr, ◌≡◌, refl, map,
}
use safe_cloud.Policy.{
  encrypted, ScannerOutcome, AggregationDecision, EncryptedPolicyDecision, aggregate_scan_results,
}
use safe_cloud.Policy.Order.{IsVerdict, aggregate_scan_results-IsVerdict}
use safe_cloud.Policy.Encrypted.{apply_encrypted_policy_exact}
use safe_cloud.Detection.{EncryptionDetection}
use safe_cloud.Exec.Triple.{
  Keeps, Keeps-bind, Keeps-if, Keeps-pure, Keeps-raise, Keeps-modify, Keeps-try_except,
}
use safe_cloud.Db.{
  Scan, set_status, ScannerConfig, Profile, World, create_scan_results, insert_results, get_profile,
  get_default_profile, get_profile_scanners, get_encrypted_policies,
}
use safe_cloud.Scanner.{
  Env, RawResult, PlaybookResult, result_row, or_default_profile, profile_named, resolve_profile,
  write_encrypted, decide_encrypted_file, write_verdict, conclude, reject_hash, check_result,
  scan_file, on_detection, inspect, transfer, run_job, with_scanners, with_profile, process_scan,
  cleanup_staging,
}
use safe_cloud.Worker.{record_error, process_one}
use safe_cloud.Tolerance.Writes.{
  is_forward, all_safe, all_forward, Tolerates, late_of_safe, safe_of_forward, query-Keeps,
}
use safe_cloud.Tolerance.Cleanup.{exists-Keeps, cleanup_staging-Keeps, quarantine_staging-Keeps}
use safe_cloud.Tolerance.Stages.{
  now-Keeps, fail-Keeps, run_fetch_stage-Keeps, run_scan_stage-Keeps, delete_source-Keeps,
  cleanup_verdict-Keeps,
}

-- No verdict puts a scan back in the queue.
verdict_forward :
    (outcomes : List ScannerOutcome) (policy : String)
    → is_forward (set_status (aggregate_scan_results outcomes policy).status) ≡ true
unfolding is_forward
verdict_forward outcomes policy = go (aggregate_scan_results-IsVerdict outcomes policy)
  where
    go :
        IsVerdict (aggregate_scan_results outcomes policy)
        → is_forward (set_status (aggregate_scan_results outcomes policy).status) ≡ true
    go (inl (e, a)) = rw e refl
    go (inr (inl e, a)) = rw e refl
    go (inr (inr e, a)) = rw e refl

module _ (scan : Scan) (env : Env) {Inv : World → Type 0} (t : Tolerates all_forward scan.id Inv)
    (store : (w : World) (scanners : List ScannerConfig) (raw : List RawResult)
      → Inv w
      → Inv (record w { results = w.results ++ map (result_row scan.id scanners) raw })) where
  safe : Tolerates all_safe scan.id Inv
  safe = safe_of_forward t

  clean_up : (dir : String) → Keeps Inv (cleanup_staging env scan.id dir true)
  clean_up dir = cleanup_staging-Keeps (late_of_safe safe) env dir true

  pub create_scan_results-Keeps :
      (scanners : List ScannerConfig) (raw : List RawResult)
      → Keeps Inv (create_scan_results (map (result_row scan.id scanners) raw))
  unfolding create_scan_results insert_results
  create_scan_results-Keeps scanners raw = Keeps-if _ _ _ (Keeps-pure tt) (
      Keeps-bind _ _ t.connects
        (λ _. Keeps-if _ _ _ (Keeps-modify _ (λ w h. store w scanners raw h)) (Keeps-raise _)))

  write_verdict-Keeps :
      (profile : Profile) (outcomes : List ScannerOutcome) (d : AggregationDecision)
      → is_forward (set_status d.status) ≡ true
      → Keeps Inv (write_verdict env scan profile outcomes d)
  unfolding write_verdict all_forward
  write_verdict-Keeps profile outcomes d forward =
      Keeps-bind _ _ (now-Keeps scan.id safe) (λ at. t.update _ (rw forward refl) refl)

  conclude-Keeps :
      (profile : Profile) (dir : String) (scanners : List ScannerConfig) (raw : List RawResult)
      (hash : String) (ms : ℕ)
      → Keeps Inv (conclude env scan profile dir scanners raw hash ms)
  unfolding conclude all_forward
  conclude-Keeps profile dir scanners raw hash ms = Keeps-bind _ _ (t.update _ refl refl) (λ _.
      Keeps-bind _ _ (create_scan_results-Keeps scanners raw) (λ _.
        Keeps-bind _ _ (write_verdict-Keeps profile _ _ (verdict_forward _ _)) (λ _.
          Keeps-bind _ _ (delete_source-Keeps scan (late_of_safe safe) env _ hash)
            (λ _. cleanup_verdict-Keeps scan (late_of_safe safe) env dir _))))

  reject_hash-Keeps : (dir : String) (ms : ℕ) → Keeps Inv (reject_hash env scan dir ms)
  unfolding reject_hash all_forward
  reject_hash-Keeps dir ms =
      Keeps-bind _ _ (t.update _ refl refl)
        (λ _. Keeps-bind _ _ (fail-Keeps scan.id safe _) (λ _. clean_up dir))

  check_result-Keeps :
      (profile : Profile) (dir : String) (scanners : List ScannerConfig)
      (answer : Option (PlaybookResult × ℕ))
      → Keeps Inv (check_result env scan profile dir scanners answer)
  unfolding check_result
  check_result-Keeps profile dir scanners none = Keeps-pure tt
  check_result-Keeps profile dir scanners (some (result, ms)) =
      Keeps-if _ _ _ (conclude-Keeps profile dir scanners _ _ ms) (reject_hash-Keeps dir ms)

  scan_file-Keeps :
      (profile : Profile) (dir : String) (scanners : List ScannerConfig) (filename : String)
      → Keeps Inv (scan_file env scan profile dir scanners filename)
  unfolding scan_file all_forward
  scan_file-Keeps profile dir scanners filename = Keeps-bind _ _ (t.update _ refl refl) (λ _.
      Keeps-bind _ _ (run_scan_stage-Keeps scan safe env dir filename scanners)
        (check_result-Keeps profile dir scanners))

  write_encrypted-Keeps :
      (policy : String) (d : EncryptedPolicyDecision)
      → d.status ≡ encrypted
      → Keeps Inv (write_encrypted env scan policy d)
  unfolding write_encrypted all_forward
  write_encrypted-Keeps policy d s =
      Keeps-bind _ _ (now-Keeps scan.id safe) (λ at. t.update _ (rw s refl) refl)

  decide_encrypted_file-Keeps :
      (dir : String) (detection : EncryptionDetection)
      → Keeps Inv (decide_encrypted_file env scan dir detection)
  unfolding decide_encrypted_file get_encrypted_policies
  decide_encrypted_file-Keeps dir detection = Keeps-bind _ _ (query-Keeps _ t.connects) (λ policies.
      Keeps-bind _ _ (write_encrypted-Keeps _ _ (apply_encrypted_policy_exact _ _).0)
        (λ _. Keeps-if _ _ _ (quarantine_staging-Keeps (late_of_safe safe) env dir) (clean_up dir)))

  on_detection-Keeps :
      (profile : Profile) (dir : String) (scanners : List ScannerConfig) (filename : String)
      (found : Option EncryptionDetection)
      → Keeps Inv (on_detection env scan profile dir scanners filename found)
  unfolding on_detection all_forward
  on_detection-Keeps profile dir scanners filename none = Keeps-raise _
  on_detection-Keeps profile dir scanners filename (some detection) =
      Keeps-bind _ _ (t.update _ refl refl) (λ _.
        Keeps-if _ _ _ (scan_file-Keeps profile dir scanners filename)
          (decide_encrypted_file-Keeps dir detection))

  inspect-Keeps :
      (profile : Profile) (dir : String) (scanners : List ScannerConfig)
      (transferred : Bool × String)
      → Keeps Inv (inspect env scan profile dir scanners transferred)
  unfolding inspect
  inspect-Keeps profile dir scanners (false, filename) = Keeps-pure tt
  inspect-Keeps profile dir scanners (true, filename) =
      Keeps-bind _ _ (exists-Keeps (late_of_safe safe) _) (λ there.
        Keeps-if there _ _ (on_detection-Keeps profile dir scanners filename _)
          (scan_file-Keeps profile dir scanners filename))

  pub transfer-Keeps : (dir : String) → Keeps Inv (transfer env scan dir)
  unfolding transfer all_forward
  transfer-Keeps dir =
      Keeps-if _ _ _ (run_fetch_stage-Keeps scan safe env dir)
        (Keeps-bind _ _ (t.update _ refl refl) (λ _. Keeps-pure _))

  with_scanners-Keeps :
      (profile : Profile) (scanners : List ScannerConfig)
      → Keeps Inv (with_scanners env scan profile scanners)
  unfolding with_scanners run_job all_forward
  with_scanners-Keeps profile [] = fail-Keeps scan.id safe _
  with_scanners-Keeps profile (s ∷ ss) =
      Keeps-bind _ _ (t.update _ refl refl)
        (λ _. Keeps-bind _ _ (transfer-Keeps _) (inspect-Keeps profile _ (s ∷ ss)))

  with_profile-Keeps : (found : Option Profile) → Keeps Inv (with_profile env scan found)
  unfolding with_profile get_profile_scanners
  with_profile-Keeps none = fail-Keeps scan.id safe _
  with_profile-Keeps (some profile) =
      Keeps-bind _ _ (query-Keeps _ t.connects) (with_scanners-Keeps profile)

  pub default-Keeps : Keeps Inv get_default_profile
  unfolding get_default_profile
  default-Keeps = query-Keeps _ t.connects

  or_default_profile-Keeps : (found : Option Profile) → Keeps Inv (or_default_profile found)
  unfolding or_default_profile
  or_default_profile-Keeps none = default-Keeps
  or_default_profile-Keeps (some profile) = Keeps-pure _

  profile_named-Keeps : (name : Option String) → Keeps Inv (profile_named name)
  unfolding profile_named get_profile
  profile_named-Keeps none = default-Keeps
  profile_named-Keeps (some profile_id) =
      Keeps-if _ _ _ default-Keeps
        (Keeps-bind _ _ (query-Keeps _ t.connects) or_default_profile-Keeps)

  pub resolve_profile-Keeps : Keeps Inv (resolve_profile scan)
  unfolding resolve_profile
  resolve_profile-Keeps = profile_named-Keeps _

  pub process_scan-Keeps : Keeps Inv (process_scan env scan)
  unfolding process_scan
  process_scan-Keeps = Keeps-bind _ _ resolve_profile-Keeps with_profile-Keeps

  pub process_one-Keeps : Keeps Inv (process_one env scan)
  unfolding process_one record_error all_forward
  process_one-Keeps =
      Keeps-try_except _ _ process_scan-Keeps
        (λ _. Keeps-try_except _ _ (t.update _ refl refl) (λ _. Keeps-pure tt))
