-- ===== src/Finish/Stages.antt =====
-- The stages that end a job, from a calm state: what they leave is a final status.
use safe_cloud.Prelude.{
  ℕ, String, List, [], ◌∷◌, Option, none, some, Bool, true, false, ◌≡◌, refl, is_empty,
  if◌then◌else◌, inl, inr,
}
use safe_cloud.Policy.{ScannerOutcome, AggregationDecision, EncryptedPolicyDecision, encrypted}
use safe_cloud.Policy.Order.{IsVerdict, aggregate_scan_results-IsVerdict}
use safe_cloud.Policy.Encrypted.{apply_encrypted_policy_exact}
use safe_cloud.Detection.{EncryptionDetection}
use safe_cloud.Exec.{Exec, pure, ◌>>=◌}
use safe_cloud.Exec.Triple.{
  Triple, Triple_of_Keeps, Triple-weaken, Triple-bind, Triple-gets, Triple-pure, Triple-if, Keeps,
}
use safe_cloud.Db.{
  Scan, ScannerConfig, Profile, World, Assignment, set_transfer_status, assign, assign_all,
  is_unknown, has_unknown, update_scan, get_encrypted_policies,
}
use safe_cloud.Scanner.{
  Env, RawResult, PlaybookResult, NextcloudHost, Playbook, done, failed, now, fail, refuse_fetch,
  after_fetch, fetch_from, run_fetch_stage, refuse_scan, after_scan, run_scan_stage,
  write_encrypted, decide_encrypted_file, write_verdict, conclude, reject_hash,
}
use safe_cloud.Tolerance.Writes.{
  all_late, Tolerates, safe_of_known, forward_of_known, late_of_safe, query-Keeps,
}
use safe_cloud.Tolerance.Cleanup.{cleanup_staging-Keeps, quarantine_staging-Keeps}
use safe_cloud.Tolerance.Stages.{run_and_clean-Keeps, delete_source-Keeps, cleanup_verdict-Keeps}
use safe_cloud.Tolerance.Job.{create_scan_results-Keeps}
use safe_cloud.Finish.Calm.{
  is_terminal, IsTerminal, Calm, Done, update_scan-Done, Calm-tolerant, Done-tolerant,
}

pub if-Triple :
    {A : Type 0} {P E : World → Type 0} {Q : A → World → Type 0} (b : Bool) (m n : Exec World A)
    → Triple P m Q E
    → Triple P n Q E
    → Triple P (if b then m else n) Q E
if-Triple b m n t u = Triple-if b m n (λ _. t) (λ _. u)

module _ (id : String) where
  -- What keeps the final status, where a later exception leaves a calm state at least.
  pub after_verdict :
      {A : Type 0} {m : World → _}
      → Keeps (Done id) m
      → Triple (Done id) m (λ (a : A). λ w. Done id w) Calm
  after_verdict k = Triple-weaken (λ w h. h) (λ a w h. h) (λ w h. h.0) (Triple_of_Keeps k)

  pub verdict :
      (fields : List Assignment)
      → has_unknown fields ≡ false
      → is_empty fields ≡ false
      → ((r : Scan) → IsTerminal (assign_all fields r))
      → Triple Calm (update_scan id fields) (λ _. Done id) Calm
  verdict fields k e ends =
      Triple-weaken (λ w h. h) (λ a w h. h) (λ w h. absurd h) (update_scan-Done id fields k e ends)

  pub write :
      (fields : List Assignment)
      → has_unknown fields ≡ false
      → is_empty fields ≡ false
      → Triple Calm (update_scan id fields) (λ _. Calm) Calm
  write fields k e = Triple_of_Keeps ((Calm-tolerant id).update fields (rw k refl) e)

  pub fail-Done : (message : String) → Triple Calm (fail id message) (λ _. Done id) Calm
  unfolding fail now assign_all assign has_unknown is_unknown
  fail-Done message =
      Triple-bind {Q = λ _. Calm} _ _ (Triple-gets _ (λ w h. h))
        (λ at. verdict _ refl refl (λ r. refl))

module _ (scan : Scan) (env : Env) where
  -- After the fetch stage: a file to go on with, or a verdict.
  abbrev pub Fetched : Bool × String → World → Type 0
  Fetched (true, filename) w = Calm w
  Fetched (false, filename) w = Done scan.id w

  abbrev pub Scanned : Option (PlaybookResult × ℕ) → World → Type 0
  Scanned none w = Done scan.id w
  Scanned (some answer) w = Calm w

  Calm-late : Tolerates all_late scan.id Calm
  Calm-late = late_of_safe (safe_of_known (Calm-tolerant scan.id))

  Done-late : Tolerates all_late scan.id (Done scan.id)
  Done-late = Done-tolerant scan.id

  refuse_fetch-Done :
      (dir status message : String)
      → Triple Calm (refuse_fetch env scan dir status message) Fetched Calm
  unfolding refuse_fetch has_unknown is_unknown
  refuse_fetch-Done dir status message = Triple-bind _ _ (write scan.id _ refl refl) (λ _.
      Triple-bind _ _ (fail-Done scan.id message) (λ _.
        Triple-bind _ _ (after_verdict scan.id (cleanup_staging-Keeps Done-late env dir true))
          (λ _. Triple-pure _ (λ w h. h))))

  pub transferred-Fetched :
      (filename : String)
      → Triple Calm
          (update_scan scan.id (set_transfer_status "OK" ∷ []) >>= λ _. pure (true, filename))
          Fetched
          Calm
  unfolding has_unknown is_unknown
  transferred-Fetched filename =
      Triple-bind _ _ (write scan.id _ refl refl) (λ _. Triple-pure _ (λ w h. h))

  after_fetch-Fetched :
      (dir : String) (answer : Playbook)
      → Triple Calm (after_fetch env scan dir answer) Fetched Calm
  unfolding after_fetch
  after_fetch-Fetched dir (failed reason) = refuse_fetch-Done dir _ _
  after_fetch-Fetched dir (done result ms) =
      search (if-Triple, refuse_fetch-Done, transferred-Fetched)

  fetch_from-Fetched :
      (dir : String) (found : Option NextcloudHost)
      → Triple Calm (fetch_from env scan dir found) Fetched Calm
  unfolding fetch_from
  fetch_from-Fetched dir none = refuse_fetch-Done dir _ _
  fetch_from-Fetched dir (some host) =
      Triple-bind _ _ (Triple_of_Keeps (run_and_clean-Keeps scan Calm-late env _ _))
        (after_fetch-Fetched dir)

  pub run_fetch_stage-Fetched :
      (dir : String) → Triple Calm (run_fetch_stage env scan dir) Fetched Calm
  unfolding run_fetch_stage
  run_fetch_stage-Fetched dir = fetch_from-Fetched dir _

  refuse_scan-Done :
      (dir : String) (ms : Option ℕ) (message : String)
      → Triple Calm (refuse_scan env scan dir ms message) Scanned Calm
  unfolding refuse_scan has_unknown is_unknown
  refuse_scan-Done dir none message = Triple-bind _ _ (write scan.id _ refl refl) (λ _.
      Triple-bind _ _ (fail-Done scan.id message) (λ _.
        Triple-bind _ _ (after_verdict scan.id (cleanup_staging-Keeps Done-late env dir true))
          (λ _. Triple-pure _ (λ w h. h))))
  refuse_scan-Done dir (some ms) message = Triple-bind _ _ (write scan.id _ refl refl) (λ _.
      Triple-bind _ _ (fail-Done scan.id message) (λ _.
        Triple-bind _ _ (after_verdict scan.id (cleanup_staging-Keeps Done-late env dir true))
          (λ _. Triple-pure _ (λ w h. h))))

  pure-Scanned : (answer : PlaybookResult × ℕ) → Triple Calm (pure (some answer)) Scanned Calm
  pure-Scanned answer = Triple-pure _ (λ w h. h)

  after_scan-Scanned :
      (dir : String) (answer : Playbook) → Triple Calm (after_scan env scan dir answer) Scanned Calm
  unfolding after_scan
  after_scan-Scanned dir (failed reason) = refuse_scan-Done dir _ _
  after_scan-Scanned dir (done result ms) = search (if-Triple, refuse_scan-Done, pure-Scanned)

  pub run_scan_stage-Scanned :
      (dir filename : String) (scanners : List ScannerConfig)
      → Triple Calm (run_scan_stage env scan dir filename scanners) Scanned Calm
  unfolding run_scan_stage
  run_scan_stage-Scanned dir filename scanners =
      Triple-bind _ _ (Triple_of_Keeps (run_and_clean-Keeps scan Calm-late env _ _))
        (after_scan-Scanned dir)

  write_verdict-Done :
      (profile : Profile) (outcomes : List ScannerOutcome) (d : AggregationDecision)
      → IsVerdict d
      → Triple Calm (write_verdict env scan profile outcomes d) (λ _. Done scan.id) Calm
  unfolding write_verdict now assign_all assign has_unknown is_unknown
  write_verdict-Done profile outcomes d v =
      Triple-bind {Q = λ _. Calm} _ _ (Triple-gets _ (λ w h. h))
        (λ at. verdict scan.id _ refl refl (λ r. final v))
    where
      final : IsVerdict d → is_terminal d.status ≡ true
      final (inl (s, _)) = rw s refl
      final (inr (inl s, _)) = rw s refl
      final (inr (inr s, _)) = rw s refl

  pub conclude-Done :
      (profile : Profile) (dir : String) (scanners : List ScannerConfig) (raw : List RawResult)
      (hash : String) (ms : ℕ)
      → Triple Calm (conclude env scan profile dir scanners raw hash ms) (λ _. Done scan.id) Calm
  unfolding conclude has_unknown is_unknown
  conclude-Done profile dir scanners raw hash ms = Triple-bind _ _ (write scan.id _ refl refl) (λ _.
      Triple-bind _ _
        (Triple_of_Keeps (
          create_scan_results-Keeps scan env (forward_of_known (Calm-tolerant scan.id))
            (λ w s r h. h) scanners raw))
        (λ _.
          Triple-bind _ _ (write_verdict-Done profile _ _ (aggregate_scan_results-IsVerdict _ _))
            (λ _.
              Triple-bind _ _
                (after_verdict scan.id (delete_source-Keeps scan Done-late env _ hash))
                (λ _. after_verdict scan.id (cleanup_verdict-Keeps scan Done-late env dir _)))))

  pub reject_hash-Done :
      (dir : String) (ms : ℕ) → Triple Calm (reject_hash env scan dir ms) (λ _. Done scan.id) Calm
  unfolding reject_hash has_unknown is_unknown
  reject_hash-Done dir ms = Triple-bind _ _ (write scan.id _ refl refl) (λ _.
      Triple-bind _ _ (fail-Done scan.id _)
        (λ _. after_verdict scan.id (cleanup_staging-Keeps Done-late env dir true)))

  write_encrypted-Done :
      (policy : String) (d : EncryptedPolicyDecision)
      → d.status ≡ encrypted
      → Triple Calm (write_encrypted env scan policy d) (λ _. Done scan.id) Calm
  unfolding write_encrypted now assign_all assign has_unknown is_unknown
  write_encrypted-Done policy d s =
      Triple-bind {Q = λ _. Calm} _ _ (Triple-gets _ (λ w h. h))
        (λ at. verdict scan.id _ refl refl (λ r. rw s refl))

  pub decide_encrypted_file-Done :
      (dir : String) (detection : EncryptionDetection)
      → Triple Calm (decide_encrypted_file env scan dir detection) (λ _. Done scan.id) Calm
  unfolding decide_encrypted_file get_encrypted_policies
  decide_encrypted_file-Done dir detection =
      Triple-bind _ _ (Triple_of_Keeps (query-Keeps _ (Calm-tolerant scan.id).connects))
        (λ policies.
          Triple-bind _ _ (write_encrypted-Done _ _ (apply_encrypted_policy_exact _ _).0) (λ _.
            Triple-if _ _ _
              (λ _. after_verdict scan.id (quarantine_staging-Keeps Done-late env dir))
              (λ _. after_verdict scan.id (cleanup_staging-Keeps Done-late env dir true))))
