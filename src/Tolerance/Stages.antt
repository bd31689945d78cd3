-- ===== src/Tolerance/Stages.antt =====
-- The Ansible stages keep what bears safe writes.
use safe_cloud.Prelude.{ℕ, String, List, [], ◌∷◌, Option, none, some, true, refl}
use safe_cloud.Exec.Triple.{
  keeps_rules, Keeps, Keeps-modify, Keeps-bind, Keeps-if, Keeps-pure, Keeps-gets, Keeps-raise,
  Keeps-try_except,
}
use safe_cloud.Db.{update_scan, set_transfer_status, Scan, World, PlaybookRun, ScannerConfig}
use safe_cloud.Scanner.{
  delete_from, delete_if, delete_source, cleanup_by, cleanup_verdict, now, fail, Env, NextcloudHost,
  Playbook, done, failed, answered, run_playbook, cleanup_run, run_and_clean, refuse_fetch,
  after_fetch, fetch_from, run_fetch_stage, refuse_scan, after_scan, run_scan_stage, after_delete,
  delete_infected_source,
}
use safe_cloud.Tolerance.Writes.{all_safe, all_late, Tolerates, late_of_safe}
use safe_cloud.Policy.{ScanStatus, infected, AggregationDecision}
use safe_cloud.Tolerance.Cleanup.{cleanup_infected-Keeps, cleanup_staging-Keeps}

module _ (id : String) {Inv : World → Type 0} (t : Tolerates all_safe id Inv) where
  pub now-Keeps : Keeps Inv now
  unfolding now
  now-Keeps = search keeps_rules

  pub fail-Keeps : (message : String) → Keeps Inv (fail id message)
  unfolding fail all_safe
  fail-Keeps message = Keeps-bind _ _ now-Keeps (λ at. t.update _ refl refl)

module _ (scan : Scan) {Inv : World → Type 0} (t : Tolerates all_late scan.id Inv) (env : Env) where
  answered-Keeps : (playbook : Option Playbook) → Keeps Inv (answered playbook)
  unfolding answered
  answered-Keeps none = Keeps-raise _
  answered-Keeps (some playbook) = Keeps-pure _

  run_playbook-Keeps :
      (run_id : String) (run : PlaybookRun) → Keeps Inv (run_playbook env run_id run)
  unfolding run_playbook
  run_playbook-Keeps run_id run =
      Keeps-if _ _ _
        (Keeps-bind _ _ (Keeps-modify _ (λ w h. t.outside w _ _ h)) (λ _.
          Keeps-bind _ _ (Keeps-gets _) (λ answer.
            Keeps-bind _ _ (Keeps-modify _ (λ w h. t.outside w _ _ h)) (λ _. answered-Keeps _))))
        (Keeps-raise _)

  cleanup_run-Keeps : (run_id : String) → Keeps Inv (cleanup_run env run_id)
  unfolding cleanup_run
  cleanup_run-Keeps run_id =
      Keeps-if _ _ _ (Keeps-modify _ (λ w h. t.outside w _ _ h)) (Keeps-pure tt)

  pub run_and_clean-Keeps :
      (run_id : String) (run : PlaybookRun) → Keeps Inv (run_and_clean env run_id run)
  unfolding run_and_clean
  run_and_clean-Keeps run_id run =
      Keeps-bind _ _
        (Keeps-try_except _ _ (run_playbook-Keeps run_id run)
          (λ x. Keeps-bind _ _ (cleanup_run-Keeps run_id) (λ _. Keeps-raise x)))
        (λ answer. Keeps-bind _ _ (cleanup_run-Keeps run_id) (λ _. Keeps-pure answer))

  after_delete-Keeps : (answer : Playbook) → Keeps Inv (after_delete env scan.id answer)
  unfolding after_delete all_late
  after_delete-Keeps (failed reason) = t.update _ refl refl
  after_delete-Keeps (done result ms) =
      Keeps-if _ _ _ (Keeps-pure tt) (Keeps-if _ _ _ (Keeps-pure tt) (t.update _ refl refl))

  pub delete_infected_source-Keeps :
      (host : NextcloudHost) (hash : String) → Keeps Inv (delete_infected_source env scan host hash)
  unfolding delete_infected_source
  delete_infected_source-Keeps host hash =
      Keeps-bind _ _ (run_and_clean-Keeps _ _) after_delete-Keeps

  delete_from-Keeps :
      (hash : String) (found : Option NextcloudHost) → Keeps Inv (delete_from env scan hash found)
  unfolding delete_from
  delete_from-Keeps hash none = Keeps-pure tt
  delete_from-Keeps hash (some host) = delete_infected_source-Keeps host hash

  delete_if-Keeps : (hash : String) (s : ScanStatus) → Keeps Inv (delete_if env scan hash s)
  unfolding delete_if
  delete_if-Keeps hash infected = Keeps-if _ _ _ (delete_from-Keeps hash _) (Keeps-pure tt)
  delete_if-Keeps hash _ = Keeps-pure tt

  pub delete_source-Keeps :
      (decision : AggregationDecision) (hash : String)
      → Keeps Inv (delete_source env scan decision hash)
  unfolding delete_source
  delete_source-Keeps decision hash = delete_if-Keeps hash _

  cleanup_by-Keeps : (dir : String) (s : ScanStatus) → Keeps Inv (cleanup_by env scan dir s)
  unfolding cleanup_by
  cleanup_by-Keeps dir infected = cleanup_infected-Keeps t env dir
  cleanup_by-Keeps dir _ = cleanup_staging-Keeps t env dir true

  pub cleanup_verdict-Keeps :
      (dir : String) (decision : AggregationDecision)
      → Keeps Inv (cleanup_verdict env scan dir decision)
  unfolding cleanup_verdict
  cleanup_verdict-Keeps dir decision = cleanup_by-Keeps dir _

module _ (scan : Scan) {Inv : World → Type 0} (t : Tolerates all_safe scan.id Inv) (env : Env) where
  run-Keeps : (run_id : String) (run : PlaybookRun) → Keeps Inv (run_and_clean env run_id run)
  run-Keeps = run_and_clean-Keeps scan (late_of_safe t) env

  refuse_fetch-Keeps :
      (dir status message : String) → Keeps Inv (refuse_fetch env scan dir status message)
  unfolding refuse_fetch all_safe
  refuse_fetch-Keeps dir status message = Keeps-bind _ _ (t.update _ refl refl) (λ _.
      Keeps-bind _ _ (fail-Keeps scan.id t message) (λ _.
        Keeps-bind _ _ (cleanup_staging-Keeps (late_of_safe t) env dir true) (λ _. Keeps-pure _)))

  transferred-Keeps : Keeps Inv (update_scan scan.id (set_transfer_status "OK" ∷ []))
  unfolding all_safe
  transferred-Keeps = t.update _ refl refl

  after_fetch-Keeps :
      (dir : String) (answer : Playbook) → Keeps Inv (after_fetch env scan dir answer)
  unfolding after_fetch all_safe
  after_fetch-Keeps dir (failed reason) = refuse_fetch-Keeps dir _ _
  after_fetch-Keeps dir (done result ms) =
      search (keeps_rules, refuse_fetch-Keeps, transferred-Keeps)

  fetch_from-Keeps :
      (dir : String) (found : Option NextcloudHost) → Keeps Inv (fetch_from env scan dir found)
  unfolding fetch_from
  fetch_from-Keeps dir none = refuse_fetch-Keeps dir _ _
  fetch_from-Keeps dir (some host) = Keeps-bind _ _ (run-Keeps _ _) (after_fetch-Keeps dir)

  pub run_fetch_stage-Keeps : (dir : String) → Keeps Inv (run_fetch_stage env scan dir)
  unfolding run_fetch_stage
  run_fetch_stage-Keeps dir = fetch_from-Keeps dir _

  refuse_scan-Keeps :
      (dir : String) (ms : Option ℕ) (message : String)
      → Keeps Inv (refuse_scan env scan dir ms message)
  unfolding refuse_scan all_safe
  refuse_scan-Keeps dir none message = Keeps-bind _ _ (t.update _ refl refl) (λ _.
      Keeps-bind _ _ (fail-Keeps scan.id t message) (λ _.
        Keeps-bind _ _ (cleanup_staging-Keeps (late_of_safe t) env dir true) (λ _. Keeps-pure _)))
  refuse_scan-Keeps dir (some ms) message = Keeps-bind _ _ (t.update _ refl refl) (λ _.
      Keeps-bind _ _ (fail-Keeps scan.id t message) (λ _.
        Keeps-bind _ _ (cleanup_staging-Keeps (late_of_safe t) env dir true) (λ _. Keeps-pure _)))

  after_scan-Keeps : (dir : String) (answer : Playbook) → Keeps Inv (after_scan env scan dir answer)
  unfolding after_scan
  after_scan-Keeps dir (failed reason) = refuse_scan-Keeps dir _ _
  after_scan-Keeps dir (done result ms) = Keeps-if _ _ _ (refuse_scan-Keeps dir _ _) (Keeps-pure _)

  pub run_scan_stage-Keeps :
      (dir filename : String) (scanners : List ScannerConfig)
      → Keeps Inv (run_scan_stage env scan dir filename scanners)
  unfolding run_scan_stage
  run_scan_stage-Keeps dir filename scanners = Keeps-bind _ _ (run-Keeps _ _) (after_scan-Keeps dir)
