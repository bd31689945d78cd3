-- ===== src/Scanner/Stages.antt =====
-- api/scanner.py: the stages of a job around the Ansible runs. A failing stage has written the
-- error and cleaned up before it returns.
use safe_cloud.Prelude.{
  ℕ, String, List, [], ◌∷◌, Option, none, some, Bool, true, false, ◌==◌, not, if◌then◌else◌, ◌+++◌,
  codes_eq, lower, lookup,
}
use safe_cloud.Exec.{pure, raise, ◌>>=◌, ◌>>◌, try_except}
use safe_cloud.Db.{
  source_deletion_failed, text, Scan, ScannerConfig, Profile, PlaybookRun, fetch_run, scan_run,
  delete_run, Db, set_transfer_status, set_scan_status_detail, set_duration_ms, set_error_message,
  update_scan, get_profile, get_default_profile,
}
use safe_cloud.Scanner.Outside.{NextcloudHost, PlaybookResult, Env}
use safe_cloud.Scanner.Ansible.{Playbook, done, failed, run_playbook, cleanup_run}
use safe_cloud.Scanner.Staging.{fail, cleanup_staging}

abbrev or_default : Option String → String → String
or_default none d = d
or_default (some s) d = s

unfoldable pub or_default_profile : Option Profile → Db (Option Profile)
or_default_profile none = get_default_profile
or_default_profile (some profile) = pure (some profile)

unfoldable pub profile_named : Option String → Db (Option Profile)
profile_named none = get_default_profile
profile_named (some profile_id) =
    if profile_id == ""
    then get_default_profile
    else (get_profile profile_id >>= or_default_profile)

-- The profile that the scan names, if there is one, or else the default profile.
unfoldable pub resolve_profile : Scan → Db (Option Profile)
resolve_profile scan = profile_named scan.info.scanner_profile_id

-- `not actual or actual.lower() != expected.lower()`
unfoldable pub hash_matches : Option String → String → Bool
hash_matches none expected = false
hash_matches (some actual) expected =
    if actual == "" then false else codes_eq (lower actual) (lower expected)

abbrev is_precondition_failure : PlaybookResult → Bool
is_precondition_failure r = elim r.stage [ none ↦ false | some s ↦ s == "precondition_failed" ]

module _ (env : Env) where
  -- `run_playbook` with the `finally: cleanup_run(run_id)` around it. Where Ansible failed, the source
  -- makes the writes of its `except` before this clean-up; the two touch nothing in common.
  unfoldable pub run_and_clean : String → PlaybookRun → Db Playbook
  run_and_clean run_id run = do
    answer ← try_except (run_playbook env run_id run) (λ x. cleanup_run env run_id >> raise x)
    cleanup_run env run_id
    pure answer

  -- The three writes of every refusal of the fetch stage.
  unfoldable pub refuse_fetch : Scan → String → String → String → Db (Bool × String)
  refuse_fetch scan staging_dir transfer_status message = do
    update_scan scan.id
        (set_transfer_status transfer_status ∷ set_scan_status_detail "SKIPPED" ∷ [])
    fail scan.id message
    cleanup_staging env scan.id staging_dir true
    pure (false, scan.info.filename)

  unfoldable pub after_fetch : Scan → String → Playbook → Db (Bool × String)
  after_fetch scan staging_dir (failed reason) =
      refuse_fetch scan staging_dir "FAILED" "Scanner unavailable"
  after_fetch scan staging_dir (done result ms) =
      if is_precondition_failure result
      then refuse_fetch scan staging_dir "FAILED" (or_default result.message "Transfer failed")
      else if not (hash_matches result.actual_sha256 scan.sha256)
      then refuse_fetch scan staging_dir "OK"
          "SHA256 mismatch after transfer - refusing to trust this file"
      else (update_scan scan.id (set_transfer_status "OK" ∷ [])
          >> pure (true, or_default result.filename scan.info.filename))

  abbrev pub fetch_run_of : Scan → NextcloudHost → String → PlaybookRun
  fetch_run_of scan host staging_dir =
      fetch_run (scan.info.request_id +++ "-fetch") scan.info.nextcloud_host
        scan.info.nextcloud_file_path scan.sha256 scan.info.original_size env.settings.max_file_size
        host.allowed_root staging_dir

  unfoldable pub fetch_from : Scan → String → Option NextcloudHost → Db (Bool × String)
  fetch_from scan staging_dir none =
      refuse_fetch scan staging_dir "FAILED" "Host is no longer in the configured allowlist"
  fetch_from scan staging_dir (some host) = do
    answer ← run_and_clean (scan.info.request_id +++ "-fetch") (fetch_run_of scan host staging_dir)
    after_fetch scan staging_dir answer

  unfoldable pub run_fetch_stage : Scan → String → Db (Bool × String)
  run_fetch_stage scan staging_dir =
      fetch_from scan staging_dir (lookup scan.info.nextcloud_host env.settings.nextcloud_hosts_map)

  unfoldable pub refuse_scan : Scan → String → Option ℕ → String → Db (Option (PlaybookResult × ℕ))
  refuse_scan scan staging_dir none message = do
    update_scan scan.id (set_scan_status_detail "FAILED" ∷ [])
    fail scan.id message
    cleanup_staging env scan.id staging_dir true
    pure none
  refuse_scan scan staging_dir (some ms) message = do
    update_scan scan.id (set_scan_status_detail "FAILED" ∷ set_duration_ms (some ms) ∷ [])
    fail scan.id message
    cleanup_staging env scan.id staging_dir true
    pure none

  unfoldable pub after_scan : Scan → String → Playbook → Db (Option (PlaybookResult × ℕ))
  after_scan scan staging_dir (failed reason) =
      refuse_scan scan staging_dir none "Scanner unavailable"
  after_scan scan staging_dir (done result ms) =
      if is_precondition_failure result
      then refuse_scan scan staging_dir (some ms) (or_default result.message "Scan failed")
      else pure (some (result, ms))

  -- `none` is the source's `ok = False`.
  unfoldable pub run_scan_stage :
      Scan → String → String → List ScannerConfig → Db (Option (PlaybookResult × ℕ))
  run_scan_stage scan staging_dir filename scanners = do
    answer ← run_and_clean (scan.info.request_id +++ "-scan") (
        scan_run (scan.info.request_id +++ "-scan") "scanner" staging_dir filename scan.sha256
          scanners)
    after_scan scan staging_dir answer

  unfoldable pub after_delete : String → Playbook → Db (Unit {0})
  after_delete scan_id (failed reason) =
      update_scan scan_id (set_error_message (source_deletion_failed reason) ∷ [])
  after_delete scan_id (done result ms) =
      let status = or_default result.deletion_status "ABORTED" in
      if status == "DELETED"
      then pure tt
      else if status == "ALREADY_GONE"
      then pure tt
      else update_scan scan_id (
          set_error_message
            (text ("Source deletion aborted: " +++ or_default result.message "unknown"))
          ∷ [])

  unfoldable pub delete_infected_source : Scan → NextcloudHost → String → Db (Unit {0})
  delete_infected_source scan host scanned_sha256 = do
    answer ← run_and_clean (scan.info.request_id +++ "-delete") (
        delete_run (scan.info.request_id +++ "-delete") scan.info.nextcloud_host
          scan.info.nextcloud_file_path scanned_sha256 host.allowed_root)
    after_delete scan.id answer
