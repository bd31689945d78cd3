-- ===== src/Scanner/Staging.antt =====
-- api/scanner.py: clean-up and quarantine of the staging directory, and `_fail`.
use safe_cloud.Prelude.{
  ℕ, String, [], ◌∷◌, Option, none, some, Bool, true, false, ◌&&◌, if◌then◌else◌, ◌+++◌, contains,
  rstrip_slash,
}
use safe_cloud.Policy.{ScanStatus, clean, infected, error, encrypted, cleanup_failed}
use safe_cloud.Exec.{pure, gets, modify, ◌>>=◌, ◌>>◌, when}
use safe_cloud.Db.{
  text, Scan, Db, set_status, set_allowed, set_error_message, set_completed_at, set_cleanup_status,
  set_staging_path, update_scan, get_scan,
}
use safe_cloud.Scanner.Outside.{Env, remove_tree}

unfoldable pub now : Db ℕ
now = gets (λ w. w.clock)

-- `Path(dir).exists()`
unfoldable pub exists : String → Db Bool
exists dir = gets (λ w. contains dir w.paths)

unfoldable pub fail : String → String → Db (Unit {0})
fail scan_id message = do
  at ← now
  update_scan scan_id (
      set_status error
      ∷ set_allowed false
      ∷ set_error_message (text message)
      ∷ set_completed_at at
      ∷ [])

-- The status is one of CLEAN, INFECTED, ERROR and ENCRYPTED.
abbrev pub is_final : ScanStatus → Bool
is_final clean = true
is_final infected = true
is_final error = true
is_final encrypted = true
is_final _ = false

unfoldable pub overlay : String → Option Scan → Db (Unit {0})
overlay scan_id none = pure tt
overlay scan_id (some current) =
    when (is_final current.status) (update_scan scan_id (set_status cleanup_failed ∷ []))

unfoldable pub mark_cleanup_failed_if_terminal : String → Db (Unit {0})
mark_cleanup_failed_if_terminal scan_id = do current ← get_scan scan_id; overlay scan_id current

unfoldable pub cleanup_not_done : String → Db (Unit {0})
cleanup_not_done scan_id = do
  update_scan scan_id (set_cleanup_status "FAILED" ∷ [])
  mark_cleanup_failed_if_terminal scan_id

module _ (env : Env) where
  unfoldable pub remove_staging : String → String → Bool → Db (Unit {0})
  remove_staging scan_id staging_dir mark_status =
      if env.rmtree_ok staging_dir
      then (do
        modify (λ w. record w { paths = remove_tree staging_dir w.paths })
        when mark_status (update_scan scan_id (set_cleanup_status "OK" ∷ [])))
      else when mark_status (cleanup_not_done scan_id)

  unfoldable pub cleanup_staging : String → String → Bool → Db (Unit {0})
  cleanup_staging scan_id staging_dir mark_status = do
    there ← exists staging_dir
    (if there
        then remove_staging scan_id staging_dir mark_status
        else when mark_status (update_scan scan_id (set_cleanup_status "OK" ∷ [])))

  abbrev pub quarantine_dir : String → String
  quarantine_dir scan_id = rstrip_slash env.settings.quarantine_base +++ "/" +++ scan_id

  -- `chmod` comes after the move, and may raise `OSError` as the others may.
  unfoldable pub after_move : String → Db (Unit {0})
  after_move scan_id =
      if env.chmod_ok (quarantine_dir scan_id)
      then update_scan scan_id
          (set_cleanup_status "OK" ∷ set_staging_path (quarantine_dir scan_id) ∷ [])
      else cleanup_not_done scan_id

  unfoldable pub move_to_quarantine : String → String → Db (Unit {0})
  move_to_quarantine scan_id staging_dir =
      if env.mkdir_ok env.settings.quarantine_base && env.move_ok staging_dir
      then (modify
            (λ w. record w { paths = quarantine_dir scan_id ∷ remove_tree staging_dir w.paths })
          >> after_move scan_id)
      else cleanup_not_done scan_id

  unfoldable pub quarantine_staging : String → String → Db (Unit {0})
  quarantine_staging scan_id staging_dir = do
    there ← exists staging_dir
    (if there
        then move_to_quarantine scan_id staging_dir
        else update_scan scan_id (set_cleanup_status "OK" ∷ []))

  unfoldable pub cleanup_or_quarantine_infected_staging : String → String → Db (Unit {0})
  cleanup_or_quarantine_infected_staging scan_id staging_dir =
      if env.settings.retain_infected_copy
      then quarantine_staging scan_id staging_dir
      else cleanup_staging scan_id staging_dir true
