-- ===== src/Scanner/Ansible.antt =====
-- api/ansible_runner.py: `run_playbook` and `cleanup_run`.
use safe_cloud.Prelude.{ℕ, String, Option, none, some, [], ◌∷◌, ◌++◌, if◌then◌else◌, ◌+++◌}
use safe_cloud.Exec.{os_error, other_error, pure, raise, gets, modify, ◌>>=◌, ◌>>◌, when}
use safe_cloud.Db.{
  AnsibleError, timed_out, no_result_file, not_an_object, binary_not_found, unparsable, exit_code,
  PlaybookRun, Db,
}
use safe_cloud.Scanner.Outside.{
  PlaybookResult, ResultFile, absent, not_object, unreadable, object, timeout_expired, broken,
  file_not_found, exited, AnsibleAnswer, Env, remove_tree,
}

-- What `run_playbook` returns, with the time that passed, or the error that it raises.
pub data Playbook : Type 0 where
  done : PlaybookResult → ℕ → Playbook
  failed : AnsibleError → Playbook

-- `proc.returncode != 0` without a result file is an error of its own.
unfoldable pub read_result : ℕ → ℕ → ResultFile → Playbook
read_result ms ℕ.zero absent = failed no_result_file
read_result ms (ℕ.suc code) absent = failed (exit_code (ℕ.suc code))
read_result ms code not_object = failed not_an_object
read_result ms code (unreadable reason) = failed (unparsable reason)
read_result ms code (object result) = done result ms

-- `none` is an exception other than `AnsibleExecutionError`.
unfoldable pub playbook_of : AnsibleAnswer → Option Playbook
playbook_of a = elim a.process [
  | timeout_expired ↦ some (failed timed_out)
  | broken ↦ none
  | file_not_found reason ↦ some (failed (binary_not_found reason))
  | exited code file ↦ some (read_result a.elapsed_ms code file)
]

unfoldable pub answered : Option Playbook → Db Playbook
answered none = raise other_error
answered (some playbook) = pure playbook

module _ (env : Env) where
  abbrev pub run_dir : String → String
  run_dir run_id = env.settings.runs_dir +++ "/" +++ run_id

  -- The run's directory is made, and may not be; the call of Ansible is recorded.
  unfoldable pub run_playbook : String → PlaybookRun → Db Playbook
  run_playbook run_id run =
      if env.mkdir_ok (run_dir run_id)
      then (do
        modify (λ w. record w { paths = run_dir run_id ∷ w.paths; runs = w.runs ++ run ∷ [] })
        answer ← gets (λ w. env.ansible run w.paths)
        modify (λ w. record w { paths = answer.paths })
        answered (playbook_of answer))
      else raise os_error

  -- `shutil.rmtree(run_dir, ignore_errors=True)`
  unfoldable pub cleanup_run : String → Db (Unit {0})
  cleanup_run run_id =
      when (env.rmtree_ok (run_dir run_id))
        (modify (λ w. record w { paths = remove_tree (run_dir run_id) w.paths }))
