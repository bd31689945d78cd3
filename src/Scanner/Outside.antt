-- ===== src/Scanner/Outside.antt =====
-- The settings that the pipeline reads (api/config.py), and what it is told from outside.
use safe_cloud.Prelude.{
  ℕ, String, List, Option, Bool, ◌==◌, ◌||◌, starts_with, ◌+++◌, select, not, if◌then◌else◌,
}
use safe_cloud.Detection.{FileContent}
use safe_cloud.Db.{PlaybookRun}

pub record NextcloudHost : Type 0 where
  pub ansible_host : String
  pub allowed_root : String

pub record Settings : Type 0 where
  pub staging_base : String
  pub quarantine_base : String
  pub runs_dir : String
  pub retain_infected_copy : Bool
  pub max_file_size : ℕ
  pub staging_max_lifetime_seconds : ℕ
  pub nextcloud_hosts_map : List (String × NextcloudHost)

-- One entry of the `scan_results` of an Ansible result; `none` is a missing key.
pub record RawResult : Type 0 where
  pub scanner_name : Option String
  pub scanner_slug : Option String
  pub scanner_version : Option String
  pub status : Option String
  pub threat : Option String
  pub message : Option String

-- The object in an Ansible result file, by the keys that the pipeline reads.
pub record PlaybookResult : Type 0 where
  pub stage : Option String
  pub message : Option String
  pub actual_sha256 : Option String
  pub filename : Option String
  pub scan_results : List RawResult
  pub deletion_status : Option String

pub data ResultFile : Type 0 where
  absent not_object : ResultFile
  unreadable : String → ResultFile
  object : PlaybookResult → ResultFile

-- How `subprocess.run` ends; `broken` is any other exception, of the call or of reading its result, as
-- for a file that is not UTF-8.
pub data Process : Type 0 where
  timeout_expired broken : Process
  file_not_found : String → Process
  exited : ℕ → ResultFile → Process

-- Ansible's answer to a run: the process, the milliseconds that pass, and the paths that exist
-- afterwards.
pub record AnsibleAnswer : Type 0 where
  pub process : Process
  pub elapsed_ms : ℕ
  pub paths : List String

pub record Env : Type 0 where
  pub settings : Settings
  pub content : String → FileContent
  pub ansible : PlaybookRun → List String → AnsibleAnswer
  pub mkdir_ok : String → Bool
  pub rmtree_ok : String → Bool
  pub move_ok : String → Bool
  pub chmod_ok : String → Bool

-- `path` is `dir`, or lies below it.
abbrev pub is_under : String → String → Bool
is_under dir path = path == dir || starts_with path (dir +++ "/")

unfoldable pub remove_tree : String → List String → List String
remove_tree dir paths = select (λ p. not (is_under dir p)) paths

-- `Path(dir) / name`: an absolute name replaces the directory.
unfoldable pub join_path : String → String → String
join_path dir name = if starts_with name "/" then name else dir +++ "/" +++ name
