-- ===== src/Upload.antt =====
-- api/routes_upload.py and `require_permission` of api/auth_apikey.py: the API that takes a file's
-- bytes. Log lines are not modelled.
use Prim.Native.Char.{code}
use Prim.Native.String
pub mod Streaming
pub mod Access
pub mod Handler
pub mod Choice
pub mod Outcomes
pub mod Stored
pub mod Accepted
pub mod Poll
use mathlib.Core.List.{reverse}
use safe_cloud.Prelude.{
  ℕ, String, List, [], ◌∷◌, ◌++◌, Option, none, some, Bool, true, false, not, ◌==◌, ◌&&◌, ◌||◌, ltb,
  leb, eqb, contains, if◌then◌else◌, ◌+++◌, length, is_empty, map, text_or, select,
}
use safe_cloud.Policy.{ScanStatus, clean, infected, error, encrypted, cleanup_failed}
use safe_cloud.Exec.{pure, modify, ◌>>=◌, ◌>>◌, try_except}
use safe_cloud.Db.{
  ScanInfo, ErrorMessage, Scan, ScanResult, Profile, World, Db, set_staging_path, get_profile,
  get_scan, find_profile, create_scan, update_scan, query,
}
use safe_cloud.Scanner.{Env, remove_tree, join_path}
use safe_cloud.Api.{failure_message}

-- A row of `api_clients`.
pub record Client : Type 0 where
  pub id : String
  pub name : String
  pub permissions : List String
  pub scanner_profile_id : Option String

pub record SystemSettings : Type 0 where
  pub max_file_size_bytes : Option ℕ
  pub allowed_extensions : List String
  pub blocked_extensions : List String
  pub allowed_mime_types : List String
  pub blocked_mime_types : List String

unfoldable pub has_permission : Client → String → Bool
has_permission client permission = contains permission client.permissions

-- What `stream_upload_to_staging` ends with: `UploadTooLarge`, `UploadEmpty`, or the bytes written.
pub data Streamed : Type 0 where
  too_large empty : Streamed
  staged : List ℕ → Streamed

unfoldable pub close_stream : List ℕ → Streamed
close_stream written = if is_empty written then empty else staged written

-- The loop, from the bytes written so far; each element is what a read returns.
unfoldable pub write_chunks : ℕ → List ℕ → List (List ℕ) → Streamed
write_chunks max_size written [] = close_stream written
write_chunks max_size written (chunk ∷ chunks) =
    let rest = write_chunks max_size (written ++ chunk) chunks in
    if is_empty chunk
    then close_stream written
    else if ltb max_size (length (written ++ chunk))
    then too_large
    else rest

unfoldable pub stream_upload_to_staging : ℕ → List (List ℕ) → Streamed
stream_upload_to_staging max_size chunks = write_chunks max_size [] chunks

-- The profile that a scan of the client's will have, or why it may have none.
pub data ProfileChoice : Type 0 where
  chosen : Option String → ProfileChoice
  restricted : (client pinned requested : String) → ProfileChoice
  unknown_or_disabled : String → ProfileChoice

unfoldable pub check_pinned : Client → String → String → Option Profile → ProfileChoice
check_pinned client pinned_id slug none = chosen (some pinned_id)
check_pinned client pinned_id slug (some pinned) =
    if pinned.slug == slug then chosen (some pinned_id) else restricted client.name pinned.slug slug

unfoldable pub check_requested : String → Option Profile → ProfileChoice
check_requested slug none = unknown_or_disabled slug
check_requested slug (some p) = if p.enabled then chosen (some p.id) else unknown_or_disabled slug

-- The texts are `None` or empty where nothing is pinned or requested.
unfoldable pub resolve_profile_for_client : Client → Option String → Db ProfileChoice
resolve_profile_for_client client requested =
    let pinned_id = text_or client.scanner_profile_id "" in
    let slug = text_or requested "" in
    if pinned_id == ""
    then (if slug == ""
        then pure (chosen none)
        else (query (λ w. find_profile (λ p. p.slug == slug) w.profiles) >>= λ found.
            pure (check_requested slug found)))
    else if slug == ""
    then pure (chosen (some pinned_id))
    else (get_profile pinned_id >>= λ found. pure (check_pinned client pinned_id slug found))

-- Why a type of file is refused: a message for each check, over the extension or the MIME type.
pub data Objection : Type 0 where
  extension_blocked extension_not_allowed mime_type_blocked mime_type_not_allowed :
      String → Objection

-- `none` is no objection.
unfoldable pub check_file_type_policy : SystemSettings → String → String → Option Objection
check_file_type_policy s extension mime_type =
    if not (extension == "") && contains extension s.blocked_extensions
    then some (extension_blocked extension)
    else if not (is_empty s.allowed_extensions) && not (contains extension s.allowed_extensions)
    then some (extension_not_allowed extension)
    else if contains mime_type s.blocked_mime_types
    then some (mime_type_blocked mime_type)
    else if not (is_empty s.allowed_mime_types) && not (contains mime_type s.allowed_mime_types)
    then some (mime_type_not_allowed mime_type)
    else none

-- What a read of a scan ends with.
pub data Read : Type 0 where
  invalid_id not_found : Read
  visible : Scan → Read

-- `str(value)` of a column that may be null.
abbrev pub id_text : Option String → String
id_text none = "None"
id_text (some id) = id

unfoldable pub owned : Client → Option Scan → Read
owned client none = not_found
owned client (some r) =
    if not (contains "scan.read_all" client.permissions)
      && not (id_text r.info.api_client_id == client.id)
    then not_found
    else visible r

-- `is_uuid` stands for `uuid.UUID(scan_id)` not raising.
unfoldable pub get_scan_with_ownership_check : (is_uuid : String → Bool) → String → Client → Db Read
get_scan_with_ownership_check is_uuid scan_id client =
    if is_uuid scan_id
    then (get_scan scan_id >>= λ found. pure (owned client found))
    else pure invalid_id

pub record ScannerSummary : Type 0 where
  pub name : String
  pub status : String
  pub threat : Option String

pub record UploadBody : Type 0 where
  pub scan_id : String
  pub status : ScanStatus
  pub filename : String
  pub username : String
  pub sha256 : String
  pub size : ℕ
  pub allowed : Option Bool
  pub scanners : List ScannerSummary
  pub message : Option ErrorMessage

abbrev results_of : String → World → List ScanResult
results_of scan_id w = select (λ r. r.scan_id == scan_id) w.results

abbrev summary : ScanResult → ScannerSummary
summary r = record { name = r.scanner_name; status = r.status; threat = r.threat }

-- `bool(row.get("allowed"))`
abbrev is_true : Option Bool → Bool
is_true none = false
is_true (some b) = b

abbrev upload_body : Scan → Option Bool → List ScannerSummary → Option ErrorMessage → UploadBody
upload_body row allowed scanners message = record {
  scan_id = row.id;
  status = row.status;
  filename = row.info.filename;
  username = row.info.username;
  sha256 = row.sha256;
  size = row.info.original_size;
  allowed = allowed;
  scanners = scanners;
  message = message;
}

abbrev upload_body_for : World → Scan → ScanStatus → UploadBody
upload_body_for w row clean = upload_body row (some true) (map summary (results_of row.id w)) none
upload_body_for w row infected =
    upload_body row (some false) (map summary (results_of row.id w)) none
upload_body_for w row encrypted = upload_body row (some (is_true row.allowed)) [] none
upload_body_for w row error =
    upload_body row (some false) [] (some (failure_message row.error_message))
upload_body_for w row cleanup_failed =
    upload_body row (some false) [] (some (failure_message row.error_message))
upload_body_for w row _ = upload_body row none [] none

-- The list `threats` of an infected file is not modelled.
unfoldable pub build_upload_response : World → Scan → UploadBody
build_upload_response w row = upload_body_for w row row.status
