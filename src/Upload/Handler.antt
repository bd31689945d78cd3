-- ===== src/Upload/Handler.antt =====
-- `upload_file` of api/routes_upload.py, from the client's permission to the answer.
use safe_cloud.Prelude.{
  ℕ, String, List, [], ◌∷◌, Option, none, some, Bool, true, false, not, ◌==◌, if◌then◌else◌, ◌+++◌,
  length, select, text_or, strip, extension_of,
}
use safe_cloud.Exec.{Exec, Result, os_error, pure, raise, modify, try_except, when, ◌>>=◌, ◌>>◌}
use safe_cloud.Detection.{FileContent, detect_mime_type}
use safe_cloud.Db.{ScanInfo, Scan, World, Db, connect, create_scan, update_scan, set_staging_path}
use safe_cloud.Scanner.{Env, remove_tree, join_path}
use safe_cloud.RateLimit.{upload_rate_limit_ok}
use safe_cloud.Api.{Server}
use safe_cloud.Upload.{
  Client, SystemSettings, has_permission, Streamed, too_large, empty, staged,
  stream_upload_to_staging, ProfileChoice, chosen, restricted, unknown_or_disabled,
  resolve_profile_for_client, Objection, check_file_type_policy,
}

-- The form, the file's reads, and what is drawn for the call.
pub record UploadCall : Type 0 where
  pub client : Client
  pub username : String
  pub user_id : Option String
  pub email : Option String
  pub department : Option String
  pub source : Option String
  pub profile : Option String
  pub filename : Option String
  pub chunks : List (List ℕ)
  pub now : ℕ
  pub request_id : String
  pub row_id : String

-- The server's settings, those of the table `system_settings`, and what is taken from Python's
-- library: the digests, what a file's content is to the parsers, and `mimetypes.guess_type`.
pub record UploadEnv : Type 0 where
  pub env : Env
  pub minute : ℕ
  pub settings : SystemSettings
  pub rate_limit_uploads_per_minute : Option ℕ
  pub sha256_hex : List ℕ → String
  pub md5_hex : List ℕ → String
  pub content_of : List ℕ → FileContent
  pub guess_type : String → Option String

pub data UploadAnswer : Type 0 where
  failed : ℕ → String → UploadAnswer
  objected : Objection → UploadAnswer
  profile_refused : ProfileChoice → UploadAnswer
  queued : String → UploadAnswer

abbrev put_world : {A : Type 0} → Server → Result A × World → Result A × Server
put_world s (r, w) = (r, record s { world = w })

unfoldable pub on_world : {A : Type 0} → Db A → Exec Server A
on_world m s = put_world s (m s.world)

-- `file.filename or "upload.bin"`
abbrev pub filename_of : UploadCall → String
filename_of call = text_or call.filename "upload.bin"

abbrev pub source_of : UploadCall → String
source_of call = strip (text_or call.source (text_or (some call.client.name) "api"))

abbrev pub none_if_empty : String → Option String
none_if_empty s = if s == "" then none else some s

module _ (up : UploadEnv) where
  abbrev pub tmp_dir : UploadCall → String
  tmp_dir call = up.env.settings.staging_base +++ "/upload-tmp-" +++ call.request_id

  abbrev pub tmp_path : UploadCall → String
  tmp_path call = tmp_dir call +++ "/upload.bin"

  unfoldable pub remove_tmp : UploadCall → Db (Unit {0})
  remove_tmp call =
      when (up.env.rmtree_ok (tmp_dir call))
        (modify (λ w. record w { paths = remove_tree (tmp_dir call) w.paths }))

  abbrev pub max_size : ℕ
  max_size = elim up.settings.max_file_size_bytes [
    | none ↦ up.env.settings.max_file_size
    | some n ↦ n
  ]

  abbrev pub mime_of : UploadCall → List ℕ → String
  mime_of call bytes = detect_mime_type (up.content_of bytes) (up.guess_type (filename_of call))

  unfoldable pub info_of_upload : UploadCall → Option String → List ℕ → ScanInfo
  info_of_upload call profile_id bytes = record {
    request_id = call.request_id;
    username = strip call.username;
    nextcloud_host = "";
    nextcloud_file_path = "";
    relative_path = filename_of call;
    filename = filename_of call;
    original_size = length bytes;
    sha256 = up.sha256_hex bytes;
    user_id = call.user_id;
    email = call.email;
    department = call.department;
    source_application = source_of call;
    api_client_id = some call.client.id;
    mime_type = some (mime_of call bytes);
    md5 = some (up.md5_hex bytes);
    original_filename = some (filename_of call);
    extension = none_if_empty (extension_of (filename_of call));
    scanner_profile_id = profile_id;
    transfer_mode = "direct_upload";
    parent_scan_id = none;
  }

  abbrev pub scan_dir : String → String
  scan_dir scan_id = up.env.settings.staging_base +++ "/" +++ scan_id

  abbrev pub final_path : String → UploadCall → String
  final_path scan_id call = join_path (scan_dir scan_id +++ "/input") (filename_of call)

  -- The file is moved, the temporary directory removed, and the row learns where the file is.
  unfoldable pub place : String → UploadCall → Db (Unit {0})
  place scan_id call =
      if up.env.move_ok (tmp_path call)
      then (modify (λ w. record w {
        paths = final_path scan_id call ∷ select (λ p. not (p == tmp_path call)) w.paths;
      })
          >> remove_tmp call
          >> update_scan scan_id (set_staging_path (scan_dir scan_id) ∷ []))
      else raise os_error

  unfoldable pub finalize_staged_upload : String → UploadCall → Db (Unit {0})
  finalize_staged_upload scan_id call =
      if up.env.mkdir_ok (scan_dir scan_id +++ "/input")
      then (modify (λ w. record w { paths = (scan_dir scan_id +++ "/input") ∷ w.paths })
          >> place scan_id call)
      else raise os_error

  -- `except Exception`: the row could not be created.
  unfoldable pub create_row : UploadCall → ScanInfo → Db (Option Scan)
  create_row call info =
      try_except (create_scan call.row_id info >>= λ row. pure (some row))
        (λ x. remove_tmp call >> pure none)

  unfoldable pub finish_upload : UploadCall → Option Scan → Db UploadAnswer
  finish_upload call none = pure (failed 503 "Scanner unavailable")
  finish_upload call (some row) = do finalize_staged_upload row.id call; pure (queued row.id)

  unfoldable pub store_upload :
      UploadCall → Option String → List ℕ → Option Objection → Db UploadAnswer
  store_upload call profile_id bytes (some objection) = do
    remove_tmp call
    pure (objected objection)
  store_upload call profile_id bytes none =
      create_row call (info_of_upload call profile_id bytes) >>= finish_upload call

  -- The temporary directory holds the file where all of it was read, and is gone otherwise.
  unfoldable pub after_stream : UploadCall → Option String → Streamed → Db UploadAnswer
  after_stream call profile_id too_large = do
    remove_tmp call
    pure (failed 413 "File exceeds maximum allowed size")
  after_stream call profile_id empty = do
    remove_tmp call
    pure (failed 400 "Uploaded file is empty")
  after_stream call profile_id (staged bytes) =
      store_upload call profile_id bytes
        (check_file_type_policy up.settings (extension_of (filename_of call)) (mime_of call bytes))

  unfoldable pub receive : UploadCall → Option String → Db UploadAnswer
  receive call profile_id =
      if up.env.mkdir_ok (tmp_dir call)
      then (modify (λ w. record w { paths = tmp_path call ∷ tmp_dir call ∷ w.paths })
          >> after_stream call profile_id (stream_upload_to_staging max_size call.chunks))
      else raise os_error

  unfoldable pub with_choice : UploadCall → ProfileChoice → Db UploadAnswer
  with_choice call (chosen profile_id) = receive call profile_id
  with_choice call (restricted c p r) = pure (profile_refused (restricted c p r))
  with_choice call (unknown_or_disabled r) = pure (profile_refused (unknown_or_disabled r))

  -- The settings are read once more; then the profile is chosen and the file is read.
  unfoldable pub accept_upload : UploadCall → Db UploadAnswer
  accept_upload call = do
    connect
    choice ← resolve_profile_for_client call.client call.profile
    with_choice call choice

  unfoldable pub within_limit : UploadCall → Bool → Exec Server UploadAnswer
  within_limit call false = pure (failed 429 "Upload rate limit exceeded")
  within_limit call true =
      if strip call.username == ""
      then pure (failed 400 "username is required")
      else on_world (accept_upload call)

  unfoldable pub count_upload : UploadCall → Exec Server Bool
  count_upload call s =
      let (granted, hits) =
        upload_rate_limit_ok up.minute call.now up.rate_limit_uploads_per_minute call.client.id
          s.hits in
      pure granted (record s { hits = hits })

  unfoldable pub upload_file : UploadCall → Exec Server UploadAnswer
  upload_file call =
      if has_permission call.client "scan.upload"
      then (on_world connect >> (count_upload call >>= within_limit call))
      else pure (failed 403 "scan.upload")
