-- ===== src/Api.antt =====
-- api/main.py: `submit_scan`, with what the middleware, api/models.py and api/security.py check before
-- it, and the body that `get_scan_status` answers with. Log lines are not modelled.
pub mod Submission
pub mod Answers
pub mod Gate
pub mod Screening
use safe_cloud.Prelude.{
  ℕ, String, List, [], ◌∷◌, Option, none, some, Bool, true, false, ◌==◌, ltb, contains, lookup,
  if◌then◌else◌, ◌+++◌,
}
use safe_cloud.Policy.{ScanStatus, clean, infected, error, cleanup_failed, encrypted}
use safe_cloud.Exec.{Result, ok, raised}
use safe_cloud.Db.{ScanInfo, ErrorMessage, text, Scan, World, create_scan}
use safe_cloud.Scanner.{NextcloudHost, Settings}
use safe_cloud.RateLimit.{Hits, allow_key}
use safe_cloud.Paths.{
  split_slash, normalize_and_validate_path, validate_username, resolve_nextcloud_host,
}

-- A check's outcome: the status code and message of the refusal, or what it passes on.
pub data Checked (A : Type 0) : Type 0 where
  refuse : ℕ → String → Checked A
  pass : A → Checked A

-- `ScanRequest`, as its validators leave it.
pub record ScanRequest : Type 0 where
  pub file_path : String
  pub relative_path : String
  pub username : String
  pub hostname : String
  pub sha256 : String
  pub size : ℕ

pub data Response : Type 0 where
  rejected : ℕ → String → Response
  accepted : String → Response

-- What the handlers of one API process share.
pub record Server : Type 0 where
  pub world : World
  pub hits : Hits

-- A call: the header's credentials, the client's address, and what is drawn for it (the time, the
-- request's id and the row's id).
pub record Call : Type 0 where
  pub credentials : Option String
  pub client_ip : String
  pub now : ℕ
  pub request_id : String
  pub row_id : String

pub record ApiSettings : Type 0 where
  pub tokens : List String
  pub minute : ℕ
  pub rate_limit_per_minute : ℕ
  pub fingerprint : String → String

-- A token that is not ASCII, for which `hmac.compare_digest` raises, is not modelled.
unfoldable pub verify_bearer_token : ApiSettings → Option String → Checked String
verify_bearer_token api none = refuse 401 "Missing bearer token"
verify_bearer_token api (some supplied) =
    if supplied == ""
    then refuse 401 "Missing bearer token"
    else if contains supplied api.tokens
    then pass (api.fingerprint supplied)
    else refuse 401 "Invalid bearer token"

-- `path.rsplit("/", 1)[-1]`
last_of : List String → String
last_of [] = ""
last_of (p ∷ []) = p
last_of (p ∷ q ∷ ps) = last_of (q ∷ ps)

unfoldable pub info_of : Call → ScanRequest → String → ScanInfo
unfolding last_of
info_of call payload path = record {
  request_id = call.request_id;
  username = payload.username;
  nextcloud_host = payload.hostname;
  nextcloud_file_path = path;
  relative_path = payload.relative_path;
  filename = last_of (split_slash path);
  original_size = payload.size;
  sha256 = payload.sha256;
  user_id = none;
  email = none;
  department = none;
  source_application = "nextcloud";
  api_client_id = none;
  mime_type = none;
  md5 = none;
  original_filename = none;
  extension = none;
  scanner_profile_id = none;
  transfer_mode = "ansible_fetch";
  parent_scan_id = none;
}

unfoldable pub check_path : Call → ScanRequest → NextcloudHost → Checked ScanInfo
check_path call payload host =
    elim (normalize_and_validate_path payload.file_path host.allowed_root) [
      | none ↦ refuse 403 "File path is not permitted"
      | some path ↦ pass (info_of call payload path)
    ]

unfoldable pub check_request : Settings → Call → ScanRequest → Checked ScanInfo
check_request settings call payload = elim (validate_username payload.username) [
  | none ↦ refuse 400 "Invalid username"
  | some username ↦
      if ltb settings.max_file_size payload.size
      then refuse 400 "File exceeds maximum allowed size"
      else elim (resolve_nextcloud_host settings.nextcloud_hosts_map payload.hostname) [
        | none ↦ refuse 403 "Host is not permitted"
        | some host ↦ check_path call payload host
      ]
]

unfoldable pub answer_created : Result Scan → Response
answer_created (ok row) = accepted row.id
answer_created (raised x) = rejected 503 "Scanner unavailable"

unfoldable pub store : String → Checked ScanInfo → World → Response × World
store row_id (refuse code message) w = (rejected code message, w)
store row_id (pass info) w =
    let (result, v) = create_scan row_id info w in (answer_created result, v)

unfoldable pub after_auth :
    Settings → ApiSettings → Call → ScanRequest → Checked String → Server → Response × Server
after_auth settings api call payload (refuse code message) s = (rejected code message, s)
after_auth settings api call payload (pass fingerprint) s =
    let (granted, hits) =
      allow_key api.minute api.rate_limit_per_minute call.now
        (fingerprint +++ ":" +++ call.client_ip) s.hits in
    if granted
    then (let (response, w) = store call.row_id (check_request settings call payload) s.world in
        (response, record { world = w; hits = hits }))
    else (rejected 429 "Rate limit exceeded", record { world = s.world; hits = hits })

unfoldable pub submit_scan :
    Settings → ApiSettings → Call → ScanRequest → Server → Response × Server
submit_scan settings api call payload s =
    after_auth settings api call payload (verify_bearer_token api call.credentials) s

pub record StatusBody : Type 0 where
  pub scan_id : String
  pub status : ScanStatus
  pub allowed : Option Bool
  pub sha256 : Option String
  pub filename : Option String
  pub threat : Option String
  pub message : Option ErrorMessage

-- `row.get("error_message") or "Scan failed"`
unfoldable pub failure_message : Option ErrorMessage → ErrorMessage
failure_message none = text "Scan failed"
failure_message (some (text s)) = if s == "" then text "Scan failed" else text s
failure_message (some (ErrorMessage.source_deletion_failed e)) =
    ErrorMessage.source_deletion_failed e

abbrev plain_body : Scan → Option Bool → StatusBody
plain_body row allowed = record {
  scan_id = row.id;
  status = row.status;
  allowed = allowed;
  sha256 = none;
  filename = none;
  threat = none;
  message = none;
}

abbrev body_for : Scan → ScanStatus → StatusBody
body_for row clean = record (plain_body row (some true)) {
  sha256 = some row.sha256;
  filename = some row.info.filename;
}
body_for row infected = record (plain_body row (some false)) {
  sha256 = some row.sha256;
  threat = row.threat;
  filename = some row.info.filename;
}
body_for row error = record (plain_body row (some false)) {
  message = some (failure_message row.error_message);
}
body_for row cleanup_failed = record (plain_body row (some false)) {
  message = some (failure_message row.error_message);
}
body_for row _ = plain_body row none

unfoldable pub scan_status_response : Scan → StatusBody
scan_status_response row = body_for row row.status
