-- ===== src/Api/Gate.antt =====
-- What stands before `submit_scan`: `MaxBodySizeMiddleware` of api/main.py and the validators of
-- `ScanRequest` in api/models.py.
use safe_cloud.Prelude.{
  ℕ, String, List, [], ◌∷◌, Option, none, some, Bool, false, not, ◌&&◌, ◌||◌, ltb, leb, eqb,
  if◌then◌else◌, length, contains, codes, chomp, starts_with, lower_text,
}
use safe_cloud.Scanner.{Settings}
use safe_cloud.Paths.{split_slash}
use safe_cloud.Api.{
  Checked, refuse, pass, ScanRequest, Response, rejected, Server, Call, ApiSettings,
  verify_bearer_token, submit_scan,
}
use safe_cloud.Validation.{is_digit, every}
use safe_cloud.Admin.{ℤ}

-- `c in text`, on code points.
unfoldable pub has_code : ℕ → List ℕ → Bool
has_code c [] = false
has_code c (d ∷ ds) = eqb d c || has_code c ds

unfoldable pub is_hex : ℕ → Bool
is_hex c = (leb b'a' c && leb c b'f') || (leb b'A' c && leb c b'F') || is_digit c

-- `_SHA256_RE.match`
unfoldable pub matches_sha256 : List ℕ → Bool
matches_sha256 cs = every is_hex (chomp cs) && eqb (length (chomp cs)) 64

-- A field's least and greatest length.
unfoldable pub has_length : ℕ → ℕ → String → Bool
has_length min max s = leb min (length (codes s)) && leb (length (codes s)) max

unfoldable pub is_clean_field : String → Bool
is_clean_field v = not (has_code 0 (codes v) || has_code 10 (codes v) || has_code 13 (codes v))

unfoldable pub is_relative : String → Bool
is_relative v =
    not (has_code 0 (codes v)) && not (starts_with v "/") && not (contains ".." (split_slash v))

-- The lengths of the fields, then their validators; a size is a natural number here.
unfoldable pub is_valid_request : ScanRequest → Bool
is_valid_request r =
    has_length 1 4096 r.file_path
    && has_length 1 4096 r.relative_path
    && has_length 1 255 r.username
    && has_length 1 255 r.hostname
    && has_length 64 64 r.sha256
    && matches_sha256 (codes r.sha256)
    && not (has_code 0 (codes r.file_path))
    && is_relative r.relative_path
    && is_clean_field r.username
    && is_clean_field r.hostname

unfoldable pub lowered : ScanRequest → ScanRequest
lowered r = record r { sha256 = lower_text r.sha256 }

unfoldable pub validate_request : ScanRequest → Option ScanRequest
validate_request r = if is_valid_request r then some (lowered r) else none

unfoldable pub is_exempt : String → Bool
is_exempt path = starts_with path "/api/v1/files/upload" || starts_with path "/upload"

abbrev pub exceeds : ℕ → Option ℤ → Bool
exceeds max none = false
exceeds max (some (ℤ.negsuc n)) = false
exceeds max (some (ℤ.pos n)) = ltb max n

-- `int_of` is Python's `int`, `none` where it raises `ValueError`.
unfoldable pub is_too_big : (String → Option ℤ) → ℕ → Option String → Bool
is_too_big int_of max none = false
is_too_big int_of max (some content_length) = exceeds max (int_of content_length)

-- The middleware before a handler that answers with a `Response`.
unfoldable pub dispatch :
    (String → Option ℤ)
    → (max_request_body_bytes : ℕ) → (path : String) → (content_length : Option String)
    → (Server → Response × Server)
    → Server
    → Response × Server
dispatch int_of max path content_length call_next s =
    if is_exempt path
    then call_next s
    else if is_too_big int_of max content_length
    then (rejected 413 "Request body too large", s)
    else call_next s

unfoldable pub with_payload :
    Settings → ApiSettings → Call → Option ScanRequest → Server → Response × Server
with_payload settings api call none s = (rejected 400 "Invalid request payload", s)
with_payload settings api call (some payload) s = submit_scan settings api call payload s

unfoldable pub with_token :
    Settings → ApiSettings → Call → ScanRequest → Checked String → Server → Response × Server
with_token settings api call raw (refuse code message) s = (rejected code message, s)
with_token settings api call raw (pass fingerprint) s =
    with_payload settings api call (validate_request raw) s

-- POST /api/v1/scan: the token is a dependency, which comes before the body's validators.
unfoldable pub post_scan :
    (String → Option ℤ)
    → ℕ
    → Settings
    → ApiSettings
    → Call
    → Option String
    → ScanRequest
    → Server
    → Response × Server
post_scan int_of max settings api call content_length raw s =
    dispatch int_of max "/api/v1/scan" content_length
      (with_token settings api call raw (verify_bearer_token api call.credentials)) s
