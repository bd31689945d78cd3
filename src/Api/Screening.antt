-- ===== src/Api/Screening.antt =====
-- What a scan that the endpoint has accepted was checked for before `submit_scan` saw it.
use safe_cloud.Prelude.{
  ℕ, String, List, [], ◌∷◌, ◌++◌, Option, none, some, Bool, true, false, ◌≡◌, subst, ap, refl, All,
  arith, eqb, if◌then◌else◌, length, contains, codes, chomp, starts_with, lower_text,
}
use safe_cloud.Db.{ScanInfo, World, new_scan}
use safe_cloud.Scanner.{Settings}
use safe_cloud.Paths.{split_slash}
use safe_cloud.Api.{
  Checked, refuse, pass, ScanRequest, Response, rejected, accepted, Server, Call, ApiSettings,
  verify_bearer_token, submit_scan,
}
use safe_cloud.Api.Submission.{IsPermitted, Created, submit_scan-Created}
use safe_cloud.Validation.{every}
use safe_cloud.Validation.Characters.{every-All}
use safe_cloud.Admin.{ℤ}
use safe_cloud.Api.Gate.{
  has_code, is_hex, matches_sha256, has_length, is_relative, is_valid_request, lowered,
  validate_request, is_too_big, is_exempt, dispatch, with_payload, with_token, post_scan,
}

-- A newline that `$` lets through makes the text longer.
chomp-same : (cs : List ℕ) → length (chomp cs) ≡ length cs → chomp cs ≡ cs
unfolding chomp
chomp-same [] h = refl
chomp-same (c ∷ []) h = go (eqb c 10) h
  where
    go : (b : Bool) → length (if b then [] else c ∷ []) ≡ 1 → (if b then [] else c ∷ []) ≡ (c ∷ [])
    go true h = absurd (ground arith)
    go false h = refl
chomp-same (c ∷ d ∷ cs) h = ap (λ xs. c ∷ xs) (chomp-same (d ∷ cs) (ground arith))

abbrev pub IsDigest : String → Type 0
IsDigest s = (length (codes s) ≡ 64) × All (λ c. is_hex c ≡ true) (codes s)

-- What of the body goes into the row.
abbrev pub IsScreened : ScanRequest → ScanInfo → Type 0
IsScreened raw info =
    IsDigest raw.sha256
    × (info.sha256 ≡ lower_text raw.sha256)
    × (info.relative_path ≡ raw.relative_path)
    × (has_code 0 (codes raw.relative_path) ≡ false)
    × (starts_with raw.relative_path "/" ≡ false)
    × (contains ".." (split_slash raw.relative_path) ≡ false)

digest : (s : String) → has_length 64 64 s ≡ true → matches_sha256 (codes s) ≡ true → IsDigest s
unfolding has_length matches_sha256
digest s l m =
    (size, every-All is_hex (codes s) (subst (λ cs. every is_hex cs ≡ true) same (ground arith)))
  where
    size : length (codes s) ≡ 64
    size = ground arith

    same : chomp (codes s) ≡ codes s
    same = chomp-same (codes s) (ground (arith, size))

screened :
    (settings : Settings) (raw : ScanRequest) (info : ScanInfo)
    → is_valid_request raw ≡ true
    → IsPermitted settings (lowered raw) info
    → IsScreened raw info
unfolding is_valid_request is_relative lowered
screened settings raw info v p = (
  digest raw.sha256 (ground arith) (ground arith),
  p.3,
  p.4,
  ground arith,
  ground arith,
  ground arith,
)

-- What an answer of the endpoint says of the table: an accepted scan has added one row behind the
-- others, which is permitted and screened, and whose body was announced within the limit; every other
-- answer has added none.
abbrev pub Screened :
    (String → Option ℤ)
    → ℕ
    → Settings
    → Call
    → Option String
    → ScanRequest
    → World
    → Response
    → World
    → Type 0
Screened int_of max settings call content_length raw before (rejected code message) after =
    after.scans ≡ before.scans
Screened int_of max settings call content_length raw before (accepted scan_id) after =
    (is_too_big int_of max content_length ≡ false)
    × (scan_id ≡ call.row_id)
    × ((info : ScanInfo) × IsPermitted settings (lowered raw) info
        × IsScreened raw info
        × (after.scans ≡ before.scans ++ new_scan call.row_id info before.clock ∷ []))

module _ (int_of : String → Option ℤ) (max : ℕ) (settings : Settings) (api : ApiSettings)
    (call : Call) (content_length : Option String) (raw : ScanRequest) (s : Server) where
  abbrev Answer : Response × Server → Type 0
  Answer (response, t) =
      Screened int_of max settings call content_length raw s.world response t.world

  Created-Screened :
      (response : Response) (t : Server)
      → is_valid_request raw ≡ true
      → is_too_big int_of max content_length ≡ false
      → Created settings call (lowered raw) s.world response t.world
      → Answer (response, t)
  Created-Screened (rejected code message) t v b h = h
  Created-Screened (accepted scan_id) t v b (e, (info, p, rows)) =
      (b, e, (info, p, screened settings raw info v p, rows))

  with_token-Screened :
      (checked : Checked String)
      → is_too_big int_of max content_length ≡ false
      → Answer (with_token settings api call raw checked s)
  unfolding with_token with_payload validate_request
  with_token-Screened (refuse code message) b = refl
  with_token-Screened (pass fingerprint) b = go (is_valid_request raw) refl
    where
      go :
          (v : Bool)
          → is_valid_request raw ≡ v
          → Answer (with_payload settings api call (if v then some (lowered raw) else none) s)
      go true e =
          Created-Screened (submit_scan settings api call (lowered raw) s).0
            (submit_scan settings api call (lowered raw) s).1 e b
            (submit_scan-Created settings api call (lowered raw) s)
      go false e = refl

-- Whatever the headers, the body and the state of the server, the database's failures included: if a request to POST /api/v1/scan is accepted, its Content-Length is missing, no number, or within the limit, and it has added one row, which `submit_scan` permits, whose hash is the lower case of a text of exactly 64 hexadecimal digits, without the newline that the expression would let through, and whose relative path is the one that was sent, is not absolute and has no NUL and no part `..`; every other answer leaves the rows of `scans` as they were.
pub post_scan-Screened :
    (int_of : String → Option ℤ) (max : ℕ) (settings : Settings) (api : ApiSettings) (call : Call)
    (content_length : Option String) (raw : ScanRequest) (s : Server)
    → Screened int_of max settings call content_length raw s.world
        (post_scan int_of max settings api call content_length raw s).0
        (post_scan int_of max settings api call content_length raw s).1.world
unfolding post_scan dispatch is_exempt
post_scan-Screened int_of max settings api call content_length raw s =
    go (is_too_big int_of max content_length) refl
  where
    next : Response × Server
    next = with_token settings api call raw (verify_bearer_token api call.credentials) s

    go :
        (b : Bool)
        → is_too_big int_of max content_length ≡ b
        → Answer int_of max settings api call content_length raw s
            (if b then (rejected 413 "Request body too large", s) else next)
    go true e = refl
    go false e = with_token-Screened int_of max settings api call content_length raw s _ e
