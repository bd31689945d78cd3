-- ===== src/Api/Submission.antt =====
-- The rows that api/main.py's `submit_scan` creates.
use safe_cloud.Prelude.{
  String, List, [], ◌∷◌, ◌++◌, Option, none, some, Bool, Bool-cases, true, false, inl, inr, ◌≡◌,
  ◌≤◌, refl, arith, ltb, lookup, ◌+++◌,
}
use safe_cloud.Exec.{pure, raise, gets, modify, ◌>>=◌}
use safe_cloud.Db.{ScanInfo, World, new_scan, create_scan, connect, execute}
use safe_cloud.Scanner.{NextcloudHost, Settings}
use safe_cloud.RateLimit.{allow_key}
use safe_cloud.Paths.{
  normpath, matches_name, validate_username, resolve_nextcloud_host, normalize_and_validate_path,
}
use safe_cloud.Paths.Containment.{IsContained, normalize_and_validate_path-IsContained}
use safe_cloud.Api.{
  Checked, refuse, pass, ScanRequest, Response, rejected, accepted, Server, Call, ApiSettings,
  verify_bearer_token, info_of, check_path, check_request, answer_created, store, after_auth,
  submit_scan,
}

-- What is checked of a row's data: the user's name, the size, and that the path lies under the
-- root of the host, which is a configured one.
abbrev pub IsPermitted : Settings → ScanRequest → ScanInfo → Type 0
IsPermitted settings payload info =
    (matches_name info.username ≡ true)
    × (info.original_size ≤ settings.max_file_size)
    × ((host : NextcloudHost) × (lookup info.nextcloud_host settings.nextcloud_hosts_map
          ≡ some host)
        × IsContained (normpath host.allowed_root) info.nextcloud_file_path)
    × (info.sha256 ≡ payload.sha256)
    × (info.relative_path ≡ payload.relative_path)

abbrev Permitted : Settings → ScanRequest → Checked ScanInfo → Type 0
Permitted settings payload (refuse code message) = Unit
Permitted settings payload (pass info) = IsPermitted settings payload info

module _ (settings : Settings) (call : Call) (payload : ScanRequest) where
  check_path-Permitted :
      (host : NextcloudHost)
      → matches_name payload.username ≡ true
      → payload.size ≤ settings.max_file_size
      → lookup payload.hostname settings.nextcloud_hosts_map ≡ some host
      → Permitted settings payload (check_path call payload host)
  unfolding check_path info_of
  check_path-Permitted host u l m = go _ refl
    where
      contained :
          (path : String)
          → normalize_and_validate_path payload.file_path host.allowed_root ≡ some path
          → IsContained (normpath host.allowed_root) path
      contained path e =
          let (_, _, inside) = normalize_and_validate_path-IsContained _ _ path e in inside

      go :
          (found : Option String)
          → normalize_and_validate_path payload.file_path host.allowed_root ≡ found
          → Permitted settings payload (elim found [
            | none ↦ refuse 403 "File path is not permitted"
            | some path ↦ pass (info_of call payload path)
          ])
      go none e = tt
      go (some path) e = (u, l, (host, m, contained path e), refl, refl)

  check_host-Permitted :
      (found : Option NextcloudHost)
      → resolve_nextcloud_host settings.nextcloud_hosts_map payload.hostname ≡ found
      → matches_name payload.username ≡ true
      → payload.size ≤ settings.max_file_size
      → Permitted settings payload (elim found [
        | none ↦ refuse 403 "Host is not permitted"
        | some host ↦ check_path call payload host
      ])
  unfolding resolve_nextcloud_host
  check_host-Permitted none e u l = tt
  check_host-Permitted (some host) e u l = check_path-Permitted host u l (ground arith)

  check_request-Permitted : Permitted settings payload (check_request settings call payload)
  unfolding check_request validate_username
  check_request-Permitted = elim (Bool-cases (matches_name payload.username)) [
    | inr e ↦ rw (e, check_request, validate_username) tt
    | inl e ↦ elim (Bool-cases (ltb settings.max_file_size payload.size)) [
      | inl big ↦ rw (e, big, check_request, validate_username) tt
      | inr small ↦
          rw (e, small, check_request, validate_username)
            (check_host-Permitted _ refl e (ground arith))
    ]
  ]

-- What the rows of `scans` are after a response, by its kind.
abbrev pub Created : Settings → Call → ScanRequest → World → Response → World → Type 0
Created settings call payload before (rejected code message) after = after.scans ≡ before.scans
Created settings call payload before (accepted scan_id) after =
    (scan_id ≡ call.row_id)
    × ((info : ScanInfo) × IsPermitted settings payload info
        × (after.scans ≡ before.scans ++ new_scan call.row_id info before.clock ∷ []))

module _ (settings : Settings) (call : Call) (payload : ScanRequest) where
  store-Created :
      (checked : Checked ScanInfo) (w : World)
      → Permitted settings payload checked
      → Created settings call payload w
          (store call.row_id checked w).0
          (store call.row_id checked w).1
  unfolding store create_scan answer_created ◌>>=◌ gets execute connect modify pure raise new_scan
  store-Created (refuse code message) w h = refl
  store-Created (pass info) w h = go w.faults refl
    where
      go :
          (fs : List Bool)
          → w.faults ≡ fs
          → Created settings call payload w
              (store call.row_id (pass info) w).0
              (store call.row_id (pass info) w).1
      go [] e = rw e (refl, (info, h, refl))
      go (true ∷ fs) e = rw e refl
      go (false ∷ fs) e = rw e (refl, (info, h, refl))

  after_auth-Created :
      (api : ApiSettings) (checked : Checked String) (s : Server)
      → Created settings call payload s.world
          (after_auth settings api call payload checked s).0
          (after_auth settings api call payload checked s).1.world
  unfolding after_auth
  after_auth-Created api (refuse code message) s = refl
  after_auth-Created api (pass fingerprint) s =
      elim (Bool-cases
        (allow_key api.minute api.rate_limit_per_minute call.now
          (fingerprint +++ ":" +++ call.client_ip) s.hits).0) [
            | inl e ↦ rw e (store-Created _ s.world (check_request-Permitted settings call payload))
            | inr e ↦ rw e refl
          ]

-- Whatever the call, the request, the settings and the state of the server, the database's failures included: if `submit_scan` accepts, it has added one row in status RECEIVED, with the id it answers, whose user's name matches the expression, whose size is within the limit and whose path lies, by its parts, under the root of a host of the allowlist; and if it refuses, for a missing or a wrong token, the rate, the name, the size, the host, the path or a failure of the database, the rows of `scans` are as they were.
pub submit_scan-Created :
    (settings : Settings) (api : ApiSettings) (call : Call) (payload : ScanRequest) (s : Server)
    → Created settings call payload s.world
        (submit_scan settings api call payload s).0
        (submit_scan settings api call payload s).1.world
unfolding submit_scan
submit_scan-Created settings api call payload s =
    after_auth-Created settings call payload api (verify_bearer_token api call.credentials) s
