-- ===== src/Examples/Checks.antt =====
-- Concrete inputs of the checks and policies that keep no state of the database.
use safe_cloud.Prelude.{
  ◌==◌, ℕ, String, List, [], ◌∷◌, none, some, true, false, ◌≡◌, ◌≢◌, ◌⊎◌, ◌↔◌, ◌≤◌, ◌<◌, refl, inl,
  All, arith, has_prefix, rstrip_slash, lookup, starts_with, length, eq_iff, if◌then◌else◌, ◌++◌,
}
use safe_cloud.Policy.{
  allowed_by_policy, denied_by_policy, quarantined_by_policy, marked_for_review, unknown_encrypted,
  ScannerOutcome, encrypted, aggregate_scan_results, by_policy, first_success, all_must_pass,
  apply_encrypted_policy, resolve_encrypted_policy,
}
use safe_cloud.Policy.Aggregation.{Permits, SomeStatus, aggregate_scan_results-allowed_iff}
use safe_cloud.Policy.Order.{
  IsKnown, IsVerdict, aggregate_scan_results-allowed_needs_clean, all_must_pass_strictest,
  aggregate_scan_results-IsVerdict, unknown_statuses_allowed,
}
use safe_cloud.Policy.Encrypted.{IsUnset, apply_encrypted_policy_exact, encrypted-allowed_iff}
use safe_cloud.Detection.{EncryptionDetection, found, detect_encryption, by_header}
use safe_cloud.Detection.Verdicts.{
  IsPlain, IsCategory, detect_encryption-false_sound, detect_encryption-IsCategory,
}
use safe_cloud.RateLimit.{allow}
use safe_cloud.RateLimit.Window.{
  grants, count, IsOrdered, recent, grants-count_le, allow-granted_iff,
}
use safe_cloud.Paths.{
  normpath, initial_slashes, join_slash, normalize_and_validate_path, has_null, split_slash, reduce,
}
use safe_cloud.Paths.Containment.{IsContained, normalize_and_validate_path-IsContained}
use safe_cloud.Panel.{
  PanelEnv, PanelState, live_attempts, is_locked_out, compare_digest, verify_password, verify_parts,
  check_rounds, matches_digest, decide_login, log_in, login_submit,
}
use safe_cloud.Panel.Login.{login_submit-authenticated}
use safe_cloud.Upload.{staged, stream_upload_to_staging}
use safe_cloud.Upload.Streaming.{body_of, stream_upload_to_staging-staged_iff}
use safe_cloud.Examples.{pdf_file}

abbrev outcome : String → String → ScannerOutcome
outcome name status = record { scanner_name = name; status = status; threat = none }

abbrev clean_outcomes : List ScannerOutcome
clean_outcomes = outcome "clamav" "CLEAN" ∷ outcome "yara" "CLEAN" ∷ []

abbrev odd_outcome : ScannerOutcome
odd_outcome = outcome "clamav" "SKIPPED"

abbrev pdf_report : EncryptionDetection
pdf_report = found (some false) none "pdf_encrypted"

aggregate_scan_results-allowed_iff_example :
    ((aggregate_scan_results clean_outcomes "ANY_DETECTION").allowed ≡ true)
    ↔ Permits "ANY_DETECTION" clean_outcomes
aggregate_scan_results-allowed_iff_example =
    aggregate_scan_results-allowed_iff clean_outcomes "ANY_DETECTION"

detect_encryption-false_sound_example : IsPlain pdf_file "a.pdf"
unfolding detect_encryption by_header has_prefix
detect_encryption-false_sound_example =
    detect_encryption-false_sound pdf_file "a.pdf" pdf_report refl refl

detect_encryption-IsCategory_example : IsCategory pdf_report
unfolding detect_encryption by_header has_prefix
detect_encryption-IsCategory_example = detect_encryption-IsCategory pdf_file "a.pdf" pdf_report refl

abbrev policies : List (String × String)
policies = ("pdf_encrypted", "QUARANTINE") ∷ ("default", "DENY") ∷ []

encrypted-allowed_iff_example :
    ((apply_encrypted_policy
        (resolve_encrypted_policy "pdf_encrypted" policies)
        "pdf_encrypted").allowed
      ≡ true)
    ↔ ((lookup "pdf_encrypted" policies ≡ some "ALLOW")
        ⊎ (IsUnset "pdf_encrypted" policies × (lookup "default" policies ≡ some "ALLOW")))
encrypted-allowed_iff_example = encrypted-allowed_iff "pdf_encrypted" policies

apply_encrypted_policy_exact_example :
    ((apply_encrypted_policy "ALLOW" "default").status ≡ encrypted)
    × (((apply_encrypted_policy "ALLOW" "default").allowed ≡ true)
        ↔ (◌≡◌ {A = String} "ALLOW" "ALLOW"))
    × (((apply_encrypted_policy "ALLOW" "default").quarantine ≡ true)
        ↔ ((◌≡◌ {A = String} "ALLOW" "QUARANTINE") ⊎ (◌≡◌ {A = String} "ALLOW" "MARK_FOR_REVIEW")))
    × (((apply_encrypted_policy "ALLOW" "default").needs_review ≡ true)
        ↔ (◌≡◌ {A = String} "ALLOW" "MARK_FOR_REVIEW"))
    × (((apply_encrypted_policy "ALLOW" "default").reason ≡ allowed_by_policy "default")
        ↔ (◌≡◌ {A = String} "ALLOW" "ALLOW"))
    × (((apply_encrypted_policy "ALLOW" "default").reason ≡ denied_by_policy "default")
        ↔ (◌≡◌ {A = String} "ALLOW" "DENY"))
    × (((apply_encrypted_policy "ALLOW" "default").reason ≡ quarantined_by_policy "default")
        ↔ (◌≡◌ {A = String} "ALLOW" "QUARANTINE"))
    × (((apply_encrypted_policy "ALLOW" "default").reason ≡ marked_for_review "default")
        ↔ (◌≡◌ {A = String} "ALLOW" "MARK_FOR_REVIEW"))
    × (((apply_encrypted_policy "ALLOW" "default").reason ≡ unknown_encrypted "ALLOW") ↔ (
        (◌≢◌ {A = String} "ALLOW" "ALLOW")
        × (◌≢◌ {A = String} "ALLOW" "DENY")
        × (◌≢◌ {A = String} "ALLOW" "QUARANTINE")
        × (◌≢◌ {A = String} "ALLOW" "MARK_FOR_REVIEW")))
apply_encrypted_policy_exact_example = apply_encrypted_policy_exact "ALLOW" "default"

all_known : All IsKnown clean_outcomes
all_known = (inl refl, (inl refl, tt))

aggregate_scan_results-allowed_needs_clean_example : SomeStatus "CLEAN" clean_outcomes
unfolding aggregate_scan_results by_policy first_success
aggregate_scan_results-allowed_needs_clean_example =
    aggregate_scan_results-allowed_needs_clean clean_outcomes "FIRST_SUCCESS" all_known refl

all_must_pass_strictest_example :
    ((aggregate_scan_results clean_outcomes "FIRST_DETECTION").allowed ≡ true)
    × ((aggregate_scan_results clean_outcomes "ANY_DETECTION").allowed ≡ true)
    × ((aggregate_scan_results clean_outcomes "FIRST_SUCCESS").allowed ≡ true)
unfolding aggregate_scan_results by_policy all_must_pass
all_must_pass_strictest_example = all_must_pass_strictest clean_outcomes all_known refl

aggregate_scan_results-IsVerdict_example :
    IsVerdict (aggregate_scan_results (odd_outcome ∷ clean_outcomes) "FIRST_DETECTION")
aggregate_scan_results-IsVerdict_example =
    aggregate_scan_results-IsVerdict (odd_outcome ∷ clean_outcomes) "FIRST_DETECTION"

unknown_statuses_allowed_example :
    ((aggregate_scan_results (odd_outcome ∷ []) "ALL_MUST_PASS").allowed ≡ true)
    × ((aggregate_scan_results (odd_outcome ∷ []) "FIRST_DETECTION").allowed ≡ true)
    × ((aggregate_scan_results (odd_outcome ∷ []) "ANY_DETECTION").allowed ≢ true)
unknown_statuses_allowed_example =
    unknown_statuses_allowed odd_outcome [] (ground (arith, eq_iff "SKIPPED" "CLEAN"), tt)
      (ground (arith, eq_iff "SKIPPED" "INFECTED"), tt)
      (ground (arith, eq_iff "SKIPPED" "ERROR"), tt)

abbrev call_times : List ℕ
call_times = 10 ∷ 20 ∷ 30 ∷ 75 ∷ []

call_times-IsOrdered : IsOrdered call_times
call_times-IsOrdered = (
  (omega arith, (omega arith, (omega arith, tt))),
  ((omega arith, (omega arith, tt)), ((omega arith, tt), (tt, tt))),
)

grants-count_le_example : count 60 10 (grants 60 2 [] call_times) ≤ 2
grants-count_le_example = grants-count_le 60 2 10 call_times call_times-IsOrdered

allow-granted_iff_example :
    (((allow 60 4 80 call_times).0 ≡ true) ↔ (length (recent 60 80 call_times) < 4))
    × ((allow 60 4 80 call_times).1
        ≡ recent 60 80 call_times ++ (if (allow 60 4 80 call_times).0 then 80 ∷ [] else []))
allow-granted_iff_example = allow-granted_iff 60 4 80 call_times call_times-IsOrdered

normalize_and_validate_path-IsContained_example :
    (◌≡◌ {A = String} "/data/v" (normpath "/data/u/../v"))
    × (starts_with "/data/u/../v" "/" ≡ true)
    × IsContained (normpath "/data/") "/data/v"
unfolding normalize_and_validate_path normpath has_null split_slash reduce initial_slashes
    join_slash rstrip_slash
normalize_and_validate_path-IsContained_example =
    normalize_and_validate_path-IsContained "/data/u/../v" "/data/" "/data/v" refl

abbrev reads : List (List ℕ)
reads = (1 ∷ 2 ∷ []) ∷ (3 ∷ []) ∷ [] ∷ []

abbrev upload : List ℕ
upload = 1 ∷ 2 ∷ 3 ∷ []

stream_upload_to_staging-staged_iff_example :
    (stream_upload_to_staging 5 reads ≡ staged upload)
    ↔ ((upload ≡ body_of reads) × (0 < length upload) × (length upload ≤ 5))
stream_upload_to_staging-staged_iff_example = stream_upload_to_staging-staged_iff 5 upload reads

abbrev panel : PanelEnv
panel = record {
  admin_username = "admin";
  admin_password_hash = "pbkdf2_sha256$9$aa$f00d";
  lockout = 900;
  int_of = λ s. some 9;
  pbkdf2 = λ password salt rounds. if password == "open" then some "f00d" else some "beef";
}

abbrev visitor : PanelState
visitor = record {
  failed_attempts = λ key. 20 ∷ 950 ∷ [];
  session = record { authenticated = false; username = none; csrf_token = none };
  audit = [];
}

login_submit-authenticated_example :
    (visitor.session.authenticated ≡ true)
    ⊎ ((length (live_attempts 900 1000 (20 ∷ 950 ∷ [])) < 5)
        × (◌≡◌ {A = String} "admin" "admin")
        × (verify_password panel "open" "pbkdf2_sha256$9$aa$f00d" ≡ some true))
unfolding login_submit is_locked_out compare_digest verify_password verify_parts check_rounds
    matches_digest decide_login log_in
login_submit-authenticated_example =
    login_submit-authenticated panel 1000 1001 "10.1.1.1" "admin" "open" visitor refl
