-- ===== src/Policy.antt =====
-- api/policy.py: N scanner outcomes become one verdict, and an encrypted file's verdict comes from
-- the administrator's policy alone. A scanner's status and the policies are texts, as in the
-- source; the verdict's status is a value of the database's enum `scan_status`. A reason is a data
-- type with a constructor for each message of the source, over the values that it is built from.
pub mod Aggregation
pub mod Order
pub mod Encrypted
use safe_cloud.Prelude.{
  ℕ, String, List, [], ◌∷◌, map, Option, none, some, Bool, true, false, ◌==◌, if◌then◌else◌, length,
  select, lookup, text_or,
}

-- The values of the database's `scan_status`.
pub data ScanStatus : Type 0 where
  received validating transferring scanning clean infected error cleanup_failed encrypted
        quarantined :
      ScanStatus

pub record ScannerOutcome : Type 0 where
  pub scanner_name : String
  pub status : String
  pub threat : Option String

pub data Reason : Type 0 where
  no_results all_failed_no_results : Reason
  first_detected : String → Option String → Reason
  failed_before_detection : List String → Reason
  none_detected : ℕ → Reason
  first_completed : String → ℕ → Reason
  all_failed : ℕ → Reason
  detected_by : List String → Reason
  reported_clean : ℕ → ℕ → Reason
  some_failed : ℕ → List String → Reason
  all_clean : ℕ → Reason
  unknown_aggregation unknown_encrypted : String → Reason
  allowed_by_policy denied_by_policy quarantined_by_policy marked_for_review : String → Reason

pub record AggregationDecision : Type 0 where
  pub status : ScanStatus
  pub allowed : Bool
  pub threat : Option String
  pub reason : Reason

abbrev pub decide : ScanStatus → Bool → Option String → Reason → AggregationDecision
decide s a t r = record { status = s; allowed = a; threat = t; reason = r }

abbrev pub has_status : String → ScannerOutcome → Bool
has_status s r = r.status == s

abbrev names : List ScannerOutcome → List String
names rs = map (λ r. r.scanner_name) rs

module _ (results : List ScannerOutcome) where
  abbrev pub infected_of : List ScannerOutcome
  infected_of = select (has_status "INFECTED") results

  abbrev pub errors_of : List ScannerOutcome
  errors_of = select (has_status "ERROR") results

  abbrev pub clean_of : List ScannerOutcome
  clean_of = select (has_status "CLEAN") results

  -- The branch of `FIRST_DETECTION`.
  unfoldable pub first_detection : AggregationDecision
  first_detection = elim infected_of [
    | first ∷ _ ↦
        decide infected false first.threat (first_detected first.scanner_name first.threat)
    | [] ↦ elim errors_of [
      | _ ∷ _ ↦ decide error false none (failed_before_detection (names errors_of))
      | [] ↦ decide clean true none (none_detected (length results))
    ]
  ]

  -- The branch of `ANY_DETECTION`.
  unfoldable pub any_detection : AggregationDecision
  any_detection = elim infected_of [
    | first ∷ _ ↦ decide infected false first.threat (detected_by (names infected_of))
    | [] ↦ elim clean_of [
      | _ ∷ _ ↦ decide clean true none (reported_clean (length clean_of) (length errors_of))
      | [] ↦ decide error false none all_failed_no_results
    ]
  ]

  -- The branch of `ALL_MUST_PASS`.
  unfoldable pub all_must_pass : AggregationDecision
  all_must_pass = elim infected_of [
    | first ∷ _ ↦ decide infected false first.threat (detected_by (names infected_of))
    | [] ↦ elim errors_of [
      | _ ∷ _ ↦ decide error false none (some_failed (length errors_of) (names errors_of))
      | [] ↦ decide clean true none (all_clean (length clean_of))
    ]
  ]

-- The loop of `FIRST_SUCCESS`; `total` is the number of all the results.
unfoldable pub first_success : ℕ → List ScannerOutcome → AggregationDecision
first_success total [] = decide error false none (all_failed total)
first_success total (r ∷ rs) =
    let rest = first_success total rs in
    if r.status == "INFECTED"
    then decide infected false r.threat (first_detected r.scanner_name r.threat)
    else if r.status == "CLEAN"
    then decide clean true none (first_completed r.scanner_name total)
    else rest

unfoldable pub by_policy : List ScannerOutcome → String → AggregationDecision
by_policy results policy =
    if policy == "FIRST_DETECTION"
    then first_detection results
    else if policy == "FIRST_SUCCESS"
    then first_success (length results) results
    else if policy == "ANY_DETECTION"
    then any_detection results
    else if policy == "ALL_MUST_PASS"
    then all_must_pass results
    else decide error false none (unknown_aggregation policy)

unfoldable pub aggregate_scan_results : List ScannerOutcome → String → AggregationDecision
aggregate_scan_results [] policy = decide error false none no_results
aggregate_scan_results (r ∷ rs) policy = by_policy (r ∷ rs) policy

pub record EncryptedPolicyDecision : Type 0 where
  pub status : ScanStatus
  pub allowed : Bool
  pub needs_review : Bool
  pub quarantine : Bool
  pub reason : Reason

abbrev decide_encrypted : Bool → Bool → Bool → Reason → EncryptedPolicyDecision
decide_encrypted a n q r = record {
  status = encrypted;
  allowed = a;
  needs_review = n;
  quarantine = q;
  reason = r;
}

-- `policies.get(category) or policies.get("default") or DEFAULT_ENCRYPTED_POLICY`
unfoldable pub resolve_encrypted_policy : String → List (String × String) → String
resolve_encrypted_policy category policies =
    text_or (lookup category policies) (text_or (lookup "default" policies) "DENY")

unfoldable pub apply_encrypted_policy : String → String → EncryptedPolicyDecision
apply_encrypted_policy policy category =
    if policy == "ALLOW"
    then decide_encrypted true false false (allowed_by_policy category)
    else if policy == "DENY"
    then decide_encrypted false false false (denied_by_policy category)
    else if policy == "QUARANTINE"
    then decide_encrypted false false true (quarantined_by_policy category)
    else if policy == "MARK_FOR_REVIEW"
    then decide_encrypted false true true (marked_for_review category)
    else decide_encrypted false false false (unknown_encrypted policy)

-- `AGGREGATION_POLICIES` and `ENCRYPTED_POLICIES`
abbrev pub aggregation_policies : List String
aggregation_policies = "ALL_MUST_PASS" ∷ "ANY_DETECTION" ∷ "FIRST_DETECTION" ∷ "FIRST_SUCCESS" ∷ []

abbrev pub encrypted_policies : List String
encrypted_policies = "ALLOW" ∷ "DENY" ∷ "QUARANTINE" ∷ "MARK_FOR_REVIEW" ∷ []
