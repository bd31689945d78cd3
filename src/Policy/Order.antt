-- ===== src/Policy/Order.antt =====
-- What an allowed verdict of api/policy.py proves about the scanners, where each of them reported
-- one of the three statuses that the module documents, and what happens where one did not.
use safe_cloud.Prelude.{
  length, String, List, [], ◌∷◌, ◌++◌, true, false, ◌≡◌, ◌≢◌, ◌⊎◌, inl, inr, All, arith, eq_iff,
  refl,
}
use safe_cloud.Policy.{
  clean, infected, error, ScannerOutcome, AggregationDecision, first_detection, any_detection,
  all_must_pass, first_success, by_policy, aggregate_scan_results,
}
use safe_cloud.Policy.Aggregation.{
  NoStatus, SomeStatus, FirstIsClean, Permits, aggregate_scan_results-allowed_iff,
}

abbrev pub IsKnown : ScannerOutcome → Type 0
IsKnown r = (r.status ≡ "CLEAN") ⊎ (r.status ≡ "INFECTED") ⊎ (r.status ≡ "ERROR")

SomeStatus-append :
    (s : String) (xs : List ScannerOutcome) (r : ScannerOutcome) (ys : List ScannerOutcome)
    → r.status ≡ s
    → SomeStatus s (xs ++ r ∷ ys)
SomeStatus-append s [] r ys h = inl h
SomeStatus-append s (x ∷ xs) r ys h = inr (SomeStatus-append s xs r ys h)

first-known-clean :
    (r : ScannerOutcome) (rs : List ScannerOutcome)
    → IsKnown r
    → NoStatus "INFECTED" (r ∷ rs)
    → NoStatus "ERROR" (r ∷ rs)
    → r.status ≡ "CLEAN"
first-known-clean r rs k i e = ground arith

SomeStatus-clean_of_all :
    (rs : List ScannerOutcome)
    → All IsKnown rs
    → rs ≢ []
    → NoStatus "INFECTED" rs
    → NoStatus "ERROR" rs
    → SomeStatus "CLEAN" rs × FirstIsClean rs
SomeStatus-clean_of_all [] k n i e = absurd (n refl)
SomeStatus-clean_of_all (r ∷ rs) k n i e =
    let c = first-known-clean r rs k.0 i e in (inl c, ([], r, rs, refl, tt, tt, c))

permitted-SomeStatus :
    (rs : List ScannerOutcome) (policy : String)
    → All IsKnown rs
    → Permits policy rs
    → SomeStatus "CLEAN" rs
permitted-SomeStatus rs policy k (inl (_, n, i, e)) = (SomeStatus-clean_of_all rs k n i e).0
permitted-SomeStatus rs policy k (inr (inl (_, i, c))) = c
permitted-SomeStatus rs policy k (inr (inr (_, (before, r, after, e, _, _, c)))) =
    rw e (SomeStatus-append "CLEAN" before r after c)

-- If every scanner reported CLEAN, INFECTED or ERROR and the file is allowed, under whatever policy, then some scanner reported CLEAN.
pub aggregate_scan_results-allowed_needs_clean :
    (rs : List ScannerOutcome) (policy : String)
    → All IsKnown rs
    → (aggregate_scan_results rs policy).allowed ≡ true
    → SomeStatus "CLEAN" rs
aggregate_scan_results-allowed_needs_clean rs policy k h =
    permitted-SomeStatus rs policy k ((aggregate_scan_results-allowed_iff rs policy).0 h)

-- If every scanner reported CLEAN, INFECTED or ERROR and ALL_MUST_PASS allows the file, then each of the other three policies allows it too.
pub all_must_pass_strictest :
    (rs : List ScannerOutcome)
    → All IsKnown rs
    → (aggregate_scan_results rs "ALL_MUST_PASS").allowed ≡ true
    → ((aggregate_scan_results rs "FIRST_DETECTION").allowed ≡ true)
      × ((aggregate_scan_results rs "ANY_DETECTION").allowed ≡ true)
      × ((aggregate_scan_results rs "FIRST_SUCCESS").allowed ≡ true)
all_must_pass_strictest rs k h = from ((aggregate_scan_results-allowed_iff rs _).0 h)
  where
    from :
        Permits "ALL_MUST_PASS" rs
        → ((aggregate_scan_results rs "FIRST_DETECTION").allowed ≡ true)
          × ((aggregate_scan_results rs "ANY_DETECTION").allowed ≡ true)
          × ((aggregate_scan_results rs "FIRST_SUCCESS").allowed ≡ true)
    from (inl (_, n, i, e)) =
        let (c, f) = SomeStatus-clean_of_all rs k n i e in
        (
          (aggregate_scan_results-allowed_iff rs _).1 (inl (inr refl, n, i, e)),
          (aggregate_scan_results-allowed_iff rs _).1 (inr (inl (refl, i, c))),
          (aggregate_scan_results-allowed_iff rs _).1 (inr (inr (refl, f))),
        )
    from (inr (inl (q, _, _))) = absurd (ground (arith, eq_iff "ALL_MUST_PASS" "ANY_DETECTION"))
    from (inr (inr (q, _))) = absurd (ground (arith, eq_iff "ALL_MUST_PASS" "FIRST_SUCCESS"))

-- A status and a flag that agree.
abbrev pub IsVerdict : AggregationDecision → Type 0
IsVerdict d =
    ((d.status ≡ clean) × (d.allowed ≡ true))
    ⊎ (((d.status ≡ infected) ⊎ (d.status ≡ error)) × (d.allowed ≡ false))

first_success-IsVerdict : (n : _) (rs : List ScannerOutcome) → IsVerdict (first_success n rs)
unfolding first_success
first_success-IsVerdict n [] = ground arith
first_success-IsVerdict n (r ∷ rs) = ground (arith, first_success-IsVerdict n rs)

module _ (rs : List ScannerOutcome) where
  all_must_pass-IsVerdict : IsVerdict (all_must_pass rs)
  unfolding all_must_pass
  all_must_pass-IsVerdict = ground arith

  first_detection-IsVerdict : IsVerdict (first_detection rs)
  unfolding first_detection
  first_detection-IsVerdict = ground arith

  any_detection-IsVerdict : IsVerdict (any_detection rs)
  unfolding any_detection
  any_detection-IsVerdict = ground arith

by_policy-IsVerdict : (rs : List ScannerOutcome) (policy : String) → IsVerdict (by_policy rs policy)
unfolding by_policy
by_policy-IsVerdict rs policy = ground (
  arith,
  all_must_pass-IsVerdict rs,
  first_detection-IsVerdict rs,
  any_detection-IsVerdict rs,
  first_success-IsVerdict (length rs) rs,
)

-- Whatever the results and the policy, either the verdict's status is CLEAN and the file is allowed, or it is INFECTED or ERROR and the file is not allowed.
pub aggregate_scan_results-IsVerdict :
    (rs : List ScannerOutcome) (policy : String) → IsVerdict (aggregate_scan_results rs policy)
unfolding aggregate_scan_results
aggregate_scan_results-IsVerdict [] policy = ground arith
aggregate_scan_results-IsVerdict (r ∷ rs) policy = by_policy-IsVerdict (r ∷ rs) policy

not-SomeStatus : (s : String) (rs : List ScannerOutcome) → NoStatus s rs → SomeStatus s rs → ⊥
not-SomeStatus s [] n h = h
not-SomeStatus s (r ∷ rs) (n, ns) (inl h) = n h
not-SomeStatus s (r ∷ rs) (n, ns) (inr h) = not-SomeStatus s rs ns h

-- Under ALL_MUST_PASS and FIRST_DETECTION a non-empty list of results is allowed although no scanner reported CLEAN, if each reported a status other than CLEAN, INFECTED and ERROR; ANY_DETECTION does not allow it.
pub unknown_statuses_allowed :
    (r : ScannerOutcome) (rs : List ScannerOutcome)
    → NoStatus "CLEAN" (r ∷ rs)
    → NoStatus "INFECTED" (r ∷ rs)
    → NoStatus "ERROR" (r ∷ rs)
    → ((aggregate_scan_results (r ∷ rs) "ALL_MUST_PASS").allowed ≡ true)
      × ((aggregate_scan_results (r ∷ rs) "FIRST_DETECTION").allowed ≡ true)
      × ((aggregate_scan_results (r ∷ rs) "ANY_DETECTION").allowed ≢ true)
unknown_statuses_allowed r rs c i e = (
  (aggregate_scan_results-allowed_iff _ _).1 (inl (inl refl, (λ q. cc), i, e)),
  (aggregate_scan_results-allowed_iff _ _).1 (inl (inr refl, (λ q. cc), i, e)),
  λ h. refused ((aggregate_scan_results-allowed_iff _ _).0 h),
)
  where
    refused : Permits "ANY_DETECTION" (r ∷ rs) → ⊥
    refused (inl (inl q, _, _, _)) = absurd (ground (arith, eq_iff "ANY_DETECTION" "ALL_MUST_PASS"))
    refused (inl (inr q, _, _, _)) =
        absurd (ground (arith, eq_iff "ANY_DETECTION" "FIRST_DETECTION"))
    refused (inr (inl (_, _, s))) = not-SomeStatus "CLEAN" (r ∷ rs) c s
    refused (inr (inr (q, _))) = absurd (ground (arith, eq_iff "ANY_DETECTION" "FIRST_SUCCESS"))
