-- ===== src/Policy/Aggregation.antt =====
-- When `aggregate_scan_results` of api/policy.py allows a file, and which verdict it gives.
use mathlib.Core.List.{head-eq_of_cons-eq, tail-eq_of_cons-eq}
use safe_cloud.Prelude.{
  length, Bool-cases, String, List, [], ◌∷◌, ◌++◌, true, ◌==◌, ◌≡◌, ◌≢◌, ◌↔◌, ◌⊎◌, inl, inr, refl,
  All, Any, select, arith, eq_iff, ap, ℕ,
}
use safe_cloud.Policy.{
  ScannerOutcome, has_status, first_detection, any_detection, all_must_pass, first_success,
  by_policy, aggregate_scan_results,
}

abbrev pub NoStatus : String → List ScannerOutcome → Type 0
NoStatus s rs = All (λ r. r.status ≢ s) rs

abbrev pub SomeStatus : String → List ScannerOutcome → Type 0
SomeStatus s rs = Any (λ r. r.status ≡ s) rs

select-nil_iff :
    (s : String) (rs : List ScannerOutcome) → (select (has_status s) rs ≡ []) ↔ NoStatus s rs
select-nil_iff s [] = (λ _. tt, λ _. refl)
select-nil_iff s (r ∷ rs) = grind (arith, eq_iff r.status s, select-nil_iff s rs)

select-ne-nil_iff :
    (s : String) (rs : List ScannerOutcome) → (select (has_status s) rs ≢ []) ↔ SomeStatus s rs
select-ne-nil_iff s [] = (λ h. h refl, λ h. absurd h)
select-ne-nil_iff s (r ∷ rs) = grind (arith, eq_iff r.status s, select-ne-nil_iff s rs)

-- The first outcome that is CLEAN or INFECTED is CLEAN.
abbrev pub FirstIsClean : List ScannerOutcome → Type 0
FirstIsClean rs =
    (before : List ScannerOutcome) × (r : ScannerOutcome) × (after : List ScannerOutcome) × (rs
      ≡ before ++ r ∷ after)
    × NoStatus "INFECTED" before
    × NoStatus "CLEAN" before
    × (r.status ≡ "CLEAN")

module _ (rs : List ScannerOutcome) where
  all_must_pass-allowed_iff :
      ((all_must_pass rs).allowed ≡ true) ↔ (NoStatus "INFECTED" rs × NoStatus "ERROR" rs)
  unfolding all_must_pass
  all_must_pass-allowed_iff =
      ground (arith, select-nil_iff "INFECTED" rs, select-nil_iff "ERROR" rs)

  first_detection-allowed_iff :
      ((first_detection rs).allowed ≡ true) ↔ (NoStatus "INFECTED" rs × NoStatus "ERROR" rs)
  unfolding first_detection
  first_detection-allowed_iff =
      ground (arith, select-nil_iff "INFECTED" rs, select-nil_iff "ERROR" rs)

  any_detection-allowed_iff :
      ((any_detection rs).allowed ≡ true) ↔ (NoStatus "INFECTED" rs × SomeStatus "CLEAN" rs)
  unfolding any_detection
  any_detection-allowed_iff =
      ground (arith, select-nil_iff "INFECTED" rs, select-ne-nil_iff "CLEAN" rs)

FirstIsClean-cons :
    (r : ScannerOutcome) (rs : List ScannerOutcome)
    → r.status ≢ "INFECTED"
    → r.status ≢ "CLEAN"
    → FirstIsClean rs ↔ FirstIsClean (r ∷ rs)
FirstIsClean-cons r rs h k = (
  λ f. (r ∷ f.0, f.1, f.2, ap (λ (t : List ScannerOutcome). r ∷ t) f.3, (h, f.4), (k, f.5), f.6),
  λ f. back f.0 f.1 f.2 f.3 f.4 f.5 f.6,
)
  where
    back :
        (before : List ScannerOutcome) (c : ScannerOutcome) (after : List ScannerOutcome)
        → r ∷ rs ≡ before ++ c ∷ after
        → NoStatus "INFECTED" before
        → NoStatus "CLEAN" before
        → c.status ≡ "CLEAN"
        → FirstIsClean rs
    back [] c after e i n q = absurd (k (cc (head-eq_of_cons-eq e)))
    back (b ∷ before) c after e i n q = (before, c, after, tail-eq_of_cons-eq e, i.1, n.1, q)

FirstIsClean-head :
    (r : ScannerOutcome) (rs : List ScannerOutcome) → r.status ≡ "CLEAN" → FirstIsClean (r ∷ rs)
FirstIsClean-head r rs h = ([], r, rs, refl, tt, tt, h)

not_FirstIsClean :
    (r : ScannerOutcome) (rs : List ScannerOutcome)
    → r.status ≡ "INFECTED"
    → FirstIsClean (r ∷ rs)
    → ⊥
not_FirstIsClean r rs h f = go f.0 f.1 f.2 f.3 f.4 f.6
  where
    go :
        (before : List ScannerOutcome) (c : ScannerOutcome) (after : List ScannerOutcome)
        → r ∷ rs ≡ before ++ c ∷ after
        → NoStatus "INFECTED" before
        → c.status ≡ "CLEAN"
        → ⊥
    go [] c after e i q = ground (arith, head-eq_of_cons-eq e, eq_iff "INFECTED" "CLEAN")
    go (b ∷ before) c after e i q = ground (arith, head-eq_of_cons-eq e)

not_FirstIsClean-nil : FirstIsClean [] → ⊥
not_FirstIsClean-nil f = go f.0 f.1 f.2 f.3
  where
    go :
        (before : List ScannerOutcome) (c : ScannerOutcome) (after : List ScannerOutcome)
        → [] ≡ before ++ c ∷ after
        → ⊥
    go [] c after e = cc
    go (b ∷ before) c after e = cc

first_success-allowed_iff :
    (n : ℕ) (rs : List ScannerOutcome) → ((first_success n rs).allowed ≡ true) ↔ FirstIsClean rs
unfolding first_success
first_success-allowed_iff n [] = (λ h. cc, λ h. absurd (not_FirstIsClean-nil h))
first_success-allowed_iff n (r ∷ rs) = elim (Bool-cases (r.status == "INFECTED")) [
  | inl i ↦ rw i (λ h. cc, λ h. absurd (not_FirstIsClean r rs ((eq_iff _ _).0 i) h))
  | inr i ↦ elim (Bool-cases (r.status == "CLEAN")) [
    | inl c ↦ rw (i, c) (λ h. FirstIsClean-head r rs ((eq_iff _ _).0 c), λ h. refl)
    | inr c ↦
        let e =
          FirstIsClean-cons r rs (λ h. ground (arith, eq_iff r.status "INFECTED"))
            (λ h. ground (arith, eq_iff r.status "CLEAN")) in
        let ih = first_success-allowed_iff n rs in rw (i, c) (λ h. e.0 (ih.0 h), λ h. ih.1 (e.1 h))
  ]
]

-- What each policy asks of the results before it allows a file.
abbrev pub Permits : String → List ScannerOutcome → Type 0
Permits policy rs =
    (((policy ≡ "ALL_MUST_PASS") ⊎ (policy ≡ "FIRST_DETECTION"))
      × (rs ≢ [])
      × NoStatus "INFECTED" rs
      × NoStatus "ERROR" rs)
    ⊎ ((policy ≡ "ANY_DETECTION") × NoStatus "INFECTED" rs × SomeStatus "CLEAN" rs)
    ⊎ ((policy ≡ "FIRST_SUCCESS") × FirstIsClean rs)

cons-ne-nil : (r : ScannerOutcome) (rs : List ScannerOutcome) → r ∷ rs ≢ []
cons-ne-nil r rs e = cc

policies_distinct :
    (◌≢◌ {A = String} "FIRST_DETECTION" "FIRST_SUCCESS")
    × (◌≢◌ {A = String} "FIRST_DETECTION" "ANY_DETECTION")
    × (◌≢◌ {A = String} "FIRST_DETECTION" "ALL_MUST_PASS")
    × (◌≢◌ {A = String} "FIRST_SUCCESS" "ANY_DETECTION")
    × (◌≢◌ {A = String} "FIRST_SUCCESS" "ALL_MUST_PASS")
    × (◌≢◌ {A = String} "ANY_DETECTION" "ALL_MUST_PASS")
policies_distinct = (
  ground (arith, eq_iff "FIRST_DETECTION" "FIRST_SUCCESS"),
  ground (arith, eq_iff "FIRST_DETECTION" "ANY_DETECTION"),
  ground (arith, eq_iff "FIRST_DETECTION" "ALL_MUST_PASS"),
  ground (arith, eq_iff "FIRST_SUCCESS" "ANY_DETECTION"),
  ground (arith, eq_iff "FIRST_SUCCESS" "ALL_MUST_PASS"),
  ground (arith, eq_iff "ANY_DETECTION" "ALL_MUST_PASS"),
)

by_policy-allowed_iff :
    (r : ScannerOutcome) (rs : List ScannerOutcome) (policy : String)
    → ((by_policy (r ∷ rs) policy).allowed ≡ true) ↔ Permits policy (r ∷ rs)
unfolding by_policy
by_policy-allowed_iff r rs policy = elim (Bool-cases (policy == "FIRST_DETECTION")) [
  | inl a ↦
      rw ((eq_iff policy _).0 a)
        (ground (arith, policies_distinct, first_detection-allowed_iff (r ∷ rs), cons-ne-nil r rs))
  | inr a ↦ elim (Bool-cases (policy == "FIRST_SUCCESS")) [
    | inl b ↦
        rw ((eq_iff policy _).0 b)
          (ground (arith, policies_distinct, first_success-allowed_iff (length (r ∷ rs)) (r ∷ rs)))
    | inr b ↦ elim (Bool-cases (policy == "ANY_DETECTION")) [
      | inl c ↦
          rw ((eq_iff policy _).0 c)
            (ground (arith, policies_distinct, any_detection-allowed_iff (r ∷ rs)))
      | inr c ↦ elim (Bool-cases (policy == "ALL_MUST_PASS")) [
        | inl d ↦ rw ((eq_iff policy _).0 d) (
            ground (arith, policies_distinct, all_must_pass-allowed_iff (r ∷ rs), cons-ne-nil r rs))
        | inr d ↦
            rw (a, b, c, d)
              (
                λ h. cc,
                λ h. ground (
                  arith,
                  eq_iff policy "FIRST_DETECTION",
                  eq_iff policy "FIRST_SUCCESS",
                  eq_iff policy "ANY_DETECTION",
                  eq_iff policy "ALL_MUST_PASS",
                ),
              )
      ]
    ]
  ]
]

-- A file is allowed exactly when the policy is ALL_MUST_PASS or FIRST_DETECTION and there are results, none of them INFECTED or ERROR; or it is ANY_DETECTION, with none INFECTED and some CLEAN; or it is FIRST_SUCCESS and the first outcome that is CLEAN or INFECTED is CLEAN.
pub aggregate_scan_results-allowed_iff :
    (rs : List ScannerOutcome) (policy : String)
    → ((aggregate_scan_results rs policy).allowed ≡ true) ↔ Permits policy rs
unfolding aggregate_scan_results
aggregate_scan_results-allowed_iff [] policy =
    (λ h. cc, λ h. ground (arith, λ (f : FirstIsClean []). not_FirstIsClean-nil f))
aggregate_scan_results-allowed_iff (r ∷ rs) policy = by_policy-allowed_iff r rs policy
