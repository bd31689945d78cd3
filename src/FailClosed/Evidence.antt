-- ===== src/FailClosed/Evidence.antt =====
-- What a verdict rests on: the rows of `scan_results` that are stored for a scan.
use safe_cloud.Prelude.{
  String, List, [], ◌∷◌, ◌++◌, some, true, false, ◌==◌, if◌then◌else◌, ◌≡◌, ◌≢◌, ◌⊎◌, inr, refl,
  All, map, codes_eq, lower, arith, eq_iff, eq_refl,
}
use safe_cloud.Policy.{clean, cleanup_failed, ScannerOutcome, aggregate_scan_results}
use safe_cloud.Policy.Order.{IsKnown}
use safe_cloud.Db.{
  Scan, ScanResult, ScannerConfig, Assignment, assign, assign_all, statuses_ok, is_result_status,
}
use safe_cloud.Scanner.{RawResult, outcome_of, result_row}
use safe_cloud.Tolerance.Writes.{is_safe, is_late, all_late}

abbrev stored_outcome : ScanResult → ScannerOutcome
stored_outcome s = record { scanner_name = s.scanner_name; status = s.status; threat = s.threat }

-- The outcomes stored for a scan.
unfoldable pub outcomes_of : String → List ScanResult → List ScannerOutcome
outcomes_of id [] = []
outcomes_of id (s ∷ ss) =
    let rest = outcomes_of id ss in if s.scan_id == id then stored_outcome s ∷ rest else rest

outcomes_of-append :
    (id : String) (xs ys : List ScanResult)
    → outcomes_of id (xs ++ ys) ≡ outcomes_of id xs ++ outcomes_of id ys
unfolding outcomes_of
outcomes_of-append id [] ys = refl
outcomes_of-append id (x ∷ xs) ys = ground (arith, outcomes_of-append id xs ys)

outcomes_of-rows :
    (id : String) (scanners : List ScannerConfig) (raw : List RawResult)
    → outcomes_of id (map (result_row id scanners) raw) ≡ map outcome_of raw
unfolding outcomes_of
outcomes_of-rows id scanners [] = refl
outcomes_of-rows id scanners (r ∷ raw) = rw (eq_refl, outcomes_of-rows id scanners raw) refl

pub outcomes_of-new :
    (id : String) (scanners : List ScannerConfig) (rs : List ScanResult) (raw : List RawResult)
    → outcomes_of id rs ≡ []
    → outcomes_of id (rs ++ map (result_row id scanners) raw) ≡ map outcome_of raw
outcomes_of-new id scanners rs raw h = rw (outcomes_of-append, h) (outcomes_of-rows id scanners raw)

pub IsKnown_of_statuses_ok :
    (id : String) (scanners : List ScannerConfig) (raw : List RawResult)
    → statuses_ok (map (result_row id scanners) raw) ≡ true
    → All IsKnown (map outcome_of raw)
unfolding statuses_ok
IsKnown_of_statuses_ok id scanners [] h = tt
IsKnown_of_statuses_ok id scanners (r ∷ raw) h = (
  known (outcome_of r).status (ground arith),
  IsKnown_of_statuses_ok id scanners raw (ground arith),
)
  where
    known :
        (s : String) → is_result_status s ≡ true → (s ≡ "CLEAN") ⊎ (s ≡ "INFECTED") ⊎ (s ≡ "ERROR")
    known s e = ground (arith, eq_iff s "CLEAN", eq_iff s "INFECTED", eq_iff s "ERROR")

-- The administrator's policy for encrypted files was ALLOW; or the stored results of the scan, all of
-- them CLEAN, INFECTED or ERROR, are allowed by the policy that the row names, and the row's hash is
-- the expected one.
abbrev pub IsVouched : String → String → List ScanResult → Scan → Type 0
IsVouched id expected rs r =
    (r.encrypted_policy_applied ≡ some "ALLOW")
    ⊎ ((policy : String) × (r.aggregation_policy_applied ≡ some policy)
        × ((aggregate_scan_results (outcomes_of id rs) policy).allowed ≡ true)
        × All IsKnown (outcomes_of id rs)
        × (codes_eq (lower r.sha256) (lower expected) ≡ true))

-- `WasClean` stands for "the row was called clean before the job": nothing is asked of the statuses
-- where it is true, and where it is false no row was.
module _ (WasClean : Type 0) (id expected : String) where
  -- Before a verdict: the file is not allowed, no result is stored, and the row is not called clean
  -- unless it was before the job.
  abbrev pub Fresh : List ScanResult → Scan → Type 0
  Fresh rs r = (r.allowed ≢ some true) × (outcomes_of id rs ≡ []) × (r.status ≡ clean → WasClean)

  -- The row is allowed on its evidence alone, and is called clean where it is allowed.
  abbrev pub Vouched : List ScanResult → Scan → Type 0
  Vouched rs r =
      (r.allowed ≡ some true → IsVouched id expected rs r)
      × (r.status ≡ clean → (r.allowed ≡ some true) ⊎ WasClean)

  pub Fresh-stable :
      (a : Assignment) (rs : List ScanResult) (r : Scan)
      → is_safe a ≡ true
      → Fresh rs r
      → Fresh rs (assign a r)
  unfolding assign is_safe
  Fresh-stable (Assignment.set_allowed true) rs r s h = cc
  Fresh-stable (Assignment.set_allowed false) rs r s h = (λ e. cc, h.1, h.2)
  Fresh-stable (Assignment.set_status clean) rs r s h = cc
  Fresh-stable (Assignment.set_status _) rs r s h = (h.0, h.1, λ e. cc)
  Fresh-stable _ rs r s h = h

  pub Vouched-late :
      (a : Assignment) (rs : List ScanResult) (r : Scan)
      → is_late a ≡ true
      → Vouched rs r
      → Vouched rs (assign a r)
  unfolding assign is_late
  Vouched-late (Assignment.set_cleanup_status v) rs r s h = h
  Vouched-late (Assignment.set_staging_path v) rs r s h = h
  Vouched-late (Assignment.set_error_message v) rs r s h = h
  Vouched-late (Assignment.set_status cleanup_failed) rs r s h = (h.0, λ e. cc)
  Vouched-late (Assignment.set_status _) rs r s h = cc
  Vouched-late _ rs r s h = cc

  pub Vouched-late_writes :
      (fields : List Assignment) (rs : List ScanResult) (r : Scan)
      → all_late fields ≡ true
      → Vouched rs r
      → Vouched rs (assign_all fields r)
  unfolding assign_all all_late
  Vouched-late_writes [] rs r s h = h
  Vouched-late_writes (a ∷ fields) rs r s h =
      Vouched-late_writes fields rs (assign a r) (ground arith)
        (Vouched-late a rs r (ground arith) h)

  pub Fresh-Vouched : (rs : List ScanResult) (r : Scan) → Fresh rs r → Vouched rs r
  Fresh-Vouched rs r h = (λ e. absurd (h.0 e), λ e. inr (h.2 e))
