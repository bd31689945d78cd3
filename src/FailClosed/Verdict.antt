-- ===== src/FailClosed/Verdict.antt =====
-- The two writes of api/scanner.py that may allow a file: each has its evidence.
use mathlib.Core.Option.{some-injective}
use safe_cloud.Prelude.Pairs.{All-mono}
use safe_cloud.Prelude.{
  ℕ, String, List, [], ◌∷◌, Option, none, some, Bool, true, ◌≡◌, ◌≢◌, refl, ap, All, map, codes_eq,
  lower, arith, inl, inr, if◌then◌else◌,
}
use safe_cloud.Policy.{
  clean, aggregate_scan_results, apply_encrypted_policy, ScannerOutcome, AggregationDecision,
}
use safe_cloud.Policy.Order.{IsKnown, IsVerdict, aggregate_scan_results-IsVerdict}
use safe_cloud.Policy.Encrypted.{apply_encrypted_policy_exact}
use safe_cloud.Detection.{EncryptionDetection}
use safe_cloud.Exec.Triple.{
  Triple-gets, Triple, Keeps, Triple_of_Keeps, Triple-weaken, Triple-bind, Triple-if, Triple-pure,
  Triple-raise, Triple-modify, Keeps-if, Triple-Keeps,
}
use safe_cloud.Db.{
  is_unknown, Scan, ScanResult, ScannerConfig, Profile, World, assign, assign_all, has_unknown,
  create_scan_results, insert_results, statuses_ok, get_encrypted_policies,
}
use safe_cloud.Db.ScanLaws.{Row, Keeps-connect, Keeps-query, Triple-update_scan}
use safe_cloud.Scanner.{
  cleanup_staging, quarantine_staging, Env, RawResult, outcome_of, result_row, hash_matches, now,
  write_encrypted, decide_encrypted_file, write_verdict, or_else, conclude,
}
use safe_cloud.Tolerance.Writes.{
  all_late, all_safe, Tolerates, Row-Tolerates, has_unknown_of_all_safe, all_safe_of_all_late,
}
use safe_cloud.Tolerance.Cleanup.{cleanup_staging-Keeps, quarantine_staging-Keeps}
use safe_cloud.Tolerance.Stages.{now-Keeps, delete_source-Keeps, cleanup_verdict-Keeps}
use safe_cloud.FailClosed.Evidence.{
  Fresh, Vouched, Fresh-stable, Vouched-late_writes, Fresh-Vouched, outcomes_of, outcomes_of-new,
  IsKnown_of_statuses_ok,
}

module _ (WasClean : Type 0) (scan : Scan) (env : Env) where
  abbrev pub Before : World → Type 0
  Before w = Row scan.id (Fresh WasClean scan.id scan.sha256 w.results) w

  abbrev pub After : World → Type 0
  After w = Row scan.id (Vouched WasClean scan.id scan.sha256 w.results) w

  pub Before-tolerant : Tolerates all_safe scan.id Before
  Before-tolerant =
      Row-Tolerates scan.id (Fresh WasClean scan.id scan.sha256)
        (Fresh-stable WasClean scan.id scan.sha256)

  -- What follows a verdict keeps it.
  pub late : Tolerates all_late scan.id After
  late = record {
    update = λ fields s some_field. Triple-Keeps (
        Triple-update_scan scan.id fields (Vouched WasClean scan.id scan.sha256)
          (Vouched WasClean scan.id scan.sha256)
          (has_unknown_of_all_safe fields (all_safe_of_all_late fields s)) some_field
          (λ rs r h. Vouched-late_writes WasClean scan.id scan.sha256 fields rs r s h));
    connects =
        Keeps-connect
          (λ s rs. All (λ r. r.id ≡ scan.id → Vouched WasClean scan.id scan.sha256 rs r) s);
    outside = λ w ps rs h. h;
  }

  pub Before-After : (w : World) → Before w → After w
  Before-After w h =
      All-mono _ _ w.scans (λ r f e. Fresh-Vouched WasClean scan.id scan.sha256 w.results r (f e)) h

  -- A call that makes safe writes alone leads from `Before` to `After`.
  pub leave :
      {A : Type 0} {m : World → _} → Keeps Before m → Triple Before m (λ (_ : A). After) After
  leave k = Triple-weaken (λ w h. h) (λ a w h. Before-After w h) Before-After (Triple_of_Keeps k)

  allow_of_allowed :
      (policy category : String)
      → (apply_encrypted_policy policy category).allowed ≡ true
      → policy ≡ "ALLOW"
  allow_of_allowed policy category h = (apply_encrypted_policy_exact policy category).1.0 h

  never_clean : (policy category : String) → (apply_encrypted_policy policy category).status ≢ clean
  never_clean policy category h = let kept = (apply_encrypted_policy_exact policy category).0 in cc

  write_encrypted-After :
      (policy category : String)
      → Triple Before
          (write_encrypted env scan policy (apply_encrypted_policy policy category))
          (λ _. After)
          After
  unfolding write_encrypted assign_all assign has_unknown is_unknown
  write_encrypted-After policy category =
      Triple-bind _ _
        (Triple-weaken (λ w h. h) (λ a w h. h) Before-After
          (Triple_of_Keeps (now-Keeps scan.id Before-tolerant)))
        (λ at.
          Triple-weaken (λ w h. h) (λ a w h. h) Before-After
            (Triple-update_scan scan.id _ (Fresh WasClean scan.id scan.sha256)
              (Vouched WasClean scan.id scan.sha256) refl refl
              (λ rs r f. (
                (λ e. inl (ap some (allow_of_allowed policy category (some-injective _ _ e)))),
                (λ e. absurd (never_clean policy category e)),
              ))))

  policies-Before : Keeps Before get_encrypted_policies
  unfolding get_encrypted_policies
  policies-Before =
      Keeps-query (λ s rs. All (λ r. r.id ≡ scan.id → Fresh WasClean scan.id scan.sha256 rs r) s) _

  cleanup_encrypted-After :
      (dir : String) (b : Bool)
      → Keeps After
          (if b then quarantine_staging env scan.id dir else cleanup_staging env scan.id dir true)
  cleanup_encrypted-After dir b =
      Keeps-if b _ _ (quarantine_staging-Keeps (late) env dir)
        (cleanup_staging-Keeps (late) env dir true)

  pub decide_encrypted_file-After :
      (dir : String) (detection : EncryptionDetection)
      → Triple Before (decide_encrypted_file env scan dir detection) (λ _. After) After
  unfolding decide_encrypted_file
  decide_encrypted_file-After dir detection =
      Triple-bind _ _
        (Triple-weaken (λ w h. h) (λ a w h. h) Before-After (Triple_of_Keeps policies-Before))
        (λ policies.
          Triple-bind _ _ (write_encrypted-After _ _)
            (λ _. Triple_of_Keeps (cleanup_encrypted-After dir _)))

  -- Between the hash check and the verdict.
  abbrev Hashed : List ScanResult → Scan → Type 0
  Hashed rs r =
      Fresh WasClean scan.id scan.sha256 rs r
      × (codes_eq (lower r.sha256) (lower scan.sha256) ≡ true)

  abbrev Stored : List ScannerOutcome → List ScanResult → Scan → Type 0
  Stored outcomes rs r =
      (r.allowed ≢ some true)
      × (outcomes_of scan.id rs ≡ outcomes)
      × All IsKnown outcomes
      × (codes_eq (lower r.sha256) (lower scan.sha256) ≡ true)
      × (r.status ≡ clean → WasClean)

  abbrev RowIs : (List ScanResult → Scan → Type 0) → World → Type 0
  RowIs P w = Row scan.id (P w.results) w

  Hashed-After : (w : World) → RowIs Hashed w → After w
  Hashed-After w h =
      All-mono _ _ w.scans (λ r f e. Fresh-Vouched WasClean scan.id scan.sha256 w.results r (f e).0)
        h

  insert_results-Stored :
      (scanners : List ScannerConfig) (raw : List RawResult)
      → statuses_ok (map (result_row scan.id scanners) raw) ≡ true
      → Triple
          (RowIs Hashed)
          (insert_results (map (result_row scan.id scanners) raw))
          (λ _. RowIs (Stored (map outcome_of raw)))
          After
  unfolding insert_results
  insert_results-Stored scanners raw ok_rows = Triple-modify _ (λ w h.
      All-mono _ _ w.scans
        (λ r f e. (
          (f e).0.0,
          outcomes_of-new scan.id scanners w.results raw (f e).0.1,
          IsKnown_of_statuses_ok scan.id scanners raw ok_rows,
          (f e).1,
          (f e).0.2,
        ))
        h)

  create_scan_results-Stored :
      (scanners : List ScannerConfig) (raw : List RawResult)
      → Triple
          (RowIs Hashed)
          (create_scan_results (map (result_row scan.id scanners) raw))
          (λ _. RowIs (Stored (map outcome_of raw)))
          After
  unfolding create_scan_results
  create_scan_results-Stored scanners [] =
      Triple-pure tt
        (λ w h. All-mono _ _ w.scans (λ r f e. ((f e).0.0, (f e).0.1, tt, (f e).1, (f e).0.2)) h)
  create_scan_results-Stored scanners (r ∷ raw) =
      Triple-bind _ _
        (Triple-weaken (λ w h. h) (λ a w h. h) Hashed-After
          (Triple_of_Keeps (Keeps-connect (λ s rs. All (λ r. r.id ≡ scan.id → Hashed rs r) s))))
        (λ _.
          Triple-if _ _ _ (insert_results-Stored scanners (r ∷ raw))
            (λ _. Triple-raise _ Hashed-After))

  allowed_of_clean : (d : AggregationDecision) → IsVerdict d → d.status ≡ clean → d.allowed ≡ true
  allowed_of_clean d (inl v) e = v.1
  allowed_of_clean d (inr (inl i, a)) e = cc
  allowed_of_clean d (inr (inr i, a)) e = cc

  write_verdict-After :
      (profile : Profile) (outcomes : List ScannerOutcome)
      → Triple
          (RowIs (Stored outcomes))
          (write_verdict env scan profile outcomes
            (aggregate_scan_results outcomes profile.aggregation_policy))
          (λ _. After)
          After
  unfolding write_verdict assign_all assign has_unknown is_unknown now
  write_verdict-After profile outcomes =
      Triple-bind {Q = λ _. RowIs (Stored outcomes)} _ _ (Triple-gets _ (λ w h. h)) (λ at.
        Triple-weaken (λ w h. h) (λ a w h. h) After_of_Stored
          (Triple-update_scan scan.id _ (Stored outcomes) (Vouched WasClean scan.id scan.sha256)
            refl refl
            (λ rs r f. (
              (λ e. inr (
                profile.aggregation_policy,
                refl,
                rw (f.1) (some-injective _ _ e),
                rw (f.1) (f.2),
                f.3,
              )),
              (λ e. inl (
                  ap some (
                    allowed_of_clean (aggregate_scan_results outcomes profile.aggregation_policy)
                      (aggregate_scan_results-IsVerdict outcomes profile.aggregation_policy) e))),
            ))))
    where
      After_of_Stored : (w : World) → RowIs (Stored outcomes) w → After w
      After_of_Stored w h =
          All-mono _ _ w.scans (λ r f e. (λ a. absurd ((f e).0 a), λ c. inr ((f e).4 c))) h

  pub hash_of_matches :
      (actual : Option String)
      → hash_matches actual scan.sha256 ≡ true
      → codes_eq (lower (or_else actual "")) (lower scan.sha256) ≡ true
  unfolding hash_matches
  hash_of_matches none h = cc
  hash_of_matches (some a) h = ground arith

  pub conclude-After :
      (profile : Profile) (dir : String) (scanners : List ScannerConfig) (raw : List RawResult)
      (hash : String) (ms : ℕ)
      → codes_eq (lower hash) (lower scan.sha256) ≡ true
      → Triple Before (conclude env scan profile dir scanners raw hash ms) (λ _. After) After
  unfolding conclude assign_all assign has_unknown is_unknown
  conclude-After profile dir scanners raw hash ms same =
      Triple-bind _ _
        (Triple-weaken (λ w h. h) (λ a w h. h) Before-After
          (Triple-update_scan scan.id _ (Fresh WasClean scan.id scan.sha256) Hashed refl refl
            (λ rs r f. (f, same))))
        (λ _. Triple-bind _ _ (create_scan_results-Stored scanners raw) (λ _.
          Triple-bind _ _ (write_verdict-After profile (map outcome_of raw)) (λ _.
            Triple-bind _ _ (Triple_of_Keeps (delete_source-Keeps scan late env _ hash))
              (λ _. Triple_of_Keeps (cleanup_verdict-Keeps scan late env dir _)))))
