-- ===== src/Frame.antt =====
-- What a job of api/worker.py leaves alone: the rows of other scans, their results, the configuration
-- and, where no call of the database fails, the absence of failures.
use safe_cloud.Prelude.{
  String, List, [], ◌∷◌, ◌++◌, Bool, Bool-cases, inl, inr, true, false, not, ◌==◌, ◌≡◌, refl, ◌∙◌,
  ap, map, select, eq_refl,
}
use safe_cloud.Exec.{pure, raise}
use safe_cloud.Exec.Triple.{Keeps, Keeps-if, Keeps-pure, Keeps-raise, Keeps-bind, Keeps-modify}
use safe_cloud.Db.{
  Scan, ScanResult, ScannerConfig, World, Assignment, assign_all, update_rows, update_scan, connect,
  execute,
}
use safe_cloud.Db.ScanLaws.{id-assign_all}
use safe_cloud.Scanner.{Env, RawResult, result_row}
use safe_cloud.Worker.{process_one}
use safe_cloud.Tolerance.Writes.{all_known, Tolerates, forward_of_known}
use safe_cloud.Tolerance.Job.{process_one-Keeps}

-- An update keeps what connections and the change of the row keep.
pub update_scan-Keeps :
    (id : String) {Inv : World → Type 0} (fields : List Assignment)
    → Keeps Inv connect
    → ((w : World) → Inv w → Inv (record w { scans = update_rows id (assign_all fields) w.scans }))
    → Keeps Inv (update_scan id fields)
unfolding update_scan execute
update_scan-Keeps id fields k f =
    Keeps-if _ _ _ (Keeps-raise _)
      (Keeps-if _ _ _ (Keeps-pure tt) (Keeps-bind _ _ k (λ _. Keeps-modify _ f)))

-- The rows that are not the scan's.
unfoldable pub others : String → List Scan → List Scan
others id rs = select (λ r. not (r.id == id)) rs

unfoldable pub other_results : String → List ScanResult → List ScanResult
other_results id rs = select (λ r. not (r.scan_id == id)) rs

others-update_rows :
    (id : String) (f : Scan → Scan) (rs : List Scan)
    → ((r : Scan) → (f r).id ≡ r.id)
    → others id (update_rows id f rs) ≡ others id rs
unfolding others update_rows
others-update_rows id f [] h = refl
others-update_rows id f (r ∷ rs) h = elim (Bool-cases (r.id == id)) [
  | inl e ↦ rw (e, h r, e, others-update_rows id f rs h) refl
  | inr e ↦ rw (e, e, others-update_rows id f rs h) refl
]

other_results-append :
    (id : String) (scanners : List ScannerConfig) (rs : List ScanResult) (raw : List RawResult)
    → other_results id (rs ++ map (result_row id scanners) raw) ≡ other_results id rs
unfolding other_results
other_results-append id scanners [] [] = refl
other_results-append id scanners [] (r ∷ raw) = rw eq_refl (other_results-append id scanners [] raw)
other_results-append id scanners (s ∷ rs) raw = rw (other_results-append id scanners rs raw) refl

-- What the two states agree on.
pub record IsFrame (id : String) (before after : World) : Type 0 where
  pub scans : others id after.scans ≡ others id before.scans
  pub results : other_results id after.results ≡ other_results id before.results
  pub profiles : after.profiles ≡ before.profiles
  pub memberships : after.memberships ≡ before.memberships
  pub scanners : after.scanners ≡ before.scanners
  pub encrypted_policies : after.encrypted_policies ≡ before.encrypted_policies

-- The frame reads neither the failures nor the clock, the paths and the processes' answers.
same_tables :
    (id : String) (before w v : World)
    → v.scans ≡ w.scans
    → v.results ≡ w.results
    → v.profiles ≡ w.profiles
    → v.memberships ≡ w.memberships
    → v.scanners ≡ w.scanners
    → v.encrypted_policies ≡ w.encrypted_policies
    → IsFrame id before w
    → IsFrame id before v
same_tables id before w v s r p m c e h = record {
  scans = ap (others id) s ∙ h.scans;
  results = ap (other_results id) r ∙ h.results;
  profiles = p ∙ h.profiles;
  memberships = m ∙ h.memberships;
  scanners = c ∙ h.scanners;
  encrypted_policies = e ∙ h.encrypted_policies;
}

module _ (id : String) (before : World) where
  connect-IsFrame : Keeps (IsFrame id before) connect
  unfolding connect pure raise
  connect-IsFrame = record { run = λ w h. go w w.faults refl h }
    where
      go :
          (w : World) (fs : List Bool)
          → w.faults ≡ fs
          → IsFrame id before w
          → IsFrame id before (connect w).1
      go w [] e h = rw (e, connect) h
      go w (true ∷ fs) e h =
          rw (e, connect) (same_tables id before w _ refl refl refl refl refl refl h)
      go w (false ∷ fs) e h =
          rw (e, connect) (same_tables id before w _ refl refl refl refl refl refl h)

  IsFrame-tolerant : Tolerates all_known id (IsFrame id before)
  IsFrame-tolerant = record {
    update = λ fields s e. update_scan-Keeps id fields connect-IsFrame (λ w h. record {
      scans = others-update_rows id _ w.scans (id-assign_all fields) ∙ h.scans;
      results = h.results;
      profiles = h.profiles;
      memberships = h.memberships;
      scanners = h.scanners;
      encrypted_policies = h.encrypted_policies;
    });
    connects = connect-IsFrame;
    outside = λ w ps rs h. same_tables id before w _ refl refl refl refl refl refl h;
  }

  IsFrame-store :
      (w : World) (scanners : List ScannerConfig) (raw : List RawResult)
      → IsFrame id before w
      → IsFrame id before (record w { results = w.results ++ map (result_row id scanners) raw })
  IsFrame-store w scanners raw h = record {
    scans = h.scans;
    results = other_results-append id scanners w.results raw ∙ h.results;
    profiles = h.profiles;
    memberships = h.memberships;
    scanners = h.scanners;
    encrypted_policies = h.encrypted_policies;
  }

-- A job of the worker, whatever it meets (failing calls of the database, of the playbooks and of the
-- file system included), leaves the rows of every other scan, the results of every other scan and the
-- whole configuration as they were, in their order.
pub process_one-IsFrame :
    (scan : Scan) (env : Env) (w : World) → IsFrame scan.id w (process_one env scan w).1
process_one-IsFrame scan env w =
    (process_one-Keeps scan env (forward_of_known (IsFrame-tolerant scan.id w))
        (IsFrame-store scan.id w)).run
      w
      (record {
        scans = refl;
        results = refl;
        profiles = refl;
        memberships = refl;
        scanners = refl;
        encrypted_policies = refl;
      })
