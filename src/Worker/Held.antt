-- ===== src/Worker/Held.antt =====
-- What may happen to the tables while workers claim scans, and that a claimed scan never waits again.
-- Each claim, being one transaction that locks its row, is one step.
use safe_cloud.Prelude.{
  String, List, [], ◌∷◌, Option, none, some, Bool, true, false, inl, inr, ◌==◌, ◌≡◌, ◌≢◌, refl, sym,
  ◌∙◌, arith, All, Any, if◌then◌else◌,
}
use safe_cloud.Prelude.Pairs.{All-append}
use safe_cloud.Policy.{received}
use safe_cloud.Exec.{ok}
use safe_cloud.Exec.Triple.{
  Keeps, Keeps-bind, Keeps-pure, Keeps-gets, Keeps-modify, Keeps-try_except,
}
use safe_cloud.Db.{
  ScanInfo, Scan, World, Assignment, assign, assign_all, connect, execute, update_rows, update_scan,
  create_scan, new_scan, claim_row, claim_in, claim_next_scan, find_stale_processing_scans,
}
use safe_cloud.Db.ScanLaws.{Keeps-connect, id-assign_all, update_rows-All}
use safe_cloud.Scanner.{Env, force_fail_stale}
use safe_cloud.Worker.InFlight.{Any-append}
use safe_cloud.Worker.{process_one, fail_all, sweep_stale}
use safe_cloud.Tolerance.Writes.{
  is_forward, all_forward, Tolerates, late_of_safe, safe_of_forward, query-Keeps,
}
use safe_cloud.Tolerance.Cleanup.{cleanup_staging-Keeps}
use safe_cloud.Tolerance.Stages.{fail-Keeps}
use safe_cloud.Tolerance.Job.{process_one-Keeps}
use safe_cloud.Frame.{update_scan-Keeps}

-- What may happen to the tables, in any order, with the ids of the scans that were claimed, the last
-- first: claims whose row is or is not taken up by a job, jobs (of any scan, claimed or not), sweeps of
-- stale scans, single updates that do not set RECEIVED, as those of a job that is not yet over, and new
-- scans with an id that no row has.
pub data History (env : Env) (start : World) : List String → World → Type 0 where
  begin : History env start [] start
  claim :
      {ids : List String} {w : World} (scan : Scan)
      → (claim_next_scan w).0 ≡ ok (some scan)
      → History env start ids w
      → History env start (scan.id ∷ ids) (claim_next_scan w).1
  no_claim :
      {ids : List String} {w : World}
      → History env start ids w
      → History env start ids (claim_next_scan w).1
  job :
      {ids : List String} {w : World} (scan : Scan)
      → History env start ids w
      → History env start ids (process_one env scan w).1
  sweep :
      {ids : List String} {w : World}
      → History env start ids w
      → History env start ids (sweep_stale env w).1
  write :
      {ids : List String} {w : World} (id : String) (fields : List Assignment)
      → all_forward fields ≡ true
      → History env start ids w
      → History env start ids (update_scan id fields w).1
  submit :
      {ids : List String} {w : World} (id : String) (info : ScanInfo)
      → All (λ r. r.id ≢ id) w.scans
      → History env start ids w
      → History env start ids (create_scan id info w).1

-- The scan has a row, and none of its rows waits.
abbrev pub IsHeld : String → List Scan → Type 0
IsHeld c rows = All (λ r. r.id ≡ c → r.status ≢ received) rows × Any (λ r. r.id ≡ c) rows

abbrev pub Held : String → World → Type 0
Held c w = IsHeld c w.scans

pub Any-update_rows :
    (c id : String) (f : Scan → Scan) (rs : List Scan)
    → ((r : Scan) → (f r).id ≡ r.id)
    → Any (λ r. r.id ≡ c) rs
    → Any (λ r. r.id ≡ c) (update_rows id f rs)
unfolding update_rows
Any-update_rows c id f [] k h = absurd h
Any-update_rows c id f (r ∷ rs) k (inl e) = inl (go (r.id == id))
  where
    go : (b : Bool) → (if b then f r else r).id ≡ c
    go true = k r ∙ e
    go false = e
Any-update_rows c id f (r ∷ rs) k (inr h) = inr (Any-update_rows c id f rs k h)

-- A change that makes no row wait keeps what is held.
update_rows-IsHeld :
    (c id : String) (f : Scan → Scan) (rs : List Scan)
    → ((r : Scan) → (f r).id ≡ r.id)
    → ((r : Scan) → r.status ≢ received → (f r).status ≢ received)
    → IsHeld c rs
    → IsHeld c (update_rows id f rs)
update_rows-IsHeld c id f rs k g (away, there) = (
  update_rows-All id f _ _ rs (λ r e p q. g r (p (sym (k r) ∙ q))) (λ r e p. p) away,
  Any-update_rows c id f rs k there,
)

assign-forward :
    (a : Assignment) (r : Scan)
    → is_forward a ≡ true
    → r.status ≢ received
    → (assign a r).status ≢ received
unfolding is_forward assign
assign-forward (Assignment.set_status received) r s h = cc
assign-forward (Assignment.set_status _) r s h = λ e. cc
assign-forward (Assignment.set_unknown v) r s h = h
assign-forward _ r s h = h

assign_all-forward :
    (fields : List Assignment) (r : Scan)
    → all_forward fields ≡ true
    → r.status ≢ received
    → (assign_all fields r).status ≢ received
unfolding all_forward assign_all
assign_all-forward [] r s h = h
assign_all-forward (a ∷ fields) r s h =
    assign_all-forward fields (assign a r) (ground arith) (assign-forward a r (ground arith) h)

module _ (c : String) where
  connect-Held : Keeps (Held c) connect
  connect-Held = Keeps-connect (λ rows results. IsHeld c rows)

  pub write-Held :
      (id : String) (fields : List Assignment)
      → all_forward fields ≡ true
      → Keeps (Held c) (update_scan id fields)
  write-Held id fields s = update_scan-Keeps id fields connect-Held (λ w h.
      update_rows-IsHeld c id (assign_all fields) w.scans (id-assign_all fields)
        (λ r. assign_all-forward fields r s) h)

  Held-tolerant : (id : String) → Tolerates all_forward id (Held c)
  Held-tolerant id = record {
    update = λ fields s e. write-Held id fields s;
    connects = connect-Held;
    outside = λ w ps rs h. h;
  }

  claim_in-Held : (w : World) (found : Option Scan) → Held c w → Held c (claim_in w found)
  unfolding claim_row
  claim_in-Held w none h = h
  claim_in-Held w (some q) h =
      update_rows-IsHeld c q.id (claim_row w.clock) w.scans (λ r. refl) (λ r n e. cc) h

  pub claim-Held : Keeps (Held c) claim_next_scan
  unfolding claim_next_scan
  claim-Held = Keeps-bind _ _ connect-Held (λ _.
      Keeps-bind _ _ (Keeps-gets _)
        (λ w. Keeps-bind _ _ (Keeps-modify _ (λ v h. claim_in-Held v _ h)) (λ _. Keeps-pure _)))

  module _ (env : Env) where
    pub job-Held : (scan : Scan) → Keeps (Held c) (process_one env scan)
    job-Held scan = process_one-Keeps scan env (Held-tolerant scan.id) (λ w s r h. h)

    fail_all-Held : (scans : List Scan) → Keeps (Held c) (fail_all env scans)
    unfolding fail_all force_fail_stale
    fail_all-Held [] = Keeps-pure tt
    fail_all-Held (scan ∷ scans) =
        let t = safe_of_forward (Held-tolerant scan.id) in
        Keeps-bind _ _
          (Keeps-try_except _ _
            (Keeps-bind _ _ (fail-Keeps scan.id t _)
              (λ _. cleanup_staging-Keeps (late_of_safe t) env _ true))
            (λ _. Keeps-pure tt))
          (λ _. fail_all-Held scans)

    pub sweep-Held : Keeps (Held c) (sweep_stale env)
    unfolding sweep_stale find_stale_processing_scans
    sweep-Held =
        Keeps-bind _ _ (Keeps-try_except _ _ (query-Keeps _ connect-Held) (λ _. Keeps-pure _))
          fail_all-Held

  pub submit-Held : (id : String) (info : ScanInfo) → id ≢ c → Keeps (Held c) (create_scan id info)
  unfolding create_scan execute new_scan
  submit-Held id info n = Keeps-bind _ _ (Keeps-gets _) (λ now.
      Keeps-bind _ _
        (Keeps-bind _ _ connect-Held (λ _. Keeps-modify _ (λ w h. (
          All-append _ w.scans (new_scan id info now) h.0 (λ e. absurd (n e)),
          Any-append _ w.scans (new_scan id info now ∷ []) h.1,
        ))))
        (λ _. Keeps-pure _))
