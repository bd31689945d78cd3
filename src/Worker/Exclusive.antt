-- ===== src/Worker/Exclusive.antt =====
-- Who gets a scan: the claims of any number of workers among jobs, sweeps, updates and new scans.
use safe_cloud.Prelude.{
  ℕ, String, List, [], ◌∷◌, some, inl, inr, ◌≡◌, ◌≢◌, refl, sym, ap, subst, ◌∙◌, All, Any,
}
use safe_cloud.Prelude.Pairs.{Apart, All-mono}
use safe_cloud.Policy.{received}
use safe_cloud.Exec.{ok}
use safe_cloud.Db.{Scan, World, update_rows, claim_row, claim_next_scan}
use safe_cloud.Db.ScanLaws.{update_rows-All}
use safe_cloud.Db.Claims.{IsWaiting, claim_next_scan-IsClaim}
use safe_cloud.Scanner.{Env}
use safe_cloud.Worker.Held.{
  History, IsHeld, Held, Any-update_rows, write-Held, claim-Held, job-Held, sweep-Held, submit-Held,
}

fresh_other :
    (c id : String) (rs : List Scan) → Any (λ r. r.id ≡ c) rs → All (λ r. r.id ≢ id) rs → id ≢ c
fresh_other c id [] h f = absurd h
fresh_other c id (r ∷ rs) (inl e) f = λ q. f.0 (e ∙ sym q)
fresh_other c id (r ∷ rs) (inr h) f = fresh_other c id rs h f.1

waiting_other :
    (c : String) (q : Scan) (rs : List Scan)
    → Any (IsWaiting q) rs
    → All (λ r. r.id ≡ c → r.status ≢ received) rs
    → q.id ≢ c
waiting_other c q [] h f = absurd h
waiting_other c q (r ∷ rs) (inl (e, s)) f = λ k. f.0 (ap (λ u. u.id) e ∙ k) s
waiting_other c q (r ∷ rs) (inr h) f = waiting_other c q rs h f.1

waiting_there : (q : Scan) (rs : List Scan) → Any (IsWaiting q) rs → Any (λ r. r.id ≡ q.id) rs
waiting_there q [] h = h
waiting_there q (r ∷ rs) (inl (e, s)) = inl (ap (λ u. u.id) e)
waiting_there q (r ∷ rs) (inr h) = inr (waiting_there q rs h)

claimed_rows :
    (id : String) (now : ℕ) (rs : List Scan)
    → All (λ r. r.id ≡ id → r.status ≢ received) (update_rows id (claim_row now) rs)
unfolding claim_row
claimed_rows id now rs =
    update_rows-All id (claim_row now) (λ r. Unit) _ rs (λ r e u q. λ s. cc)
      (λ r n u q. absurd (n q)) (each rs)
  where
    each : (rs : List Scan) → All (λ r. Unit) rs
    each [] = tt
    each (r ∷ rs) = (tt, each rs)

claimed-Held :
    (w : World) (scan : Scan)
    → (claim_next_scan w).0 ≡ ok (some scan)
    → Held scan.id (claim_next_scan w).1
unfolding claim_row
claimed-Held w scan e =
    let (q, same, there, _, after) = claim_next_scan-IsClaim w scan e in
    subst (λ id. IsHeld id (claim_next_scan w).1.scans) (sym (ap (λ u. u.id) same))
      (subst (IsHeld q.id) (sym after) (
        claimed_rows q.id w.clock w.scans,
        Any-update_rows q.id q.id (claim_row w.clock) w.scans (λ r. refl)
            (waiting_there q w.scans there),
      ))

claimed_other :
    (w : World) (scan : Scan) (c : String)
    → (claim_next_scan w).0 ≡ ok (some scan)
    → Held c w
    → scan.id ≢ c
unfolding claim_row
claimed_other w scan c e h =
    let (q, same, there, _, _) = claim_next_scan-IsClaim w scan e in
    λ k. waiting_other c q w.scans there h.0 (sym (ap (λ u. u.id) same) ∙ k)

-- What a history leaves: claims of different scans, none of which waits.
abbrev Exclusive : List String → World → Type 0
Exclusive ids w = Apart (λ a b. a ≢ b) ids × All (λ c. Held c w) ids

History-Exclusive :
    {env : Env} {start w : World} {ids : List String} → History env start ids w → Exclusive ids w
History-Exclusive History.begin = (tt, tt)
History-Exclusive (History.claim {ids} {w} scan e h) =
    let (apart, held) = History-Exclusive h in
    (
      (All-mono _ _ ids (λ c k. claimed_other w scan c e k) held, apart),
      (claimed-Held w scan e, All-mono _ _ ids (λ c k. (claim-Held c).run w k) held),
    )
History-Exclusive (History.no_claim {ids} {w} h) =
    let (apart, held) = History-Exclusive h in
    (apart, All-mono _ _ ids (λ c k. (claim-Held c).run w k) held)
History-Exclusive {env} (History.job {ids} {w} scan h) =
    let (apart, held) = History-Exclusive h in
    (apart, All-mono _ _ ids (λ c k. (job-Held c env scan).run w k) held)
History-Exclusive {env} (History.sweep {ids} {w} h) =
    let (apart, held) = History-Exclusive h in
    (apart, All-mono _ _ ids (λ c k. (sweep-Held c env).run w k) held)
History-Exclusive (History.write {ids} {w} id fields s h) =
    let (apart, held) = History-Exclusive h in
    (apart, All-mono _ _ ids (λ c k. (write-Held c id fields s).run w k) held)
History-Exclusive (History.submit {ids} {w} id info fresh h) =
    let (apart, held) = History-Exclusive h in
    (
      apart,
      All-mono _ _ ids (λ c k. (submit-Held c id info (fresh_other c id w.scans k.1 fresh)).run w k)
          held,
    )

-- Whatever happens in whatever order, and whatever fails on its way (claims by any worker, jobs, sweeps of stale scans, single updates that do not set RECEIVED, and new scans with ids that no row has), the ids of the scans that were claimed are pairwise different: no scan is given to two jobs.
pub History-Apart :
    {env : Env} {start w : World} {ids : List String}
    → History env start ids w
    → Apart (λ a b. a ≢ b) ids
History-Apart h = (History-Exclusive h).0
