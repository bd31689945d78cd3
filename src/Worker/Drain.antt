-- ===== src/Worker/Drain.antt =====
-- The worker's loop drains the queue.
use safe_cloud.Prelude.Pairs.{All-mono}
use safe_cloud.Prelude.{
  ℕ, List, [], ◌∷◌, ◌++◌, Option, none, some, inl, inr, ◌+◌, ◌*◌, ◌≤◌, ◌<◌, ◌≡◌, ◌≢◌, ◌⊎◌, refl,
  sym, ap, subst, ◌∙◌, arith, All, length,
}
use safe_cloud.Policy.{received}
use safe_cloud.Exec.{ok}
use safe_cloud.Exec.Triple.{Keeps-Post}
use safe_cloud.Db.{Scan, World, is_received, oldest_received, claim_next_scan, claimed}
use safe_cloud.Db.Claims.{claim_next_scan-IsClaim}
use safe_cloud.Finish.Calm.{IsTerminal, Calm, Done}
use safe_cloud.Finish.Job.{process_one-Done}
use safe_cloud.Frame.{process_one-IsFrame}
use safe_cloud.Scanner.{Env}
use safe_cloud.Worker.{process_one}
use safe_cloud.Worker.Turns.{Pool, Step, Run}
use safe_cloud.Worker.Waiting.{bit, waiting, claim-less, oldest_received-waiting, finish-le}
use safe_cloud.Worker.InFlight.{
  Accounted, IsSound, left, length-append, length-without, Any-without, claim_undisturbed,
  claim-IsSound, others-All, All-others, both,
}

module _ (env : Env) where
  finish-Done : (w : World) (scan : Scan) → Calm w → Done scan.id (process_one env scan w).1
  finish-Done w scan h = Keeps-Post (Done scan.id) _ _ ((process_one-Done scan env).run w h)

  finish-IsSound :
      (w : World) (before after : List Scan) (scan : Scan)
      → IsSound (record { world = w; in_flight = before ++ scan ∷ after })
      → IsSound (record { world = (process_one env scan w).1; in_flight = before ++ after })
  finish-IsSound w before after scan h = record {
    calm = (finish-Done w scan h.calm).0;
    rows =
        both (Accounted (before ++ after)) scan.id (process_one env scan w).1.scans
          (All-mono _ _ _ (λ r t e. inr (inl (t e))) (finish-Done w scan h.calm).1)
          (All-mono _ _ _ (λ r a n. fewer r n (a n))
            (All-others (Accounted (before ++ scan ∷ after)) scan.id _ (
              subst (All (Accounted (before ++ scan ∷ after)))
                (sym (process_one-IsFrame scan env w).scans)
                (others-All (Accounted (before ++ scan ∷ after)) scan.id w.scans h.rows))));
  }
    where
      fewer :
          (r : Scan)
          → r.id ≢ scan.id
          → Accounted (before ++ scan ∷ after) r
          → Accounted (before ++ after) r
      fewer r n (inl a) = inl a
      fewer r n (inr (inl a)) = inr (inl a)
      fewer r n (inr (inr a)) =
          inr (inr (Any-without (λ j. j.id ≡ r.id) before after scan (λ e. n (sym e)) a))

  module _ (concurrency : ℕ) where
    Step-IsSound : {p q : Pool} → Step env concurrency p q → IsSound p → IsSound q
    Step-IsSound (Step.claim {w = w} {jobs = jobs} scan free e) h = claim-IsSound w jobs scan e h
    Step-IsSound (Step.finish {w = w} before after scan) h = finish-IsSound w before after scan h

    Step-less : {p q : Pool} → Step env concurrency p q → IsSound p → left q < left p
    Step-less (Step.claim {w = w} {jobs = jobs} scan free e) h = claimed-less
      where
        claimed-less :
            (2 * waiting (claim_next_scan w).1.scans + length (jobs ++ scan ∷ []))
            < (2 * waiting w.scans + length jobs)
        claimed-less =
            let (q, same, there, first, after) = claim_next_scan-IsClaim w scan e in
            omega
              (arith, ap waiting after, claim-less q w.clock w.scans there, length-append jobs scan)
    Step-less (Step.finish {w = w} before after scan) h = omega (
      arith,
      finish-le scan.id w.scans (process_one env scan w).1.scans (finish-Done w scan h.calm).1
          (process_one-IsFrame scan env w).scans,
      length-without before after scan,
    )

    Run-IsSound :
        {n : ℕ} {p q : Pool}
        → Run env concurrency n p q
        → IsSound p
        → IsSound q × ((n + left q) ≤ left p)
    Run-IsSound Run.stay h = (h, omega arith)
    Run-IsSound (Run.go_on run step) h =
        let (sound, spent) = Run-IsSound run h in
        (Step-IsSound step sound, omega (arith, spent, Step-less step sound))

    none_waiting : (rs : List Scan) → waiting rs ≡ 0 → All (Accounted []) rs → All IsTerminal rs
    none_waiting [] z h = tt
    none_waiting (r ∷ rs) z h = (here h.0, none_waiting rs (omega (arith, z)) h.1)
      where
        here : Accounted [] r → IsTerminal r
        here (inl e) = absurd (omega (arith, z, ap (λ s. bit (is_received s)) e))
        here (inr (inl t)) = t
        here (inr (inr a)) = absurd a

    progress :
        (w : World) (jobs : List Scan)
        → 0 < concurrency
        → IsSound (record { world = w; in_flight = jobs })
        → All IsTerminal w.scans
          ⊎ ((q : Pool) × Step env concurrency (record { world = w; in_flight = jobs }) q)
    progress w (j ∷ jobs) some_place h = inr (_, Step.finish [] jobs j)
    progress w [] some_place h = go (oldest_received none w.scans) refl
      where
        go :
            (found : Option Scan)
            → oldest_received none w.scans ≡ found
            → All IsTerminal w.scans
              ⊎ ((q : Pool) × Step env concurrency (record { world = w; in_flight = [] }) q)
        go none e = inl (none_waiting w.scans (oldest_received-waiting w.scans e) h.rows)
        go (some r) e = inr (
          _,
          Step.claim _ some_place
              (ap (λ x. x.0) (claim_undisturbed w h.calm) ∙ ap (λ o. ok (claimed w o)) e),
        )

-- The worker drains its queue: where no call of the database fails, the pool has a place and every row of the table is RECEIVED or has a final status, a run of claims and jobs, in whatever order the jobs end and whatever they meet, has at most two steps for each RECEIVED row, and as long as some row has no final status there is a next step; so every run that is not cut off ends, and ends with a final status in every row.
pub Run-drains :
    (env : Env) (concurrency n : ℕ) (w : World) (q : Pool)
    → 0 < concurrency
    → w.faults ≡ []
    → All (λ r. (r.status ≡ received) ⊎ IsTerminal r) w.scans
    → Run env concurrency n (record { world = w; in_flight = [] }) q
    → (n ≤ (2 * waiting w.scans))
      × (All IsTerminal q.world.scans ⊎ ((r : Pool) × Step env concurrency q r))
Run-drains env concurrency n w q some_place calm rows run =
    let (sound, spent) =
      Run-IsSound env concurrency run
        (record { calm = calm; rows = All-mono _ _ w.scans (λ r. start r) rows }) in
    (omega (arith, spent), progress env concurrency q.world q.in_flight some_place sound)
  where
    start : (r : Scan) → (r.status ≡ received) ⊎ IsTerminal r → Accounted [] r
    start r (inl e) = inl e
    start r (inr t) = inr (inl t)
