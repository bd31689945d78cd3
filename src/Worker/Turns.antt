-- ===== src/Worker/Turns.antt =====
-- The loop of `main` as steps: a free place of the pool claims a row, and a job that is in flight ends.
-- A job is one step here, and the steps of the pool's threads come in any order; no scan is submitted
-- meanwhile, and no stale one is swept; Held has these, too.
use safe_cloud.Prelude.{ℕ, suc, List, [], ◌∷◌, ◌++◌, some, ◌<◌, ◌≡◌, length}
use safe_cloud.Exec.{ok}
use safe_cloud.Db.{Scan, World, claim_next_scan}
use safe_cloud.Scanner.{Env}
use safe_cloud.Worker.{process_one}

pub record Pool : Type 0 where
  pub world : World
  pub in_flight : List Scan

pub data Step (env : Env) (concurrency : ℕ) : Pool → Pool → Type 0 where
  claim :
      {w : World} {jobs : List Scan} (scan : Scan)
      → length jobs < concurrency
      → (claim_next_scan w).0 ≡ ok (some scan)
      → Step env concurrency
          (record { world = w; in_flight = jobs })
          (record { world = (claim_next_scan w).1; in_flight = jobs ++ scan ∷ [] })
  finish :
      {w : World} (before after : List Scan) (scan : Scan)
      → Step env concurrency
          (record { world = w; in_flight = before ++ scan ∷ after })
          (record { world = (process_one env scan w).1; in_flight = before ++ after })

-- The states that a number of steps leads to.
pub data Run (env : Env) (concurrency : ℕ) : ℕ → Pool → Pool → Type 0 where
  stay : {p : Pool} → Run env concurrency 0 p p
  go_on :
      {n : ℕ} {p q r : Pool}
      → Run env concurrency n p q
      → Step env concurrency q r
      → Run env concurrency (suc n) p r
