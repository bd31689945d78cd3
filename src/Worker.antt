-- ===== src/Worker.antt =====
-- api/worker.py: what the worker does with a job, the sweep of stale jobs, the claims of one round of
-- the main loop, and the loop as steps. Log lines and sleeping are not modelled.
pub mod Turns
pub mod Waiting
pub mod InFlight
pub mod Drain
pub mod Held
pub mod Exclusive
use safe_cloud.Prelude.{ℕ, zero, suc, ◌-◌, List, [], ◌∷◌, Option, none, some, false}
use safe_cloud.Policy.{error}
use safe_cloud.Exec.{pure, try_except, ◌>>=◌, ◌>>◌}
use safe_cloud.Db.{
  Scan, Db, text, set_status, set_allowed, set_error_message, update_scan, claim_next_scan,
  find_stale_processing_scans,
}
use safe_cloud.Scanner.{Env, process_scan, force_fail_stale}

-- `except Exception: pass`
abbrev pub ignore_errors : Db (Unit {0}) → Db (Unit {0})
ignore_errors m = try_except m (λ x. pure tt)

unfoldable pub record_error : Scan → Db (Unit {0})
record_error scan =
    update_scan scan.id
      (set_status error ∷ set_allowed false ∷ set_error_message (text "Internal worker error") ∷ [])

-- One claim; an exception ends the round's claims as an empty queue does.
unfoldable pub try_claim : Db (Option Scan)
try_claim = try_except claim_next_scan (λ x. pure none)

unfoldable pub claim_rest : Option Scan → Db (List Scan) → Db (List Scan)
claim_rest none rest = pure []
claim_rest (some scan) rest = do scans ← rest; pure (scan ∷ scans)

-- `for _ in range(capacity)`: the jobs that the round submits to the pool.
unfoldable pub claim_up_to : ℕ → Db (List Scan)
claim_up_to zero = pure []
claim_up_to (suc n) = try_claim >>= λ found. claim_rest found (claim_up_to n)

module _ (env : Env) where
  unfoldable pub process_one : Scan → Db (Unit {0})
  process_one scan = try_except (process_scan env scan) (λ x. ignore_errors (record_error scan))

  unfoldable pub fail_all : List Scan → Db (Unit {0})
  fail_all [] = pure tt
  fail_all (scan ∷ scans) = ignore_errors (force_fail_stale env scan) >> fail_all scans

  unfoldable pub sweep_stale : Db (Unit {0})
  sweep_stale = do
    stale ←
        try_except (find_stale_processing_scans env.settings.staging_max_lifetime_seconds)
          (λ x. pure [])
    fail_all stale

-- The capacity is what the running jobs leave of the concurrency, and never negative.
unfoldable pub claim_round : (concurrency in_flight : ℕ) → Db (List Scan)
claim_round concurrency in_flight = claim_up_to (concurrency - in_flight)
