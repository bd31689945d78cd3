-- ===== src/Examples/Flows.antt =====
-- Concrete runs of the worker's loop.
use safe_cloud.Prelude.{
  String, [], ◌∷◌, none, some, ◌≢◌, ◌⊎◌, inl, refl, arith, All, false, ◌≤◌, ◌*◌,
}
use safe_cloud.Policy.{clean}
use safe_cloud.Exec.{◌>>=◌, pure, gets, modify}
use safe_cloud.Db.{
  Scan, World, new_scan, claim_row, claim_next_scan, connect, oldest_received, update_rows,
}
use safe_cloud.Finish.Calm.{IsTerminal}
use safe_cloud.Worker.{process_one}
use safe_cloud.Worker.Turns.{Pool, Step, Run}
use safe_cloud.Worker.Waiting.{waiting}
use safe_cloud.Worker.Drain.{Run-drains}
use safe_cloud.Worker.Held.{History}
use safe_cloud.Worker.Exclusive.{History-Apart}
use safe_cloud.Prelude.Pairs.{Apart}
use safe_cloud.Detection.{no_bad_entry, PdfOutcome}
use safe_cloud.Upload.Handler.{UploadCall, UploadEnv}
use safe_cloud.Upload.Poll.{poll_until_terminal, Waited, poll_until_terminal-Waited}
use safe_cloud.Examples.{env, info, world, first_claim, scan, server, settings, api, call, payload}
use safe_cloud.Api.{ScanRequest}
use safe_cloud.Api.Gate.{post_scan}
use safe_cloud.Api.Screening.{Screened, post_scan-Screened}

abbrev calm_queue : World
unfolding new_scan
calm_queue = record world { scans = new_scan "s4" info 6 ∷ new_scan "s3" info 5 ∷ [] }

abbrev after_claim : World
after_claim = (claim_next_scan calm_queue).1

abbrev after_job : Pool
after_job = record { world = (process_one env first_claim after_claim).1; in_flight = [] }

two_steps : Run env 2 2 (record { world = calm_queue; in_flight = [] }) after_job
unfolding claim_next_scan ◌>>=◌ connect pure gets modify oldest_received new_scan claim_row
    update_rows
two_steps =
    Run.go_on (Run.go_on Run.stay (Step.claim first_claim (ground arith) refl))
      (Step.finish [] [] first_claim)

Run-drains_example :
    (2 ≤ (2 * waiting calm_queue.scans))
    × (All IsTerminal after_job.world.scans ⊎ ((r : Pool) × Step env 2 after_job r))
unfolding new_scan
Run-drains_example =
    Run-drains env 2 2 calm_queue after_job (ground arith) refl (inl refl, (inl refl, tt)) two_steps

abbrev second_claim : Scan
unfolding new_scan claim_row
second_claim = claim_row 9 (new_scan "s4" info 6)

both_claimed :
    History env calm_queue
      ("s4" ∷ "s3" ∷ [])
      (process_one env first_claim (claim_next_scan after_claim).1).1
unfolding claim_next_scan ◌>>=◌ connect pure gets modify oldest_received new_scan claim_row
    update_rows
both_claimed =
    History.job first_claim
      (History.claim second_claim refl (History.claim first_claim refl History.begin))

History-Apart_example : Apart {A = String} (λ a b. a ≢ b) ("s4" ∷ "s3" ∷ [])
History-Apart_example = History-Apart both_claimed

abbrev upload_env : UploadEnv
upload_env = record {
  env = env;
  minute = 60;
  settings = record {
    max_file_size_bytes = some 100;
    allowed_extensions = [];
    blocked_extensions = "exe" ∷ [];
    allowed_mime_types = [];
    blocked_mime_types = [];
  };
  rate_limit_uploads_per_minute = none;
  sha256_hex = λ bytes. "ab";
  md5_hex = λ bytes. "cd";
  content_of =
      λ bytes. record { bytes = some bytes; zip = no_bad_entry; pdf = PdfOutcome.reader false };
  guess_type = λ name. none;
}

abbrev upload_call : UploadCall
upload_call = record {
  client = record {
    id = "c1";
    name = "portal";
    permissions = "scan.upload" ∷ [];
    scanner_profile_id = none;
  };
  username = "ada";
  user_id = none;
  email = none;
  department = none;
  source = none;
  profile = some "standard";
  filename = some "a.pdf";
  chunks = (1 ∷ 2 ∷ []) ∷ (3 ∷ []) ∷ [];
  now = 7;
  request_id = "r7";
  row_id = "s7";
}

abbrev ended_scan : Scan
ended_scan = record scan { status = clean }

poll_until_terminal-Waited_example :
    Waited "s1"
      (some scan)
      (some ended_scan ∷ none ∷ [])
      (poll_until_terminal "s1" (some scan) (some ended_scan ∷ none ∷ []))
poll_until_terminal-Waited_example =
    poll_until_terminal-Waited "s1" (some scan) (some ended_scan ∷ none ∷ [])

abbrev raw : ScanRequest
raw = record payload { sha256 = "00AA11bb00AA11bb00AA11bb00AA11bb00AA11bb00AA11bb00AA11bb00AA11bb" }

post_scan-Screened_example :
    Screened
      (λ t. none)
      16384
      settings
      call
      (some "300")
      raw
      server.world
      (post_scan (λ t. none) 16384 settings api call (some "300") raw server).0
      (post_scan (λ t. none) 16384 settings api call (some "300") raw server).1.world
post_scan-Screened_example =
    post_scan-Screened (λ t. none) 16384 settings api call (some "300") raw server
