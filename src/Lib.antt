-- ===== src/Lib.antt =====
-- safe-cloud: an API takes files, or paths of files on a Nextcloud host, to be scanned; a worker
-- claims the rows of the table `scans` and runs each through Ansible, the detection of encryption,
-- the scanners and a policy, and the API answers with the row. A management panel edits the scanners,
-- profiles, policies, settings and API keys that these read. This library models the Python code in
-- api/ and proves what makes it correct.
--
-- The parts, the code they are about, and how they meet:
--   Prelude     lists, dictionaries and texts as the program uses them (Lists, Text, Words: `strip`,
--               `lower`, `replace`, suffixes), Boolean tests, and lists whose members differ (Pairs).
--   Policy      api/policy.py: one verdict from many scanner results; encrypted files.
--   Detection   api/encryption_detect.py: is a file encrypted, and its MIME type.
--   Exec        calls that change a state and may raise, and the rules for what they keep.
--   Db          api/db.py and db/migrations: the rows, `World` with the tables and the file system's
--               paths, and the calls `create_scan`, `claim_next_scan`, `update_scan`, `get_scan`,
--               `create_scan_results` and those that read the configuration.
--   Scanner     api/scanner.py and api/ansible_runner.py: Outside (settings, what Ansible and the
--               file system answer), Ansible, Staging (clean-up and quarantine), Stages (fetch, scan,
--               delete), Pipeline (`process_scan`).
--   Worker      api/worker.py: `_process_one`, the sweep of stale jobs, the claims of a round; Turns:
--               the main loop as a step relation of claims and jobs that end in any order; Waiting,
--               InFlight, Drain: how it drains the queue; Held, Exclusive: who gets a scan, among the claims of any
--               workers, jobs, sweeps, updates and new scans.
--   Tolerance   lemmas: a job keeps every invariant that bears its writes.
--   FailClosed  what a row that is allowed after a job rests on, and what the APIs answer then.
--   Frame       what a job leaves alone.
--   Finish      how a job ends where no call of the database fails.
--   RateLimit   `RateLimiter` of api/main.py and `_upload_rate_limit_ok` of api/routes_upload.py.
--   Paths       api/security.py: the checks of names, hosts and paths.
--   Api         api/main.py and api/models.py: `submit_scan` and the answer of `get_scan_status`;
--               Gate: the limit on a body's size and the validators of `ScanRequest` before it.
--   Upload      api/routes_upload.py: reading an upload within its limit, the choice of a profile,
--               the types of files, ownership and answers; Handler: `upload_file` as a whole; Poll:
--               waiting for a verdict.
--   Panel       api/panel/auth.py and api/panel/csrf.py: login with its lockout, and the forms' token.
--   Validation  api/scanners.py: what a scanner's configuration may contain, and the command's
--               preview.
--   Admin       api/panel/admin_scanners.py, admin_profiles.py, admin_settings.py and the re-scan of
--               routes.py, with api/auth_apikey.py and the calls of api/db.py they make: Tables
--               (`Panel`: the `World` with the other tables), Config and Keys (the calls, with the
--               tables' constraints), Requests (what the forms share), Scanners, Profiles and
--               Settings (the forms), Actions (any of these forms); Guard, Invariant, Members,
--               KeyStore and Rescan are about them.
--   Examples    concrete inputs.
--
-- State and failures. A handler or a stage is a function from `World` (or a record around it:
-- `Server` with the rate limits' queues, `Panel` with the panel's tables) to a result or an exception
-- and the new state. Every call of the database takes the next element of `faults`, and raises
-- `db_error` where it is true: a statement that PostgreSQL refuses, as for a CHECK, is such a
-- failure, and the CHECK on `scan_results.status` and the UNIQUE and REFERENCES constraints of the
-- panel's tables are also written out. What the program cannot decide is an argument: the processes
-- that Ansible starts (`Env.ansible`), the content of files with what zipfile and pypdf make of it
-- (`FileContent`), digests, `int`, `float` and `json.loads` of Python's library, drawn ids and
-- secrets, and whether a directory can be made, moved or removed. Times are natural numbers of one
-- clock. The source's `None` is `none`, and a missing key of an Ansible
-- result too, whose list of results has objects alone. A message that is
-- put together from values is a constructor over them.
--
-- A claim locks its row, and a claim at the same time skips it (`FOR UPDATE SKIP LOCKED`), so claims are
-- steps one after the other. White space and letters' case are those of ASCII. A size in a request is a
-- natural number: the refusal of a negative one is pydantic's (`ge=0`) and not modelled.
--
-- There is no fuel: every loop of the code that is modelled goes over a list or a number of turns. The
-- worker's endless loop is a relation on the tables and the jobs in flight, with the number of steps of
-- a run. A job is one step there, and a claim is another; jobs of several threads meet
-- only in the tables, where each writes rows of its own scan. A wait for a verdict is a list of the
-- reads that its deadline leaves time for.
--
-- Not modelled: log lines and pages' texts; the dashboard and the lists of scans and audit entries
-- with their filters, which only read; the panel's own upload form (api/panel/upload.py); the
-- descriptions of scanners and profiles and the metadata of audit entries; the public lists of
-- scanners and profiles and the parsing of a wait's parameters (api/routes_upload.py); `get_scan_status`
-- before its body; the parsing of the environment (api/config.py); PBKDF2, SHA-256 and what else is
-- not this repository's code; and the playbooks, containers and scripts, which are not Python.
pub mod Prelude
pub mod Policy
pub mod Detection
pub mod Exec
pub mod Db
pub mod Scanner
pub mod Worker
pub mod Tolerance
pub mod Frame
pub mod FailClosed
pub mod RateLimit
pub mod Paths
pub mod Api
pub mod Upload
pub mod Finish
pub mod Examples
pub mod Panel
pub mod Validation
pub mod Admin
