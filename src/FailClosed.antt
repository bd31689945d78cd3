-- ===== src/FailClosed.antt =====
-- Why a scan may be allowed: api/scanner.py and api/worker.py against the stored rows, under every
-- failure of the database, of Ansible and of the file system.
pub mod Evidence
pub mod Verdict
pub mod Job
