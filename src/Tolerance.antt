-- ===== src/Tolerance.antt =====
-- Invariants of the shared state under the writes of api/scanner.py. `Tolerates` is what an invariant
-- has to bear; from it the children derive that clean-up, the Ansible stages and whole jobs keep it.
pub mod Writes
pub mod Cleanup
pub mod Stages
pub mod Job
