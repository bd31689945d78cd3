-- ===== src/Finish.antt =====
-- Where no call of the database fails, every job of api/worker.py ends with a verdict.
pub mod Calm
pub mod Stages
pub mod Job
