-- ===== src/Db.antt =====
-- api/db.py over an explicit state: the tables of db/migrations/*.sql as lists of rows, in the order
-- of insertion, the scanner host's file system and a trace of the Ansible runs. Each block
-- `with pool.connection()` is one call that commits, or raises and changes nothing; which calls
-- raise is the state's `faults`. The column names of `update_scan` are a data type.
mod Rows
mod Scans
mod Config
pub mod ScanLaws
pub mod Claims
unfoldable pub use Rows.*
unfoldable pub use Scans.*
unfoldable pub use Config.*
