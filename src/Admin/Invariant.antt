-- ===== src/Admin/Invariant.antt =====
-- What holds of the tables at all times.
pub mod Rows
pub mod KeyRows
pub mod Calls
pub mod Forms
