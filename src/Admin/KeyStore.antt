-- ===== src/Admin/KeyStore.antt =====
-- The table of API clients as a store of accounts: a client's key is unknown, out of use, or in use.
pub mod Accounts
pub mod Refines
pub mod History
