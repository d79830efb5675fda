-- ===== src/Store.antt =====
-- src/jim/store/repo.py: the in-memory store.
pub mod Memory
pub mod Ledger
pub mod MonitorTables
pub mod Reputation
