-- ===== src/Storage.antt =====
-- The managed store: src/alr_tw/storage and src/alr_tw/contracts/storage.py.
pub mod Tables
pub mod Rows
pub mod Runs
pub mod Materials
pub mod Receipts
pub mod Operations
pub mod Deletion
pub mod Sessions
pub mod Integrity
pub mod Unaffected
pub mod Lifecycle
pub mod Purging
