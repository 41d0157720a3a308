-- ===== src/Storage/Lifecycle.antt =====
-- The life of an operation under any sequence of writes to the store.
pub mod Open
pub mod Finished
pub mod Replay
pub mod Attempts
