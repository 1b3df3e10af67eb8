-- ===== src/Canary.antt =====
-- The one-shot execution capabilities of app/storage.py: canary windows, execution permits, claims.
pub mod Rows
pub mod Tx
pub mod Binding
pub mod Windows
pub mod Permits
pub mod Claims
pub mod Executor
pub mod Ops
pub mod Steps
pub mod Calls
pub mod Histories
pub mod Outcome
pub mod Found
pub mod Spent
pub mod Replay
pub mod Once
pub mod Lives
pub mod Single
pub mod Rollback
pub mod Reserve
pub mod Reads
mod Tests
