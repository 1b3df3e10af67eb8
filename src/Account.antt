-- ===== src/Account.antt =====
-- The account state of app/storage.py: rate-limit snapshots classified by usage thresholds.
pub mod Windows
pub mod Laws
mod Tests
