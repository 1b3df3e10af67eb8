-- ===== src/Ledger.antt =====
-- The token ledger (app/token_ledger.py).
pub mod Records
pub mod Compare
pub mod Report
pub mod Tests
