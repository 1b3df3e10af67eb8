-- ===== src/Plans.antt =====
-- The uses of a route plan (app/storage.py), and the usage thresholds beside them.
pub mod Uses
pub mod Once
pub mod Thresholds
mod Tests
