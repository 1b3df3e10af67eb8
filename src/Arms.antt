-- ===== src/Arms.antt =====
-- The one-time arms of the egress harness (app/storage.py).
pub mod Table
pub mod Once
pub mod Windows
mod Tests
