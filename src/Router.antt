-- ===== src/Router.antt =====
-- The route preview of app/router.py.
pub mod Types
pub mod Effort
pub mod Catalog
pub mod Ladder
pub mod Policy
pub mod Draft
pub mod Choice
pub mod Preview
mod Tests
