-- ===== src/Gateway.antt =====
-- The gate (app/gateway.py): a run's card, the events and approval requests of the app server, and the
-- answers to them.
pub mod Run
pub mod Action
pub mod Budget
pub mod Approvals
pub mod Events
pub mod Steps
pub mod Start
pub mod Tests
