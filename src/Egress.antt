-- ===== src/Egress.antt =====
-- The sealed egress path: app/egress_contract.py, app/egress_broker.py and app/egress_relay.py.
pub mod Contract
pub mod Broker
pub mod Headers
pub mod Single
pub mod Relayed
mod Tests
