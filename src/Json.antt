-- ===== src/Json.antt =====
-- JSON values as json.loads returns them, with is_permission_subset (app/protocol.py) and the search for
-- references to forbidden roots (app/policy.py) on them.
pub mod Values
pub mod Paths
pub mod Forbidden
pub mod Occurrence
pub mod Texts
pub mod Tests
