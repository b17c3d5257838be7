-- ===== src/Publisher.antt =====
-- The surface publisher (publisher/src): reports are validated, signed by a quorum, kept and served.
pub mod Validate
pub mod Reports
pub mod Nodes
pub mod OracleUpdates
pub mod Routes
pub mod Tests
