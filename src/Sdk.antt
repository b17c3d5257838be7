-- ===== src/Sdk.antt =====
-- The SDK (sdk/src): surface reports with their Merkle trees, settlement proofs, event directories.
pub mod Scan
pub mod Merkle
pub mod Surface
pub mod Rounds
pub mod Choice
pub mod Ledger
pub mod Catalog
pub mod Updates
pub mod Brackets
pub mod Spot
