-- ===== src/Keepers.antt =====
-- The keepers: bots that act on the protocol's contracts in passes (`tick`).
pub mod Feeds
pub mod Liquidation
pub mod Oracles
pub mod Settlement
pub mod Transactions
pub mod Directory
