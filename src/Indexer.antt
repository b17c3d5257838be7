-- ===== src/Indexer.antt =====
-- The indexer: the handlers of indexer/src that rebuild the protocol's state from its events, over the
-- entity store that envio gives them, and the monitor of indexer/api.
pub mod Entities
pub mod Store
pub mod Clearing
pub mod Fees
pub mod Governance
pub mod Kuru
pub mod Liquidation
pub mod Monitor
pub mod Oracles
pub mod Registry
pub mod Settlement
pub mod SubAccounts
pub mod Wrapper
pub mod Tests
