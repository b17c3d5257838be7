-- ===== src/Lib.antt =====
-- A verification library of Optara's off-chain code: the SDK, the indexer, the keepers, the publisher, the
-- watchdog and the web app's calculations. The protocol's contracts and the services around them are
-- parameters.
--
-- How the parts fit: the contracts emit events. The indexer (indexer/src/handlers) turns them into entities
-- and the SDK's directories (sdk/src/ledger.ts, sdk/src/catalog.ts) into lists of holders and series. The
-- keepers (keepers/src) act on these lists, with settlement proofs that the SDK finds on price feeds
-- (sdk/src/settlement.ts). Publishers sign volatility surfaces whose Merkle trees the SDK builds
-- (sdk/src/surface.ts), and serve the proofs that a transaction brings on chain. The watchdog checks all of
-- these services and reports outages. The web app (frontend/src/lib/optara) shows what a user can do, and at
-- which limits.
--
-- The modules, and the code they are about:
--   Common            booleans and tests, lists, integers, sums and maps over native numbers
--   Sdk/Merkle        MerkleTree of sdk/src/surface.ts: constructor, root, proof, verify
--   Sdk/Surface       SurfaceGrid and assembleReport of sdk/src/surface.ts; a grid whose words do not
--                     fit their ABI types is an error (leaf_fits)
--   Sdk/Rounds        findRoundInForce of sdk/src/settlement.ts, with its searches
--   Sdk/Choice        buildSettlementProof of sdk/src/settlement.ts
--   Sdk/Brackets      findTenors and findNodes of sdk/src/math.ts
--   Sdk/Spot          spotUpdatesByProduct of sdk/src/pyth.ts and the sources of sdk/src/signedPrices.ts
--   Sdk/Updates       mergeOracleUpdates of sdk/src/oracleUpdate.ts
--   Sdk/Scan          the loop of sync in sdk/src/ledger.ts and sdk/src/catalog.ts
--   Sdk/Ledger        LedgerLogDirectory of sdk/src/ledger.ts
--   Sdk/Catalog       SeriesCatalog and chooseTenors of sdk/src/catalog.ts
--   Indexer/Entities  the entities that the handlers write; Indexer/Store has their tables and
--                     indexer/src/lib.ts
--   Indexer/*         one module for each file of indexer/src/handlers, with one function for each handler
--   Indexer/Monitor   the reconciliation, health cache and alerts of indexer/api/monitor.ts
--   Keepers/*         SettlementKeeper, LiquidationBot, FeedPusher, OraclePusher, IndexerDirectory and
--                     sendTx of keepers/src
--   Publisher         publisher/src: Validate has validate.ts; Reports has publish, cosign, the quorum and the
--                     memory of publisher.ts; Nodes has nodesFor, OracleUpdates oracleUpdate
--                     and Routes the routes of server.ts
--   Watchdog          watch and the routes of watchdog/src/index.ts; Watchdog/Checks has its checks
--   Frontend/*        depth.ts, limits.ts, availability.ts and format.ts of frontend/src/lib/optara
--
-- A field of the source keeps its name in snake case, and so does a function. Addresses, hashes and ids are
-- numbers. Amounts that the source never makes negative are natural numbers; the others are integers.
--
-- State is passed explicitly: a handler takes the index (`Context`) to the index, and `none` stands for an
-- exception. A keeper's pass takes the chain's world to the world after its transactions; what a
-- transaction does, and what other actors do meanwhile, is up to the parameter `send`.
--
-- Bounds and fuel: the searches of Sdk/Rounds run on a fuel of 65, since 64 doublings or halvings exhaust
-- the 64 bits of a round number. A Merkle tree is built on a fuel of its number of leaves, each layer being
-- shorter than the one below. A scan runs on any fuel over the number of blocks. The settlement loop runs on
-- two more than the number of participants. The bot's loop has the source's own bound of 40 turns.
--
-- Parameters: keccak and the hash of a leaf, the reads of a price feed, the chain's logs, envio's tables, the
-- contracts' views and transactions. Not modelled: signatures, ABI encoding (except that it throws on
-- the words of a leaf that its types do not hold), the text of HTTP requests, SQL, logging, floating point
-- (calibration, profit and loss), the user interface, and the contracts themselves.
pub mod Common
pub mod Frontend
pub mod Indexer
pub mod Keepers
pub mod Publisher
pub mod Sdk
pub mod Watchdog
