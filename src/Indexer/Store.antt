-- ===== src/Indexer/Store.antt =====
-- The store of entities that envio gives a handler as `context`, and the helpers of indexer/src/lib.ts.
pub mod Once
pub mod Listed
use optara.Common.{ℕ, ◌≡◌, Bool, true, Option, none, some, List, ◌∷◌, ltb, if◌then◌else◌}
use optara.Common.Int.{ℤ, pos, ltb_ℤ}
use optara.Indexer.Entities.{
  Key, at_log, key_eq, Log, Product, SettlementGroup, Series, Account, Operator, Position, Mint,
  BalanceChange, WrapperBalance, Surface, Auction, Liquidation, Fee, Insurance, ProcessedLog,
  SettlementEvent, Market, KuruOrder, Trade, GovernanceEvent,
}

-- envio's entity tables: `get` reads the entity of an id, `set` writes it, and `get_where` lists the
-- stored entities that meet a condition.
pub record EntityStore : Type 1 where
  pub Table : Type 0 → Type 0
  pub get : {V : Type 0} → Table V → Key → Option V
  pub set : {V : Type 0} → Table V → Key → V → Table V
  pub get_where : {V : Type 0} → Table V → (V → Bool) → List V
  pub get-set :
      {V : Type 0} (t : Table V) (k : Key) (v : V) (j : Key)
      → get (set t k v) j ≡ (if key_eq k j then some v else get t j)

-- `x > 0n ? x : 0n`.
unfoldable pub max0 : ℤ → ℤ
max0 x = if ltb_ℤ (pos 0) x then x else pos 0

abbrev pub log_id : Log → Key
log_id event = at_log event.block event.log_index

abbrev pub zero_address : ℕ
zero_address = 0

abbrev pub zero32 : ℕ
zero32 = 0

-- The contracts whose events envio follows from a block on (`contractRegister`).
pub record Watched : Type 0 where
  pub wrappers : List ℕ
  pub order_books : List ℕ

pub record Context (e : EntityStore) : Type 0 where
  pub products : e.Table Product
  pub groups : e.Table SettlementGroup
  pub series : e.Table Series
  pub accounts : e.Table Account
  pub operators : e.Table Operator
  pub positions : e.Table Position
  pub mints : e.Table Mint
  pub balance_changes : e.Table BalanceChange
  pub wrapper_balances : e.Table WrapperBalance
  pub surfaces : e.Table Surface
  pub auctions : e.Table Auction
  pub liquidations : e.Table Liquidation
  pub fees : e.Table Fee
  pub insurances : e.Table Insurance
  pub processed : e.Table ProcessedLog
  pub settlement_events : e.Table SettlementEvent
  pub markets : e.Table Market
  pub kuru_orders : e.Table KuruOrder
  pub trades : e.Table Trade
  pub governance_events : e.Table GovernanceEvent
  pub watched : Watched

module _ (e : EntityStore) where
  -- Records the log, and runs `apply` unless the log was recorded before.
  unfoldable pub once : Context e → Log → (Context e → Context e) → Context e
  once c event apply = elim (e.get c.processed (log_id event)) [
    | some _ ↦ c
    | none ↦
        apply
          (record c { processed = e.set c.processed (log_id event) (record { id = log_id event }) })
  ]
