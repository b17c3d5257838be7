-- ===== src/Indexer/Governance.antt =====
-- indexer/src/handlers/Governance.ts: markets, trades and governance activity. The JSON text of an
-- event's parameters, which the governance log keeps, is an argument.
use Prim.Native.String.{String}
use optara.Common.{ℕ, Bool, none, some}
use optara.Indexer.Entities.{
  single, dash, Log, Product, GovernanceKind, Contract, close_only_set, protocol_control,
}
use optara.Indexer.Store.{EntityStore, Context, log_id}

pub record VenueTrade : Type 0 where
  pub venue_id : ℕ
  pub series_id : ℕ
  pub trader : ℕ
  pub recipient : ℕ
  pub is_buy : Bool
  pub qty : ℕ
  pub premium : ℕ
  pub buyer_fee : ℕ
  pub venue_fee : ℕ

module _ (e : EntityStore) where
  unfoldable pub market_registered : (venue_id series_id market : ℕ) → Log → Context e → Context e
  market_registered venue_id series_id market event c = record c {
    markets = e.set c.markets (dash venue_id series_id) (record {
      id = dash venue_id series_id;
      venue_id = venue_id;
      series_id = series_id;
      market = market;
      status = 0;
    });
  }

  unfoldable pub market_status_set : (venue_id series_id status : ℕ) → Log → Context e → Context e
  market_status_set venue_id series_id status event c =
      elim (e.get c.markets (dash venue_id series_id)) [
        | none ↦ c
        | some m ↦ record c { markets = e.set c.markets m.id (record m { status = status }) }
      ]

  unfoldable pub venue_trade : VenueTrade → Log → Context e → Context e
  venue_trade p event c = record c {
    trades = e.set c.trades (log_id event) (record {
      id = log_id event;
      venue_id = p.venue_id;
      series_id = p.series_id;
      trader = p.trader;
      recipient = p.recipient;
      is_buy = p.is_buy;
      qty = p.qty;
      premium = p.premium;
      buyer_fee = p.buyer_fee;
      venue_fee = p.venue_fee;
      timestamp = event.timestamp;
    });
  }

  -- `const p = await context.Product.get(id); if (p) context.Product.set(change(p))`.
  unfoldable pub update_product : ℕ → (Product → Product) → Context e → Context e
  update_product product_id change c = elim (e.get c.products (single product_id)) [
    | none ↦ c
    | some p ↦ record c { products = e.set c.products p.id (change p) }
  ]

  -- `context.GovernanceEvent.set({ id: logId(event), ... })`, as each handler of such an event writes it.
  unfoldable pub put_governance : GovernanceKind → Contract → String → Log → Context e → Context e
  put_governance kind contract detail event c = record c {
    governance_events = e.set c.governance_events (log_id event) (record {
      id = log_id event;
      kind = kind;
      contract = contract;
      detail = detail;
      timestamp = event.timestamp;
    });
  }

  unfoldable pub product_close_only_set :
      (product_id : ℕ) → Bool → String → Log → Context e → Context e
  unfolding put_governance update_product
  product_close_only_set product_id close_only detail event c =
      put_governance close_only_set protocol_control detail event
        (update_product product_id (λ p. record p { close_only = close_only }) c)
