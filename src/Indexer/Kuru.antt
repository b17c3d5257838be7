-- ===== src/Indexer/Kuru.antt =====
-- indexer/src/handlers/Kuru.ts: maker orders on Kuru's order books. Order ids and unit sizes are numbers;
-- `kuru_venue` is the hash of the venue's name.
pub mod Orders
pub mod Replay
use optara.Common.{ℕ, ◌-◌, Bool, Option, none, some, List, [], ◌∷◌, ltb, ◌==◌, if◌then◌else◌}
use optara.Indexer.Entities.{
  Key, dash, Log, Market, KuruOrder, OrderStatus, is_open, is_partial, is_filled, is_cancelled,
}
use optara.Indexer.Store.{EntityStore, Context, Watched}

pub record OrderCreated : Type 0 where
  pub order_id : ℕ
  pub owner : ℕ
  pub is_buy : Bool
  pub price : ℕ
  pub size : ℕ

abbrev pub order_key : ℕ → ℕ → Key
order_key market order_id = dash market order_id

pub new_order : OrderCreated → ℕ → Log → KuruOrder
new_order p series_id event = record {
  id = order_key event.src_address p.order_id;
  market = event.src_address;
  series_id = series_id;
  order_id = p.order_id;
  owner = p.owner;
  is_buy = p.is_buy;
  price_units = p.price;
  size_units = p.size;
  remaining_units = p.size;
  filled_units = 0;
  status = is_open;
  created_block = event.block;
  updated_block = event.block;
  tx_hash = event.tx_hash;
  created_at = event.timestamp;
  updated_at = event.timestamp;
}

-- `remaining === 0n ? "FILLED" : remaining < o.sizeUnits ? "PARTIAL" : "OPEN"`.
pub status_after : ℕ → ℕ → OrderStatus
status_after remaining size =
    if remaining == 0 then is_filled else if ltb remaining size then is_partial else is_open

pub traded : KuruOrder → ℕ → Log → KuruOrder
unfolding status_after
traded o remaining event = record o {
  remaining_units = remaining;
  filled_units = if ltb remaining o.size_units then o.size_units - remaining else 0;
  status = status_after remaining o.size_units;
  updated_block = event.block;
  tx_hash = event.tx_hash;
  updated_at = event.timestamp;
}

pub cancelled : KuruOrder → Log → KuruOrder
cancelled o event = record o {
  remaining_units = 0;
  status = is_cancelled;
  updated_block = event.block;
  tx_hash = event.tx_hash;
  updated_at = event.timestamp;
}

-- The early returns of the two handlers: no order, or one in the state that ends it for the handler.
pub after_trade : Option KuruOrder → ℕ → Log → Option KuruOrder
unfolding traded
after_trade none remaining event = none
after_trade (some o) remaining event = elim o.status [
  | is_cancelled ↦ none
  | _ ↦ some (traded o remaining event)
]

pub after_cancel : Option KuruOrder → Log → Option KuruOrder
unfolding cancelled
after_cancel none event = none
after_cancel (some o) event = elim o.status [ is_filled ↦ none | _ ↦ some (cancelled o event) ]

-- The order of the first market at the address; none where the address has no market.
pub order_for : OrderCreated → Log → List Market → Option KuruOrder
unfolding new_order
order_for p event [] = none
order_for p event (m ∷ _) = some (new_order p m.series_id event)

module _ (e : EntityStore) where
  pub put_order : Option KuruOrder → Context e → Context e
  put_order none c = c
  put_order (some o) c = record c { kuru_orders = e.set c.kuru_orders o.id o }

  -- `contractRegister` of MarketRegistered.
  unfoldable pub register_order_book : (kuru_venue venue_id market : ℕ) → Context e → Context e
  register_order_book kuru_venue venue_id market c =
      let books = record c.watched { order_books = market ∷ c.watched.order_books } in
      if venue_id == kuru_venue then record c { watched = books } else c

  unfoldable pub order_created : OrderCreated → Log → Context e → Context e
  unfolding put_order order_for
  order_created p event c =
      put_order (order_for p event (e.get_where c.markets (λ m. m.market == event.src_address))) c

  unfoldable pub order_traded : (order_id updated_size : ℕ) → Log → Context e → Context e
  unfolding put_order after_trade
  order_traded order_id updated_size event c =
      put_order
        (after_trade (e.get c.kuru_orders (order_key event.src_address order_id)) updated_size
          event)
        c

  unfoldable pub orders_canceled : List ℕ → Log → Context e → Context e
  unfolding put_order after_cancel
  orders_canceled [] event c = c
  orders_canceled (id ∷ ids) event c =
      orders_canceled ids event
        (put_order (after_cancel (e.get c.kuru_orders (order_key event.src_address id)) event) c)
