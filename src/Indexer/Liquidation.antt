-- ===== src/Indexer/Liquidation.antt =====
-- indexer/src/handlers/Liquidation.ts: auctions, slices, wrapper liquidations and covered bad debt.
use optara.Common.{ℕ, ◌+◌, true, false, Option, none, some, if◌then◌else◌}
use optara.Common.Int.{ℤ, pos}
use optara.Indexer.Entities.{
  Key, single, dash, Log, Series, Auction, Liquidation, LiquidationKind, slice, wrapper_slice,
  bad_debt,
}
use optara.Indexer.Store.{EntityStore, Context, log_id, zero_address, zero32, once}

abbrev pub auction_id : ℕ → ℕ → Key
auction_id account_id underlying = dash account_id underlying

-- `{ id: logId(event), ...blank(kind, accountId, timestamp) }`.
pub blank : Log → LiquidationKind → ℕ → Liquidation
blank event kind account_id = record {
  id = log_id event;
  kind = kind;
  account_id = account_id;
  underlying = zero_address;
  series_id = zero32;
  liquidator_account_id = 0;
  slice_bps = 0;
  qty = 0;
  slice_mark = pos 0;
  slice_mm = 0;
  discount = 0;
  penalty = 0;
  cash_to_liquidator = pos 0;
  insurance = 0;
  unpaid = 0;
  timestamp = event.timestamp;
}

pub record AuctionStarted : Type 0 where
  pub account_id : ℕ
  pub underlying : ℕ
  pub equity : ℤ
  pub maintenance_margin : ℕ
  pub start_time : ℕ

pub record SliceLiquidated : Type 0 where
  pub account_id : ℕ
  pub underlying : ℕ
  pub liquidator_account_id : ℕ
  pub slice_bps : ℕ
  pub slice_mark : ℤ
  pub slice_mm : ℕ
  pub discount : ℕ
  pub penalty : ℕ
  pub cash_to_liquidator : ℤ

pub record WrapperLiquidated : Type 0 where
  pub account_id : ℕ
  pub series_id : ℕ
  pub liquidator_account_id : ℕ
  pub qty : ℕ
  pub penalty : ℕ
  pub cash_to_liquidator : ℤ

-- `series?.underlying ?? ZERO_ADDRESS`.
abbrev pub underlying_of : Option Series → ℕ
underlying_of none = zero_address
underlying_of (some s) = s.underlying

module _ (e : EntityStore) where
  pub put_liquidation : Log → Liquidation → Context e → Context e
  put_liquidation event l c = record c { liquidations = e.set c.liquidations (log_id event) l }

  unfoldable pub auction_started : AuctionStarted → Log → Context e → Context e
  auction_started p event c = record c {
    auctions = e.set c.auctions (auction_id p.account_id p.underlying) (record {
      id = auction_id p.account_id p.underlying;
      account_id = p.account_id;
      underlying = p.underlying;
      active = true;
      start_time = p.start_time;
      start_equity = p.equity;
      start_maintenance_margin = p.maintenance_margin;
      slices = 0;
      wrapper_liquidations = 0;
      ended_at = 0;
      end_reason = 0;
    });
  }

  pub update_auction : Key → (Auction → Auction) → Context e → Context e
  update_auction id change c = elim (e.get c.auctions id) [
    | none ↦ c
    | some a ↦ record c { auctions = e.set c.auctions a.id (change a) }
  ]

  -- A wrapper liquidation counts for an auction only while that is active.
  pub count_wrapper : Key → Context e → Context e
  count_wrapper id c = elim (e.get c.auctions id) [
    | none ↦ c
    | some a ↦
        let counted = record a { wrapper_liquidations = a.wrapper_liquidations + 1 } in
        if a.active then record c { auctions = e.set c.auctions a.id counted } else c
  ]

  unfoldable pub slice_liquidated : SliceLiquidated → Log → Context e → Context e
  unfolding blank put_liquidation once update_auction
  slice_liquidated p event c =
      let row = blank event slice p.account_id in
      once e
        (put_liquidation event
          (record row {
            underlying = p.underlying;
            liquidator_account_id = p.liquidator_account_id;
            slice_bps = p.slice_bps;
            slice_mark = p.slice_mark;
            slice_mm = p.slice_mm;
            discount = p.discount;
            penalty = p.penalty;
            cash_to_liquidator = p.cash_to_liquidator;
          })
          c)
        event
        (update_auction (auction_id p.account_id p.underlying)
          (λ a. record a { slices = a.slices + 1 }))

  unfoldable pub wrapper_liquidated : WrapperLiquidated → Log → Context e → Context e
  unfolding blank put_liquidation once count_wrapper
  wrapper_liquidated p event c =
      let series = e.get c.series (single p.series_id) in
      let row = blank event wrapper_slice p.account_id in
      let c' =
        put_liquidation event
          (record row {
            underlying = underlying_of series;
            series_id = p.series_id;
            liquidator_account_id = p.liquidator_account_id;
            qty = p.qty;
            penalty = p.penalty;
            cash_to_liquidator = p.cash_to_liquidator;
          })
          c in
      elim series [
        | none ↦ c'
        | some s ↦ once e c' event (count_wrapper (auction_id p.account_id s.underlying))
      ]

  unfoldable pub auction_ended : (account_id underlying reason : ℕ) → Log → Context e → Context e
  unfolding update_auction
  auction_ended account_id underlying reason event =
      update_auction (auction_id account_id underlying)
        λ a. record a { active = false; ended_at = event.timestamp; end_reason = reason }

  unfoldable pub bad_debt_covered :
      (account_id insurance_amount unpaid : ℕ) → Log → Context e → Context e
  unfolding blank put_liquidation
  bad_debt_covered account_id insurance_amount unpaid event =
      let row = blank event bad_debt account_id in
      put_liquidation event (record row { insurance = insurance_amount; unpaid = unpaid })
