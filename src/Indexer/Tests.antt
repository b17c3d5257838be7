-- ===== src/Indexer/Tests.antt =====
-- The indexer's handlers on an index kept as lists, and its theorems at concrete histories.
use optara.Common.{ℕ, ◌+◌, ◌≡◌, refl, true, Option, none, some, List, [], ◌∷◌, arith}
use optara.Common.Int.{ℤ, pos, negsuc, ◌+ℤ◌, ◌-ℤ◌}
use optara.Indexer.Entities.{single, dash, Log, Series}
use optara.Indexer.Store.{Context, once, max0}
use optara.Indexer.Store.Listed.{listed, lookup, replace, rows_where, empty_index}
use optara.Indexer.Registry.{SeriesCreated, new_series, series_created}
use optara.Indexer.SubAccounts.{BalanceUpdated, moved, balance_updated}
use optara.Indexer.SubAccounts.Totals.{balance_of, IsLedger}
use optara.Indexer.SubAccounts.History.{LedgerStep, LedgerRun, IsEmpty, LedgerRun-IsLedger}
use optara.Indexer.Wrapper.{transfer}
use optara.Indexer.Wrapper.Supply.{total_held, transfer_even}
use optara.Indexer.Fees.Tally.{
  InsuranceEvent, plus, tally, deliver, tallies_of, seen_of, tallies_of-deliver,
}
use optara.Indexer.Governance.{market_registered}
use optara.Indexer.Kuru.{order_created, order_traded}
use optara.Indexer.Kuru.Replay.{order_traded_again}
use optara.Indexer.Kuru.Orders.{BookEvent, IsBook, handle_all, handle_all-IsBook}

abbrev log_at : ℕ → ℕ → Log
log_at block log_index = record {
  block = block;
  log_index = log_index;
  timestamp = 1000 + block;
  src_address = 77;
  tx_hash = 9;
}

abbrev call_terms : SeriesCreated
call_terms = record {
  series_id = 5;
  group_id = 2;
  wrapper = 77;
  vol_surface_product_id = 1;
  underlying = 11;
  settlement_asset = 12;
  option_type = 0;
  strike_wad = 3000;
  contract_size_wad = 1;
  expiry = 9000;
  settlement_oracle_config_id = 4;
  risk_parameter_set_id = 6;
}

abbrev writes : ℕ → ℤ → BalanceUpdated
writes account_id balance = record {
  account_id = account_id;
  series_id = 5;
  delta = balance;
  balance = balance;
}

abbrev one_series : Context listed
one_series = series_created listed call_terms (log_at 1 0) empty_index

empty_index-IsEmpty : IsEmpty listed empty_index
unfolding empty_index listed lookup balance_of
empty_index-IsEmpty = record { no_series = λ n. refl; no_balance = λ n a. refl }

-- The index after a handler, or as it was where the handler throws.
abbrev index_after : Option (Context listed) → Context listed → Context listed
index_after none c = c
index_after (some d) c = d

abbrev one_long : Context listed
one_long =
    index_after (balance_updated listed (writes 1 (pos 4)) (log_at 2 0) one_series) one_series

abbrev long_and_short : Context listed
long_and_short =
    index_after (balance_updated listed (writes 2 (negsuc 3)) (log_at 2 1) one_long) one_long

ledger_of_two : LedgerRun listed (1 ∷ 2 ∷ []) empty_index long_and_short
unfolding empty_index listed lookup replace balance_updated moved max0 series_created new_series
    ◌+ℤ◌ ◌-ℤ◌
ledger_of_two =
    LedgerRun.more
      (LedgerRun.more
        (LedgerRun.more LedgerRun.start (LedgerStep.lists call_terms (log_at 1 0) refl refl))
        (LedgerStep.updates (writes 1 (pos 4)) (log_at 2 0) (λ h. omega arith, tt) refl))
      (LedgerStep.updates (writes 2 (negsuc 3)) (log_at 2 1) tt refl)

LedgerRun-IsLedger_example : IsLedger listed (1 ∷ 2 ∷ []) long_and_short
LedgerRun-IsLedger_example =
    LedgerRun-IsLedger listed (1 ∷ 2 ∷ []) empty_index long_and_short empty_index-IsEmpty
      ledger_of_two

ledger_totals :
    (s : Series) × (listed.get long_and_short.series (single 5) ≡ some s)
    × (s.internal_long ≡ pos 4)
    × (s.internal_short ≡ pos 4)
unfolding empty_index listed lookup replace balance_updated moved max0 series_created new_series
ledger_totals = (_, refl, refl, refl)

-- A mint to account 8, and the series that it leaves.
abbrev minted : Context listed
minted = transfer listed 0 8 10 (log_at 3 0) one_series

abbrev minted_series : Series
minted_series = record (new_series call_terms (log_at 1 0)) { wrapper_supply = pos 10 }

transfer_even_example :
    (s' : Series) × (listed.get (transfer listed 8 9 3 (log_at 4 0) minted).series (single 5)
      ≡ some s')
    × (s'.wrapper_supply +ℤ total_held listed minted 77 (8 ∷ 9 ∷ [])
        ≡ pos 10 +ℤ total_held listed (transfer listed 8 9 3 (log_at 4 0) minted) 77 (8 ∷ 9 ∷ []))
unfolding empty_index listed lookup replace rows_where series_created new_series transfer once ◌+ℤ◌
transfer_even_example =
    transfer_even listed 8 9 3 (log_at 4 0) minted (8 ∷ 9 ∷ []) minted_series [] refl refl refl
      (λ h. omega arith, tt) tt

abbrev insurance_events : List (InsuranceEvent × Log)
insurance_events =
    (InsuranceEvent.deposits 12 100, log_at 5 0)
    ∷ (InsuranceEvent.pays 12 30, log_at 5 1)
    ∷ (InsuranceEvent.deposits 12 100, log_at 5 0)
    ∷ []

tallies_of-deliver_example :
    tallies_of listed (deliver listed insurance_events empty_index) 12
    ≡ plus
        (tallies_of listed empty_index 12)
        (tally (seen_of listed empty_index) insurance_events 12)
tallies_of-deliver_example = tallies_of-deliver listed insurance_events empty_index 12

-- The deposit that is delivered twice counts once.
tally_twice :
    tally (seen_of listed empty_index) insurance_events 12
    ≡ record { deposited = 100; from_fees = 0; paid = 30 }
unfolding empty_index listed lookup tally
tally_twice = refl

abbrev book_events : List (BookEvent × Log)
book_events =
    (
      BookEvent.creates (record { order_id = 3; owner = 8; is_buy = true; price = 50; size = 10 }),
      log_at 6 0,
    )
    ∷ (BookEvent.trades 3 4, log_at 7 0)
    ∷ (BookEvent.cancels (3 ∷ []), log_at 8 0)
    ∷ []

abbrev one_market : Context listed
one_market = market_registered listed 90 5 77 (log_at 2 0) one_series

handle_all-IsBook_example : IsBook listed (handle_all listed book_events one_market)
unfolding empty_index listed lookup series_created market_registered
handle_all-IsBook_example = handle_all-IsBook listed book_events one_market λ k. refl

-- Two open orders; the first is traded, then the second, and the first trade is delivered again.
abbrev two_orders : List (BookEvent × Log)
two_orders =
    (
      BookEvent.creates (record { order_id = 3; owner = 8; is_buy = true; price = 50; size = 10 }),
      log_at 6 0,
    )
    ∷ (
      BookEvent.creates (record { order_id = 4; owner = 9; is_buy = true; price = 51; size = 20 }),
      log_at 6 1,
    )
    ∷ []

abbrev open_orders : Context listed
open_orders = handle_all listed two_orders one_market

abbrev both_traded : Context listed
both_traded =
    order_traded listed 4 6 (log_at 8 0) (order_traded listed 3 4 (log_at 7 0) open_orders)

open_orders-IsBook : IsBook listed open_orders
unfolding empty_index listed lookup series_created market_registered
open_orders-IsBook = handle_all-IsBook listed two_orders one_market λ k. refl

first_order_stands :
    listed.get both_traded.kuru_orders (dash 77 3)
    ≡ listed.get (order_traded listed 3 4 (log_at 7 0) open_orders).kuru_orders (dash 77 3)
unfolding empty_index listed lookup series_created market_registered handle_all order_created
    order_traded
first_order_stands = refl

order_traded_again_example :
    listed.get (order_traded listed 3 4 (log_at 7 0) both_traded).kuru_orders (dash 77 4)
    ≡ listed.get both_traded.kuru_orders (dash 77 4)
order_traded_again_example =
    order_traded_again listed 3 4 (log_at 7 0) open_orders both_traded open_orders-IsBook
      first_order_stands (dash 77 4)
