-- ===== src/Keepers/Liquidation/Tests.antt =====
-- The bot on a chain whose world is the number of slices left in one auction.
use optara.Common.{ℕ, ◌-◌, ◌≡◌, refl, false, none, [], ◌∷◌, All}
use optara.Common.Int.{pos}
use optara.Keepers.Liquidation.{
  Chain, BotOptions, Call, liquidate_slice, ok, PreviewResult, Slice, tick, slices_of,
}
use optara.Keepers.Liquidation.Proofs.{Pays, tick-IsPaid}

abbrev sent : ℕ → Call → ℕ
sent w (liquidate_slice _ _ _ _ _ _ _) = w - 1
sent w _ = w

abbrev one_auction : Chain
one_auction = record {
  World = ℕ;
  risk_of = λ w a. record { equity = pos 10; maintenance_margin = 20 };
  buckets_of = λ w a. 1 ∷ [];
  auction_start = λ w a u. w;
  whole_bucket = λ w a u. false;
  max_slice_bps = 2500;
  update_for = λ w a. 1;
  preview_slice = λ w a u s.
      PreviewResult.previewed (record { discount = 5000000; cash_to_liquidator = pos 300 });
  decimals = λ a. 12;
  send = λ w call. (sent w call, ok);
}

abbrev options : BotOptions
options = record {
  liquidator_account_id = 9;
  min_profit_native = 4;
  slice_bps = none;
  slippage_bps = 100;
}

abbrev slice_of_3 : Slice
slice_of_3 = record { account_id = 3; underlying = 1; slice_bps = 2500; discount = 5000000 }

-- Two slices are left: both are taken, and the auction ends.
tick_two : (tick one_auction options (3 ∷ 9 ∷ []) 2).report.slices ≡ slice_of_3 ∷ slice_of_3 ∷ []
unfolding tick slices_of
tick_two = refl

tick-IsPaid_example :
    All (Pays one_auction options) (tick one_auction options (3 ∷ 9 ∷ []) 2).report.slices
tick-IsPaid_example = tick-IsPaid one_auction options (3 ∷ 9 ∷ []) 2
