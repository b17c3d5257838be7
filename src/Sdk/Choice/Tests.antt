-- ===== src/Sdk/Choice/Tests.antt =====
-- A source whose round in force is too old, and its fallback.
use optara.Common.{ℕ, ◌≡◌, arith}
use optara.Common.Int.{pos, negsuc, ◌+ℤ◌}
use optara.Sdk.Rounds.{ok}
use optara.Sdk.Rounds.Tests.{
  example_round, example_feed, example_feed-IsFeed, example_feed-IsOrdered,
}
use optara.Sdk.Choice.{
  FeedSource, Config, SettlementData, Preview, priced, build_settlement_proof, previewed,
}
use optara.Sdk.Choice.Proofs.{IsChosen, build_settlement_proof-IsChosen}

abbrev source : ℕ → FeedSource
source kind = record {
  kind = kind;
  feed = 1;
  feed_decimals = 8;
  quote_feed = 2;
  quote_feed_decimals = 8;
}

abbrev config : Config
config = record {
  observation_start_offset = negsuc 1;
  observation_end_offset = pos 3;
  primary = source 1;
  fallback_source = source 2;
  max_leg_skew = 60;
}

abbrev preview : SettlementData → Preview
preview d = priced 5 30

build_settlement_proof-IsChosen_example :
    (d : SettlementData) × (build_settlement_proof (λ f. example_feed) preview config 35
      ≡ ok (previewed (λ f. example_feed) preview d))
    × IsChosen (λ f. example_feed) (λ f. 2) (λ f p. 2) (λ f. example_round) config 33 38 d
unfolding ◌+ℤ◌
build_settlement_proof-IsChosen_example =
    build_settlement_proof-IsChosen (λ f. example_feed) (λ f. 2) (λ f p. 2) (λ f. example_round)
      (λ f. example_feed-IsFeed) (λ f. example_feed-IsOrdered) preview config 35 (λ f. omega arith)
