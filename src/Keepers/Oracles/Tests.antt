-- ===== src/Keepers/Oracles/Tests.antt =====
-- Product 1 is idle, the spot of product 2 is old, and product 3 has a newer surface.
use Prim.Native.String.{String}
use optara.Common.{
  set_key, get_key, ℕ, ◌+◌, ◌*◌, false, Option, none, some, List, [], ◌∷◌, ◌≡◌, refl, ◌==◌,
  if◌then◌else◌,
}
use optara.Common.Int.{pos}
use optara.Sdk.Surface.{SurfaceReport}
use optara.Sdk.Updates.{OracleUpdate}
use optara.Sdk.Spot.{spot_updates_by_product, Answer, answered}
use optara.Publisher.Tests.{hash, leaf}
use optara.Publisher.Nodes.Tests.{
  kept_grids, kept_grids-AllAssembled, kept_grids-IsHeld, listed_call,
}
use optara.Publisher.Reports.{no_local_signer}
use optara.Publisher.Routes.{ServerDeps}
use optara.Keepers.Oracles.Sent.{AllSent}
use optara.Keepers.Oracles.Served.{
  IsLatestReport, IsLatestProof, api_of, keeps_in, push_oracles-AllSent,
}
use optara.Keepers.Oracles.{
  OracleView, OraclePusherOptions, PublisherApi, push_oracles, spot_only_for_account,
}
use optara.Keepers.Oracles.Proofs.{IsSent, push_oracles-IsSent}

abbrev view : OracleView
view = record {
  now = 1000;
  short_notional = λ p. if p == 1 then 0 else 5;
  valid_after = λ p. 900;
  surface_seq = λ p. 6;
  max_spot_age = λ p. 60;
  publish_time = λ p. if p == 3 then 990 else 940;
  base_feed = λ p. 10 * p;
  quote_feed = λ p. 7;
  update_fee = λ blobs. 2;
}

abbrev report : SurfaceReport
report = record {
  chain_id = 1;
  verifying_contract = 2;
  product_id = 3;
  underlying = 4;
  settlement_asset = 5;
  surface_seq = 7;
  valid_after = 950;
  expires_at = 1300;
  spot_reference_id = 8;
  surface_root = 9;
  tenor_timestamps = (1100, 1200, 0, 0);
  atm_total_variance_by_tenor = (1, 2, 0, 0);
  k_nodes = pos 0 ∷ [];
  surface_min_iv_bps = 1;
  surface_max_iv_bps = 30000;
  confidence_bps = 1;
  source_count = 1;
  liquidity_score = 1;
  max_bid_ask_width_bps = 1;
  last_calibration_time = 940;
  risk_parameter_set_id = 1;
}

abbrev publisher_api : PublisherApi
publisher_api = record {
  latest_surface =
      λ p. if p == 3 then some (record { report = report; signatures = 11 ∷ [] }) else none;
  surface_nodes = λ p seq ids. some [];
}

abbrev options : OraclePusherOptions
options = record {
  is_always = false;
  refresh_seconds = none;
  active_seconds = none;
  publisher = some publisher_api;
}

abbrev one_blob : List ℕ → Answer
one_blob feeds = answered (21 ∷ [])

abbrev accept : ℕ → OracleUpdate → ℕ → ℕ × Option String
accept w u value = (w + value, none)

push_oracles-IsSent_example :
    IsSent view accept 0
      (push_oracles view accept (λ f. false) one_blob options [] (1 ∷ 2 ∷ 3 ∷ []) 0)
push_oracles-IsSent_example =
    push_oracles-IsSent view accept (λ f. false) one_blob options [] (1 ∷ 2 ∷ 3 ∷ []) 0

sends_both :
    (push_oracles view accept (λ f. false) one_blob options [] (1 ∷ 2 ∷ 3 ∷ []) 0).1
    ≡ record { spot = 2 ∷ 3 ∷ []; reports = (3, 7) ∷ []; error = none }
unfolding push_oracles spot_updates_by_product set_key get_key
sends_both = refl

spot_of_products :
    spot_only_for_account view one_blob (2 ∷ 3 ∷ [])
    ≡ some (record {
      spot_updates = 21 ∷ [];
      spot_product_ids = 2 ∷ 3 ∷ [];
      reports = [];
      report_signatures = [];
      nodes = [];
    })
unfolding spot_only_for_account
spot_of_products = refl

-- The service of a publisher that keeps one assembled report, of product 7 with sequence 12.
abbrev service : ServerDeps
service = record {
  latest_of = λ p. none;
  signed_of = λ p seq. none;
  nodes_of = λ s series spot. none;
  update_of = λ account ids. none;
  cosign_of = λ r grid. no_local_signer;
  series_by_id = listed_call;
  spot_of = λ p. 0;
}

push_oracles-AllSent_example :
    AllSent
      (IsLatestReport kept_grids)
      (IsLatestProof hash leaf kept_grids)
      view
      (push_oracles view accept
        (λ f. false)
        one_blob
        (record options {
          publisher = some (api_of (keeps_in (λ strike spot. pos 0) 1 kept_grids service));
        })
        []
        (7 ∷ [])
        0).2
push_oracles-AllSent_example =
    push_oracles-AllSent hash leaf (λ strike spot. pos 0) 1 kept_grids kept_grids-AllAssembled
      kept_grids-IsHeld service view [] options accept (λ f. false) one_blob (7 ∷ []) 0
