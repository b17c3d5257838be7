-- ===== src/Publisher/OracleUpdates.antt =====
-- publisher/src/publisher.ts, `oracleUpdate`: what an account's next transaction has to bring on chain. The
-- chain's reads and the catalog are arguments.
pub mod Newer
pub mod Proofs
use optara.Common.{
  ℕ, Bool, true, false, not, ◌&&◌, Option, none, some, List, [], ◌∷◌, ◌++◌, length, ltb, ◌==◌,
  if◌then◌else◌, add_to,
}
use optara.Common.Int.{ℤ, pos, eq_ℤ}
use optara.Sdk.Surface.{NodeProof}
use optara.Sdk.Updates.{OracleUpdate, empty_oracle_update}
use optara.Sdk.Spot.{Answer, SpotUpdates, WantedProduct, spot_updates_by_product}
use optara.Publisher.Reports.{Signed, Grids, latest, signed_at}
use optara.Publisher.Nodes.{PricedSeries, nodes_for}

pub record SeriesKey : Type 0 where
  pub product_id : ℕ
  pub series : PricedSeries

pub record Position : Type 0 where
  pub key : SeriesKey
  pub balance : ℤ

-- Of an account's positions, those that are open and not expired.
unfoldable pub open_series : ℕ → List Position → List SeriesKey
open_series now [] = []
open_series now (p ∷ positions) =
    let rest = open_series now positions in
    if not (eq_ℤ p.balance (pos 0)) && ltb now p.key.series.expiry then p.key ∷ rest else rest

-- The extra series that the catalog lists.
unfoldable pub listed_series : (ℕ → Option SeriesKey) → List ℕ → List SeriesKey
listed_series get [] = []
listed_series get (id ∷ ids) =
    let rest = listed_series get ids in elim (get id) [ none ↦ rest | some s ↦ s ∷ rest ]

unfoldable pub products_of : List SeriesKey → List ℕ → List ℕ
products_of [] out = out
products_of (s ∷ series) out = products_of series (add_to s.product_id out)

unfoldable pub series_of : ℕ → List SeriesKey → List PricedSeries
series_of product [] = []
series_of product (s ∷ series) =
    let rest = series_of product series in if s.product_id == product then s.series ∷ rest else rest

pub record ChainView : Type 0 where
  pub now : ℕ
  pub base_feed : ℕ → ℕ
  pub quote_feed : ℕ → ℕ
  pub spot_wad : ℕ → ℕ
  pub surface_seq : ℕ → ℕ
  pub proven : ℕ → ℕ → ℕ → Bool

-- The feeds of a product; a quote feed of 0 is none.
unfoldable pub wanted_products : ChainView → List ℕ → List WantedProduct
wanted_products c [] = []
wanted_products c (p ∷ products) =
    let feeds =
      if c.quote_feed p == 0 then c.base_feed p ∷ [] else c.base_feed p ∷ c.quote_feed p ∷ [] in
    record { product_id = p; feed_ids = feeds } ∷ wanted_products c products

-- It fails where no product could be updated and some failed.
abbrev pub all_failed : SpotUpdates → Bool
all_failed s = (length s.product_ids == 0) && ltb 0 (length s.failed)

abbrev pub then_update :
    Option OracleUpdate → (OracleUpdate → Option OracleUpdate) → Option OracleUpdate
then_update none f = none
then_update (some u) f = f u

-- The spot updates of the products, where there is a source and a product.
unfoldable pub with_spot :
    ChainView → (ℕ → Bool) → Option (List ℕ → Answer) → List ℕ → Option OracleUpdate
unfolding wanted_products
with_spot c is_named none products = some empty_oracle_update
with_spot c is_named (some source) [] = some empty_oracle_update
with_spot c is_named (some source) (p ∷ products) =
    let fetched = spot_updates_by_product is_named source (wanted_products c (p ∷ products)) in
    if all_failed fetched
    then none
    else some (record empty_oracle_update {
      spot_updates = fetched.updates;
      spot_product_ids = fetched.product_ids;
    })

module _ (log_moneyness : ℕ → ℕ → ℤ) (margin : ℕ) (grids : Grids) (c : ChainView) where
  abbrev pub add_nodes_of : OracleUpdate → Option (List NodeProof) → Option OracleUpdate
  add_nodes_of u none = none
  add_nodes_of u (some nodes) = some (record u { nodes = u.nodes ++ nodes })

  -- The leaves of the report that the chain has.
  abbrev pub add_current :
      ℕ → List PricedSeries → OracleUpdate → Option Signed → Option OracleUpdate
  add_current p mine u none = some u
  add_current p mine u (some s) =
      add_nodes_of u
        (nodes_for log_moneyness s.report s.grid margin mine (c.spot_wad p) true (c.proven p))

  abbrev pub add_latest : ℕ → List PricedSeries → OracleUpdate → Signed → Option OracleUpdate
  add_latest p mine u s =
      add_nodes_of
        (record u {
          reports = u.reports ++ s.report ∷ [];
          report_signatures = u.report_signatures ++ some s.signatures ∷ [];
        })
        (nodes_for log_moneyness s.report s.grid margin mine (c.spot_wad p) false (c.proven p))

  abbrev pub add_report_of :
      ℕ → List PricedSeries → OracleUpdate → Option Signed → Option Signed → Option OracleUpdate
  add_report_of p mine u none current = add_current p mine u current
  add_report_of p mine u (some s) current =
      let kept = add_current p mine u current in
      let renewed = add_latest p mine u s in
      if ltb (c.surface_seq p) s.report.surface_seq && ltb c.now s.report.expires_at
      then renewed
      else kept

  unfoldable pub add_products_of : List SeriesKey → List ℕ → OracleUpdate → Option OracleUpdate
  unfolding series_of
  add_products_of series [] u = some u
  add_products_of series (p ∷ products) u =
      then_update
        (add_report_of p (series_of p series) u (latest grids p)
          (signed_at grids p (c.surface_seq p)))
        (add_products_of series products)

  -- Positions are none where no account is given.
  unfoldable pub oracle_update :
      (is_named : ℕ → Bool)
      → Option (List ℕ → Answer)
      → (get : ℕ → Option SeriesKey) → List Position
      → (extra : List ℕ) → Option OracleUpdate
  unfolding open_series listed_series products_of with_spot add_products_of
  oracle_update is_named source get positions extra =
      let series = open_series c.now positions ++ listed_series get extra in
      let products = products_of series [] in
      then_update (with_spot c is_named source products) (add_products_of series products)
