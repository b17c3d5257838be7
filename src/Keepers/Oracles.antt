-- ===== src/Keepers/Oracles.antt =====
-- keepers/src/oraclePusher.ts: a pass that pushes the spot and the newer surface reports of its products; and
-- the updates and fees of keepers/src/oracleFeed.ts. The chain's reads of a pass are one view, the publisher's
-- answers are arguments, converted to records, and sending is a parameter that does not throw.
pub mod Proofs
pub mod Sent
pub mod Served
mod Tests
use Prim.Native.String.{String}
use optara.Common.{
  ℕ, zero, suc, ◌+◌, ◌/◌, Bool, true, false, ◌&&◌, ◌||◌, Option, none, some, List, [], ◌∷◌, ◌++◌,
  elem, add_to, leb, ltb, ◌==◌, if◌then◌else◌,
}
use optara.Sdk.Surface.{SurfaceReport, NodeProof}
use optara.Sdk.Updates.{OracleUpdate, empty_oracle_update}
use optara.Sdk.Spot.{Answer, answered, error, SpotUpdates, WantedProduct, spot_updates_by_product}
use optara.Sdk.Catalog.{ListedSeries}

pub record OracleView : Type 0 where
  pub now : ℕ
  pub short_notional : ℕ → ℕ
  pub valid_after : ℕ → ℕ
  pub surface_seq : ℕ → ℕ
  pub max_spot_age : ℕ → ℕ
  pub publish_time : ℕ → ℕ
  pub base_feed : ℕ → ℕ
  pub quote_feed : ℕ → ℕ
  pub update_fee : List ℕ → ℕ

pub record LatestSurface : Type 0 where
  pub report : SurfaceReport
  pub signatures : List ℕ

-- A publisher's answers, none where the response is not ok.
pub record PublisherApi : Type 0 where
  pub latest_surface : ℕ → Option LatestSurface
  pub surface_nodes : (product seq : ℕ) → List ℕ → Option (List NodeProof)

pub record OraclePusherOptions : Type 0 where
  pub is_always : Bool
  pub refresh_seconds : Option ℕ
  pub active_seconds : Option ℕ
  pub publisher : Option PublisherApi

-- The push interval, none for half of the product's greatest spot age.
abbrev pub or_zero : Option ℕ → ℕ
or_zero none = 0
or_zero (some n) = n

unfoldable pub push_interval : OraclePusherOptions → ℕ → Option ℕ
push_interval o oi =
    if o.is_always
    then none
    else if oi == 0
    then some (or_zero o.refresh_seconds)
    else o.active_seconds

abbrev pub is_skipped : OracleView → ℕ → Option ℕ → Bool
is_skipped v p none = false
is_skipped v p (some n) = (n == 0) || ltb v.now (v.valid_after p + n)

abbrev pub is_spot_due : OracleView → ℕ → Option ℕ → Bool
is_spot_due v p none = leb (v.publish_time p + v.max_spot_age p / 2) v.now
is_spot_due v p (some n) = leb (v.publish_time p + n) v.now

-- The series of the product that are not expired.
unfoldable pub open_series_of : ℕ → ℕ → List ListedSeries → List ℕ
open_series_of now p [] = []
open_series_of now p (s ∷ series) =
    let rest = open_series_of now p series in
    if (s.product_id == p) && ltb now s.expiry then s.series_id ∷ rest else rest

pub record NewerReport : Type 0 where
  pub report : SurfaceReport
  pub signatures : List ℕ
  pub nodes : List NodeProof

abbrev pub with_nodes : LatestSurface → Option (List NodeProof) → Option NewerReport
with_nodes l none = none
with_nodes l (some nodes) =
    some (record { report = l.report; signatures = l.signatures; nodes = nodes })

-- What a pass has collected: the products to update, the update's reports, and the list it returns.
pub record Collected : Type 0 where
  pub spot_products : List ℕ
  pub update : OracleUpdate
  pub reports : List (ℕ × ℕ)

abbrev pub with_report : ℕ → Collected → Option NewerReport → Collected
with_report p c none = c
with_report p c (some r) = record {
  spot_products = add_to p c.spot_products;
  update = record c.update {
    reports = c.update.reports ++ r.report ∷ [];
    report_signatures = c.update.report_signatures ++ some r.signatures ∷ [];
    nodes = c.update.nodes ++ r.nodes;
  };
  reports = c.reports ++ (p, r.report.surface_seq) ∷ [];
}

pub record Pushed : Type 0 where
  pub spot : List ℕ
  pub reports : List (ℕ × ℕ)
  pub error : Option String

-- The fee of an update's spot blobs, as the chain says.
unfoldable pub fee_for : OracleView → OracleUpdate → ℕ
fee_for v u = elim u.spot_updates [ [] ↦ 0 | b ∷ bs ↦ v.update_fee (b ∷ bs) ]

module _ (v : OracleView) where
  abbrev pub unless_old : PublisherApi → List ListedSeries → ℕ → LatestSurface → Option NewerReport
  unless_old api catalog p l =
      if leb l.report.surface_seq (v.surface_seq p) || leb l.report.expires_at v.now
      then none
      else with_nodes l (api.surface_nodes p l.report.surface_seq (open_series_of v.now p catalog))

  unfoldable pub newer_report : PublisherApi → List ListedSeries → ℕ → Option NewerReport
  newer_report api catalog p = elim (api.latest_surface p) [
    | none ↦ none
    | some l ↦ unless_old api catalog p l
  ]

  abbrev pub published : Option PublisherApi → List ListedSeries → ℕ → Option NewerReport
  published none catalog p = none
  published (some api) catalog p = newer_report api catalog p

  unfoldable pub visit : OraclePusherOptions → List ListedSeries → ℕ → Collected → Collected
  unfolding push_interval newer_report
  visit o catalog p c =
      let every = push_interval o (v.short_notional p) in
      let due =
        if is_spot_due v p every
        then record c { spot_products = c.spot_products ++ p ∷ [] }
        else c in
      if is_skipped v p every then c else with_report p due (published o.publisher catalog p)

  unfoldable pub visit_all :
      OraclePusherOptions → List ListedSeries → List ℕ → Collected → Collected
  unfolding visit
  visit_all o catalog [] c = c
  visit_all o catalog (p ∷ products) c = visit_all o catalog products (visit o catalog p c)

  unfoldable pub feeds_wanted : List ℕ → List WantedProduct
  feeds_wanted [] = []
  feeds_wanted (p ∷ products) =
      let feed_ids =
        if v.quote_feed p == 0 then v.base_feed p ∷ [] else v.base_feed p ∷ v.quote_feed p ∷ [] in
      record { product_id = p; feed_ids = feed_ids } ∷ feeds_wanted products

  -- `SpotOnlyFeed.forAccount`: the feeds of the products, each once.
  unfoldable pub source_feeds : List ℕ → List ℕ → List ℕ
  source_feeds [] out = out
  source_feeds (p ∷ products) out =
      let base = add_to (v.base_feed p) out in
      source_feeds products (if v.quote_feed p == 0 then base else add_to (v.quote_feed p) base)

  abbrev pub spot_only : List ℕ → Answer → Option OracleUpdate
  spot_only products (error message) = none
  spot_only products (answered blobs) =
      some (record empty_oracle_update { spot_updates = blobs; spot_product_ids = products })

  unfoldable pub spot_only_for_account : (List ℕ → Answer) → List ℕ → Option OracleUpdate
  unfolding source_feeds
  spot_only_for_account source [] = some empty_oracle_update
  spot_only_for_account source (p ∷ products) =
      spot_only (p ∷ products) (source (source_feeds (p ∷ products) []))

  -- The pass ends with the world, what it returns and the update that it has sent.
  module _ {World : Type 0}
      (send : World → OracleUpdate → (value : ℕ) → World × Option String) where
    abbrev pub answer_of : Collected → OracleUpdate → Option String → Pushed
    answer_of c u none = record { spot = u.spot_product_ids; reports = c.reports; error = none }
    answer_of c u (some message) = record { spot = []; reports = []; error = some message }

    unfoldable pub push_update :
        World → Collected → OracleUpdate → World × Pushed × Option OracleUpdate
    unfolding fee_for
    push_update w c u =
        let (w', message) = send w u (fee_for v u) in (w', answer_of c u message, some u)

    abbrev pub push_fetched : World → Collected → SpotUpdates → World × Pushed × Option OracleUpdate
    push_fetched w c fetched =
        let sent = push_update w c (record c.update {
          spot_updates = fetched.updates;
          spot_product_ids = fetched.product_ids;
        }) in
        elim fetched.product_ids [
          | [] ↦ elim c.update.reports [
            | [] ↦ (
              w,
              record { spot = []; reports = []; error = some "no spot update could be fetched" },
              none,
            )
            | _ ↦ sent
          ]
          | _ ↦ sent
        ]

    unfoldable pub push_oracles :
        (is_named : ℕ → Bool) (source : List ℕ → Answer)
        → OraclePusherOptions
        → List ListedSeries
        → List ℕ
        → World
        → World × Pushed × Option OracleUpdate
    unfolding visit_all feeds_wanted push_update
    push_oracles is_named source o catalog products w =
        let c =
          visit_all o catalog products
            (record { spot_products = []; update = empty_oracle_update; reports = [] }) in
        elim c.spot_products [
          | [] ↦ (w, record { spot = []; reports = c.reports; error = none }, none)
          | p ∷ ps ↦
              push_fetched w c (spot_updates_by_product is_named source (feeds_wanted (p ∷ ps)))
        ]
