-- ===== src/Keepers/Oracles/Sent.antt =====
-- keepers/src/oraclePusher.ts: what all of a publisher's answers have, all that a pass sends has.
use Prim.Native.String.{String}
use optara.Common.{
  All-append, ℕ, Bool, Option, none, some, List, [], ◌∷◌, All, inl, inr, Bool-cases,
}
use optara.Sdk.Surface.{SurfaceReport, NodeProof}
use optara.Sdk.Updates.{OracleUpdate, empty_oracle_update}
use optara.Sdk.Spot.{Answer, SpotUpdates, spot_updates_by_product}
use optara.Sdk.Catalog.{ListedSeries}
use optara.Keepers.Oracles.{
  OracleView, OraclePusherOptions, NewerReport, Collected, Pushed, with_report, published, visit,
  visit_all, is_spot_due, is_skipped, push_interval, push_update, push_fetched, push_oracles,
  feeds_wanted,
}

-- A property of all reports and one of all proofs, which what a publisher answers has.
module _ (P : SurfaceReport → Type 0) (Q : NodeProof → Type 0) (v : OracleView) where
  abbrev pub AllOf : OracleUpdate → Type 0
  AllOf u = All P u.reports × All Q u.nodes

  abbrev pub AllNewer : Option NewerReport → Type 0
  AllNewer none = Unit
  AllNewer (some r) = P r.report × All Q r.nodes

  abbrev pub AllSent : Option OracleUpdate → Type 0
  AllSent none = Unit
  AllSent (some u) = AllOf u

  with_report-AllOf :
      (p : ℕ) (c : Collected) (r : Option NewerReport)
      → AllOf c.update
      → AllNewer r
      → AllOf (with_report p c r).update
  with_report-AllOf p c none h k = h
  with_report-AllOf p c (some r) h k = (
    All-append P c.update.reports (r.report ∷ []) h.0 (k.0, tt),
    All-append Q c.update.nodes r.nodes h.1 k.1,
  )

  module _ (o : OraclePusherOptions) (catalog : List ListedSeries)
      (answers : (p : ℕ) → AllNewer (published v o.publisher catalog p)) where
    visit-AllOf : (p : ℕ) (c : Collected) → AllOf c.update → AllOf (visit v o catalog p c).update
    unfolding visit
    visit-AllOf p c h =
        let every = push_interval o (v.short_notional p) in
        elim (Bool-cases (is_skipped v p every)) [
          | inl skipped ↦ rw skipped h
          | inr due ↦ elim (Bool-cases (is_spot_due v p every)) [
            | inl old ↦ rw (due, old) (with_report-AllOf p _ _ h (answers p))
            | inr recent ↦ rw (due, recent) (with_report-AllOf p c _ h (answers p))
          ]
        ]

    visit_all-AllOf :
        (products : List ℕ) (c : Collected)
        → AllOf c.update
        → AllOf (visit_all v o catalog products c).update
    unfolding visit_all
    visit_all-AllOf [] c h = h
    visit_all-AllOf (p ∷ products) c h = visit_all-AllOf products _ (visit-AllOf p c h)

    module _ {World : Type 0}
        (send : World → OracleUpdate → (value : ℕ) → World × Option String) where
      fetched-AllSent :
          (w : World) (c : Collected) (ids : List ℕ) (reports : List SurfaceReport)
          (sent nothing : World × Pushed × Option OracleUpdate)
          → AllSent sent.2
          → AllSent nothing.2
          → let end : World × Pushed × Option OracleUpdate = elim ids [
            | [] ↦ elim reports [ [] ↦ nothing | _ ↦ sent ]
            | _ ↦ sent
          ] in
            AllSent end.2
      fetched-AllSent w c [] [] sent nothing h k = k
      fetched-AllSent w c [] (r ∷ rs) sent nothing h k = h
      fetched-AllSent w c (p ∷ ps) reports sent nothing h k = h

      finish-AllSent :
          (w : World) (c : Collected) (fetch : List ℕ → SpotUpdates) (ps : List ℕ)
          → AllOf c.update
          → let end : World × Pushed × Option OracleUpdate = elim ps [
            | [] ↦ (w, record { spot = []; reports = c.reports; error = none }, none)
            | p ∷ ps ↦ push_fetched v send w c (fetch (p ∷ ps))
          ] in
            AllSent end.2
      unfolding push_update
      finish-AllSent w c fetch [] h = tt
      finish-AllSent w c fetch (p ∷ ps) h =
          let f = fetch (p ∷ ps) in
          fetched-AllSent w c f.product_ids c.update.reports
            (push_update v send w c
              (record c.update { spot_updates = f.updates; spot_product_ids = f.product_ids }))
            (
              w,
              record { spot = []; reports = []; error = some "no spot update could be fetched" },
              none,
            )
            h tt

      pub sent-AllSent :
          (is_named : ℕ → Bool) (source : List ℕ → Answer) (products : List ℕ) (w : World)
          → AllSent (push_oracles v send is_named source o catalog products w).2
      unfolding push_oracles
      sent-AllSent is_named source products w =
          let c =
            visit_all v o catalog products
              (record { spot_products = []; update = empty_oracle_update; reports = [] }) in
          finish-AllSent w c (λ ps. spot_updates_by_product is_named source (feeds_wanted v ps))
            c.spot_products (visit_all-AllOf products _ (tt, tt))
