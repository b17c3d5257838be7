-- ===== src/Keepers/Oracles/Proofs.antt =====
-- keepers/src/oraclePusher.ts: what a pass sends, and that it returns what it has sent.
use Prim.Native.String.{String}
use mathlib.Core.List.{map-append}
use optara.Common.{
  All-append, ℕ, ◌+◌, ◌<◌, Bool, false, Option, none, some, List, [], ◌∷◌, ◌++◌, length, map, All,
  length-append, elem, add_to, leb, ◌≡◌, refl, sym, ap, ◌∙◌, ◌⊎◌, inl, inr, Bool-cases, arith,
}
use optara.Common.Tables.{is_empty, empty-append}
use optara.Sdk.Surface.{SurfaceReport}
use optara.Sdk.Updates.{OracleUpdate, empty_oracle_update}
use optara.Sdk.Spot.{Answer, SpotUpdates, spot_updates_by_product}
use optara.Sdk.Catalog.{ListedSeries}
use optara.Keepers.Oracles.{
  OracleView, PublisherApi, OraclePusherOptions, LatestSurface, NewerReport, Collected, Pushed,
  with_report, with_nodes, unless_old, newer_report, published, visit, visit_all, is_spot_due,
  is_skipped, push_interval, answer_of, fee_for, feeds_wanted, push_update, push_fetched,
  push_oracles,
}

-- What a pass returns of the update that it has sent, or of none.
abbrev pub IsAnswer : OracleView → OracleUpdate → Pushed → Option String → Type 0
IsAnswer v u pushed none =
    (pushed.error ≡ none)
    × (pushed.spot ≡ u.spot_product_ids)
    × (map (λ (e : ℕ × ℕ). e.1) pushed.reports
        ≡ map (λ (r : SurfaceReport). r.surface_seq) u.reports)
    × All (λ (e : ℕ × ℕ). v.surface_seq e.0 < e.1) pushed.reports
IsAnswer v u pushed (some message) =
    (pushed.error ≡ some message) × (pushed.spot ≡ []) × (pushed.reports ≡ [])

-- The end of a pass that sends with `send` from the world `w`: the world, what it returns and the update.
abbrev pub IsSent :
    {World : Type 0}
    → OracleView
    → (World → OracleUpdate → ℕ → World × Option String)
    → World
    → World × Pushed × Option OracleUpdate
    → Type 0
IsSent v send w (w', pushed, none) = (w' ≡ w) × (pushed.spot ≡ []) × (pushed.reports ≡ [])
IsSent v send w (w', pushed, some u) =
    (w' ≡ (send w u (fee_for v u)).0)
    × ((is_empty u.spot_product_ids ≡ false) ⊎ (is_empty u.reports ≡ false))
    × (length u.report_signatures ≡ length u.reports)
    × All (λ (r : SurfaceReport). v.now < r.expires_at) u.reports
    × IsAnswer v u pushed (send w u (fee_for v u)).1

abbrev IsCollected : OracleView → Collected → Type 0
IsCollected v c =
    (length c.update.report_signatures ≡ length c.update.reports)
    × All (λ (r : SurfaceReport). v.now < r.expires_at) c.update.reports
    × (map (λ (e : ℕ × ℕ). e.1) c.reports
        ≡ map (λ (r : SurfaceReport). r.surface_seq) c.update.reports)
    × All (λ (e : ℕ × ℕ). v.surface_seq e.0 < e.1) c.reports
    × ((c.reports ≡ []) ⊎ (is_empty c.spot_products ≡ false))

abbrev IsNewer : OracleView → ℕ → Option NewerReport → Type 0
IsNewer v p none = Unit
IsNewer v p (some r) = (v.surface_seq p < r.report.surface_seq) × (v.now < r.report.expires_at)

add_to-filled : (p : ℕ) (out : List ℕ) → is_empty (add_to p out) ≡ false
add_to-filled p [] = refl
add_to-filled p (x ∷ out) = elim (Bool-cases (elem p (x ∷ out))) [
  | inl known ↦ rw known refl
  | inr new ↦ rw new refl
]

module _ (v : OracleView) where
  nodes-IsNewer :
      (p : ℕ) (l : LatestSurface) (nodes : Option _)
      → v.surface_seq p < l.report.surface_seq
      → v.now < l.report.expires_at
      → IsNewer v p (with_nodes l nodes)
  nodes-IsNewer p l none h k = tt
  nodes-IsNewer p l (some nodes) h k = (h, k)

  unless_old-IsNewer :
      (api : PublisherApi) (catalog : List ListedSeries) (p : ℕ) (l : LatestSurface)
      → IsNewer v p (unless_old v api catalog p l)
  unless_old-IsNewer api catalog p l =
      elim (Bool-cases (leb l.report.surface_seq (v.surface_seq p))) [
        | inl known ↦ rw known tt
        | inr newer ↦ elim (Bool-cases (leb l.report.expires_at v.now)) [
          | inl expired ↦ rw (newer, expired) tt
          | inr valid ↦ rw (newer, valid) (nodes-IsNewer p l _ (ground arith) (ground arith))
        ]
      ]

  latest-IsNewer :
      (api : PublisherApi) (catalog : List ListedSeries) (p : ℕ) (l : Option LatestSurface)
      → IsNewer v p (elim l [ none ↦ none | some l ↦ unless_old v api catalog p l ])
  latest-IsNewer api catalog p none = tt
  latest-IsNewer api catalog p (some l) = unless_old-IsNewer api catalog p l

  published-IsNewer :
      (api : Option PublisherApi) (catalog : List ListedSeries) (p : ℕ)
      → IsNewer v p (published v api catalog p)
  unfolding newer_report
  published-IsNewer none catalog p = tt
  published-IsNewer (some api) catalog p = latest-IsNewer api catalog p (api.latest_surface p)

  with_report-IsCollected :
      (p : ℕ) (c : Collected) (r : Option NewerReport)
      → IsCollected v c
      → IsNewer v p r
      → IsCollected v (with_report p c r)
  with_report-IsCollected p c none h k = h
  with_report-IsCollected p c (some r) (sigs, alive, seqs, newer, asked) k = (
    length-append c.update.report_signatures (some r.signatures ∷ [])
        ∙ ap (λ n. n + 1) sigs
        ∙ sym (length-append c.update.reports (r.report ∷ [])),
    All-append _ c.update.reports (r.report ∷ []) alive (k.1, tt),
    map-append (λ (e : ℕ × ℕ). e.1) c.reports ((p, r.report.surface_seq) ∷ [])
        ∙ ap (λ t. t ++ r.report.surface_seq ∷ []) seqs
        ∙ sym (map-append (λ (r : SurfaceReport). r.surface_seq) c.update.reports (r.report ∷ [])),
    All-append _ c.reports ((p, r.report.surface_seq) ∷ []) newer (k.0, tt),
    inr (add_to-filled p c.spot_products),
  )

  visit-IsCollected :
      (o : OraclePusherOptions) (catalog : List ListedSeries) (p : ℕ) (c : Collected)
      → IsCollected v c
      → IsCollected v (visit v o catalog p c)
  unfolding visit
  visit-IsCollected o catalog p c (sigs, alive, seqs, newer, asked) =
      let every = push_interval o (v.short_notional p) in
      let fresh = published-IsNewer o.publisher catalog p in
      elim (Bool-cases (is_skipped v p every)) [
        | inl skipped ↦ rw skipped (sigs, alive, seqs, newer, asked)
        | inr due ↦ elim (Bool-cases (is_spot_due v p every)) [
          | inl old ↦
              rw (due, old)
                (with_report-IsCollected p _ (published v o.publisher catalog p)
                  (sigs, alive, seqs, newer, inr (empty-append c.spot_products p)) fresh)
          | inr recent ↦
              rw (due, recent)
                (with_report-IsCollected p c (published v o.publisher catalog p)
                  (sigs, alive, seqs, newer, asked) fresh)
        ]
      ]

  visit_all-IsCollected :
      (o : OraclePusherOptions) (catalog : List ListedSeries) (products : List ℕ) (c : Collected)
      → IsCollected v c
      → IsCollected v (visit_all v o catalog products c)
  unfolding visit_all
  visit_all-IsCollected o catalog [] c h = h
  visit_all-IsCollected o catalog (p ∷ products) c h =
      visit_all-IsCollected o catalog products _ (visit-IsCollected o catalog p c h)

  module _ {World : Type 0}
      (send : World → OracleUpdate → (value : ℕ) → World × Option String) where
    answer_of-IsAnswer :
        (c : Collected) (u : OracleUpdate) (message : Option String)
        → (map (λ (e : ℕ × ℕ). e.1) c.reports
            ≡ map (λ (r : SurfaceReport). r.surface_seq) u.reports)
        → All (λ (e : ℕ × ℕ). v.surface_seq e.0 < e.1) c.reports
        → IsAnswer v u (answer_of v send c u message) message
    answer_of-IsAnswer c u none seqs newer = (refl, refl, seqs, newer)
    answer_of-IsAnswer c u (some message) seqs newer = (refl, refl, refl)

    push_update-IsSent :
        (w : World) (c : Collected) (updates ids : List ℕ)
        → (is_empty ids ≡ false) ⊎ (is_empty c.update.reports ≡ false)
        → IsCollected v c
        → let u = record c.update { spot_updates = updates; spot_product_ids = ids } in
          IsSent v send w (push_update v send w c u)
    unfolding push_update
    push_update-IsSent w c updates ids some_part (sigs, alive, seqs, newer, asked) =
        let u = record c.update { spot_updates = updates; spot_product_ids = ids } in
        (refl, some_part, sigs, alive, answer_of-IsAnswer c u (send w u (fee_for v u)).1 seqs newer)

    unless_nothing-IsSent :
        (w : World) (sent : World × Pushed × Option OracleUpdate) (ids : List ℕ)
        (reports : List SurfaceReport)
        → ((is_empty ids ≡ false) ⊎ (is_empty reports ≡ false) → IsSent v send w sent)
        → let nothing : World × Pushed × Option OracleUpdate = (
          w,
          record { spot = []; reports = []; error = some "no spot update could be fetched" },
          none,
        ) in
          let end : World × Pushed × Option OracleUpdate = elim ids [
            | [] ↦ elim reports [ [] ↦ nothing | _ ↦ sent ]
            | _ ↦ sent
          ] in
          IsSent v send w end
    unless_nothing-IsSent w sent [] [] h = (refl, refl, refl)
    unless_nothing-IsSent w sent [] (r ∷ rs) h = h (inr refl)
    unless_nothing-IsSent w sent (p ∷ ps) reports h = h (inl refl)

    push_fetched-IsSent :
        (w : World) (c : Collected) (f : SpotUpdates)
        → IsCollected v c
        → IsSent v send w (push_fetched v send w c f)
    push_fetched-IsSent w c f h =
        unless_nothing-IsSent w
          (push_update v send w c
            (record c.update { spot_updates = f.updates; spot_product_ids = f.product_ids }))
          f.product_ids c.update.reports
          (λ some_part. push_update-IsSent w c f.updates f.product_ids some_part h)

    -- The pass's end, where `fetch` gets the spot updates of the products.
    finish-IsSent :
        (w : World) (c : Collected) (fetch : List ℕ → SpotUpdates) (ps : List ℕ)
        → IsCollected v c
        → (c.reports ≡ []) ⊎ (is_empty ps ≡ false)
        → let end : World × Pushed × Option OracleUpdate = elim ps [
          | [] ↦ (w, record { spot = []; reports = c.reports; error = none }, none)
          | p ∷ ps ↦ push_fetched v send w c (fetch (p ∷ ps))
        ] in
          IsSent v send w end
    finish-IsSent w c fetch [] h (inl nothing) = (refl, refl, nothing)
    finish-IsSent w c fetch [] h (inr filled) = cc filled
    finish-IsSent w c fetch (p ∷ ps) h asked = push_fetched-IsSent w c (fetch (p ∷ ps)) h

    -- A pass of the oracle pusher either sends nothing and returns nothing as pushed, or sends one
    -- update with its fee, which has a spot or a report, as many lists of signatures as reports,
    -- and only reports that are not expired. Where sending succeeds the pass returns no error, the
    -- update's products, and for its reports, in their order, sequences above the chain's for the
    -- products that they were fetched for; where it fails, its error and nothing as pushed.
    pub push_oracles-IsSent :
        (is_named : ℕ → Bool) (source : List ℕ → Answer) (o : OraclePusherOptions)
        (catalog : List ListedSeries) (products : List ℕ) (w : World)
        → IsSent v send w (push_oracles v send is_named source o catalog products w)
    unfolding push_oracles
    push_oracles-IsSent is_named source o catalog products w =
        let c =
          visit_all v o catalog products
            (record { spot_products = []; update = empty_oracle_update; reports = [] }) in
        let h : IsCollected v c =
          visit_all-IsCollected o catalog products _ (refl, tt, refl, tt, inl refl) in
        finish-IsSent w c (λ ps. spot_updates_by_product is_named source (feeds_wanted v ps))
          c.spot_products h h.4
