-- ===== src/Publisher/OracleUpdates/Proofs.antt =====
-- publisher/src/publisher.ts, `oracleUpdate`: the reports and the proofs that it puts into an update.
use mathlib.Core.Option.{some-injective}
use mathlib.Core.List.{map-append}
use optara.Common.{
  All-append, All-map, ℕ, Bool, true, false, ◌&&◌, Option, none, some, List, [], ◌∷◌, ◌++◌, map,
  All, ltb, ◌≡◌, ◌⊎◌, refl, sym, ap, ◌∙◌, subst, inl, inr, Bool-cases, append-nil, append_assoc,
}
use optara.Common.Int.{ℤ}
use optara.Sdk.Surface.{NodeProof}
use optara.Sdk.Surface.Proofs.{IsGenuine}
use optara.Sdk.Updates.{OracleUpdate, empty_oracle_update}
use optara.Sdk.Spot.{Answer, spot_updates_by_product}
use optara.Publisher.Reports.{Signed, Grids, latest, signed_at}
use optara.Publisher.Nodes.{PricedSeries, nodes_for}
use optara.Publisher.Nodes.Genuine.{IsAssembled, nodes_for_total, nodes_for-IsGenuine}
use optara.Publisher.OracleUpdates.Newer.{newer_of, newer, AllAssembled, latest-IsAssembled}
use optara.Publisher.OracleUpdates.{
  SeriesKey, Position, ChainView, add_current, add_report_of, add_products_of, with_spot, series_of,
  open_series, listed_series, products_of, oracle_update, then_update, wanted_products, all_failed,
}

extended_trans {ℓ κ} :
    {A : Type ℓ} {B : Type κ} (f : A → B) (u v w : List B) (xs ys : List A)
    → v ≡ u ++ map f xs
    → w ≡ v ++ map f ys
    → w ≡ u ++ map f (xs ++ ys)
extended_trans f u v w xs ys e d =
    d
    ∙ ap (λ t. t ++ map f ys) e
    ∙ append_assoc u (map f xs) (map f ys)
    ∙ ap (λ t. u ++ t) (sym (map-append f xs ys))

module _ (keccak : ℕ → ℕ → ℕ) (leaf_hash : ℕ → ℕ → ℕ → ℕ → ℕ → ℕ) (log_moneyness : ℕ → ℕ → ℤ)
    (margin : ℕ) (grids : Grids) (c : ChainView) where
  -- A leaf's proof of a report that is the product's latest, or that the chain has.
  abbrev pub IsProofOf : NodeProof → Type 0
  IsProofOf n =
      (p : ℕ) × (s : Signed) × ((latest grids p ≡ some s)
        ⊎ (signed_at grids p (c.surface_seq p) ≡ some s))
      × IsGenuine keccak leaf_hash s.report n

  -- What is added to an update for signed reports.
  abbrev pub IsExtended : OracleUpdate → List Signed → OracleUpdate → Type 0
  IsExtended u fresh u' =
      (u'.spot_updates ≡ u.spot_updates)
      × (u'.spot_product_ids ≡ u.spot_product_ids)
      × (u'.reports ≡ u.reports ++ map (λ (s : Signed). s.report) fresh)
      × (u'.report_signatures
          ≡ u.report_signatures ++ map (λ (s : Signed). some s.signatures) fresh)
      × (All IsProofOf u.nodes → All IsProofOf u'.nodes)

  IsExtended-trans :
      (u v w : OracleUpdate) (xs ys : List Signed)
      → IsExtended u xs v
      → IsExtended v ys w
      → IsExtended u (xs ++ ys) w
  IsExtended-trans u v w xs ys (a, b, d, e, f) (a', b', d', e', f') = (
    a' ∙ a,
    b' ∙ b,
    extended_trans (λ s. s.report) u.reports v.reports w.reports xs ys d d',
    extended_trans (λ s. some s.signatures) u.report_signatures v.report_signatures
        w.report_signatures xs ys e e',
    λ h. f' (f h),
  )

  IsExtended-nodes :
      (u : OracleUpdate) (ns : List NodeProof)
      → (All IsProofOf u.nodes → All IsProofOf ns)
      → IsExtended u [] (record u { nodes = ns })
  IsExtended-nodes u ns h =
      (refl, refl, sym (append-nil u.reports), sym (append-nil u.report_signatures), h)

  -- An oracle update, given the spot updates; both are none where the code throws.
  abbrev pub IsOracleUpdate : List Signed → Option OracleUpdate → Option OracleUpdate → Type 0
  IsOracleUpdate fresh none none = Unit
  IsOracleUpdate fresh none (some u) = ⊥
  IsOracleUpdate fresh (some spot) none = ⊥
  IsOracleUpdate fresh (some spot) (some u) =
      (u.spot_updates ≡ spot.spot_updates)
      × (u.spot_product_ids ≡ spot.spot_product_ids)
      × (u.reports ≡ map (λ (s : Signed). s.report) fresh)
      × (u.report_signatures ≡ map (λ (s : Signed). some s.signatures) fresh)
      × All IsProofOf u.nodes

  -- The spot updates come without reports and proofs.
  IsBare : OracleUpdate → Type 0
  IsBare u = (u.reports ≡ []) × (u.report_signatures ≡ []) × (u.nodes ≡ [])

  with_spot-IsBare :
      (is_named : ℕ → Bool) (source : Option (List ℕ → Answer)) (products : List ℕ)
      (u : OracleUpdate)
      → with_spot c is_named source products ≡ some u
      → IsBare u
  unfolding with_spot IsBare
  with_spot-IsBare is_named none products u =
      λ e. subst IsBare (some-injective empty_oracle_update u e) (refl, refl, refl)
  with_spot-IsBare is_named (some source) [] u =
      λ e. subst IsBare (some-injective empty_oracle_update u e) (refl, refl, refl)
  with_spot-IsBare is_named (some source) (p ∷ products) u =
      let fetched = spot_updates_by_product is_named source (wanted_products c (p ∷ products)) in
      elim (Bool-cases (all_failed fetched)) [
        | inl failed ↦ rw failed (λ e. cc e)
        | inr some_left ↦ rw some_left (λ e. subst IsBare (some-injective _ u e) (refl, refl, refl))
      ]

  module _ (kept : AllAssembled keccak leaf_hash grids) where
    nodes_of_total :
        (p : ℕ) (s : Signed) (mine : List PricedSeries) (skip : Bool)
        → (latest grids p ≡ some s) ⊎ (signed_at grids p (c.surface_seq p) ≡ some s)
        → (ps : List NodeProof) × (nodes_for log_moneyness s.report s.grid margin mine
              (c.spot_wad p)
              skip
              (c.proven p)
            ≡ some ps)
          × All IsProofOf ps
    nodes_of_total p s mine skip which =
        let assembled : IsAssembled keccak leaf_hash s.report s.grid = elim which [
          | inl newest ↦ latest-IsAssembled keccak leaf_hash grids kept p s newest
          | inr current ↦ kept p (c.surface_seq p) s current
        ] in
        let (ps, given) =
          nodes_for_total keccak leaf_hash log_moneyness s.report s.grid margin mine (c.spot_wad p)
            skip (c.proven p) assembled in
        let genuine =
          nodes_for-IsGenuine keccak leaf_hash log_moneyness s.report s.grid margin mine
            (c.spot_wad p) skip (c.proven p) ps assembled given in
        (ps, given, All-map (λ n g. (p, s, which, g)) ps genuine)

    current_total :
        (p : ℕ) (mine : List PricedSeries) (u : OracleUpdate) (cur : Option Signed)
        → signed_at grids p (c.surface_seq p) ≡ cur
        → (u' : OracleUpdate) × (add_current log_moneyness margin grids c p mine u cur ≡ some u')
          × IsExtended u [] u'
    current_total p mine u none e = (u, refl, IsExtended-nodes u u.nodes (λ h. h))
    current_total p mine u (some s) e =
        let (ps, given, proofs) = nodes_of_total p s mine true (inr e) in
        (
          record u { nodes = u.nodes ++ ps },
          rw given refl,
          IsExtended-nodes u (u.nodes ++ ps) (λ h. All-append IsProofOf u.nodes ps h proofs),
        )

    report_total :
        (p : ℕ) (mine : List PricedSeries) (u : OracleUpdate) (newest cur : Option Signed)
        → latest grids p ≡ newest
        → signed_at grids p (c.surface_seq p) ≡ cur
        → (u' : OracleUpdate) × (add_report_of log_moneyness margin grids c p mine u newest cur
            ≡ some u')
          × IsExtended u (newer_of c p newest) u'
    report_total p mine u none cur e d = current_total p mine u cur d
    report_total p mine u (some s) cur e d =
        elim (Bool-cases
          (ltb (c.surface_seq p) s.report.surface_seq && ltb c.now s.report.expires_at)) [
            | inr old ↦ rw old (current_total p mine u cur d)
            | inl fresh ↦
                let (ps, given, proofs) = nodes_of_total p s mine false (inl e) in
                rw fresh (
                  record u {
                    reports = u.reports ++ s.report ∷ [];
                    report_signatures = u.report_signatures ++ some s.signatures ∷ [];
                    nodes = u.nodes ++ ps;
                  },
                  rw given refl,
                  (refl, refl, refl, refl, λ h. All-append IsProofOf u.nodes ps h proofs),
                )
          ]

    products_total :
        (series : List SeriesKey) (products : List ℕ) (u : OracleUpdate)
        → (u' : OracleUpdate) × (add_products_of log_moneyness margin grids c series products u
            ≡ some u')
          × IsExtended u (newer grids c products) u'
    unfolding add_products_of
    products_total series [] u = (u, refl, IsExtended-nodes u u.nodes (λ h. h))
    products_total series (p ∷ products) u =
        let (v, e, step) =
          report_total p (series_of p series) u (latest grids p)
            (signed_at grids p (c.surface_seq p)) refl refl in
        let (w, d, rest) = products_total series products v in
        (
          w,
          ap (λ o. then_update o (add_products_of log_moneyness margin grids c series products)) e
              ∙ d,
          IsExtended-trans u v w (newer_of c p (latest grids p)) (newer grids c products) step rest,
        )

    answer-IsOracleUpdate :
        (series : List SeriesKey) (products : List ℕ) (spot : Option OracleUpdate)
        → ((u : OracleUpdate) → spot ≡ some u → IsBare u)
        → IsOracleUpdate
            (newer grids c products)
            spot
            (then_update spot (add_products_of log_moneyness margin grids c series products))
    unfolding IsBare
    answer-IsOracleUpdate series products none bare = tt
    answer-IsOracleUpdate series products (some spot) bare =
        let (u, e, (a, b, d, f, g)) = products_total series products spot in
        let (no_reports, no_signatures, no_nodes) = bare spot refl in
        rw e (
          a,
          b,
          d ∙ ap (λ t. t ++ map (λ (s : Signed). s.report) (newer grids c products)) no_reports,
          f
              ∙ ap (λ t. t ++ map (λ (s : Signed). some s.signatures) (newer grids c products))
                  no_signatures,
          g (subst (All IsProofOf) (sym no_nodes) tt),
        )

    -- Where every kept report was assembled with its grid, oracleUpdate fails exactly where the
    -- spot updates do; otherwise it returns them with, in the order of the products, exactly the
    -- latest reports that are newer than the chain's and not expired, and their signatures, and
    -- every proof in it has the product and the sequence of a product's latest report or of the
    -- kept report of the chain's sequence, and verifies against its root.
    pub oracle_update-IsOracleUpdate :
        (is_named : ℕ → Bool) (source : Option (List ℕ → Answer)) (get : ℕ → Option SeriesKey)
        (positions : List Position) (extra : List ℕ)
        → let products = products_of (open_series c.now positions ++ listed_series get extra) [] in
          IsOracleUpdate
            (newer grids c products)
            (with_spot c is_named source products)
            (oracle_update log_moneyness margin grids c is_named source get positions extra)
    unfolding oracle_update
    oracle_update-IsOracleUpdate is_named source get positions extra =
        let series = open_series c.now positions ++ listed_series get extra in
        let products = products_of series [] in
        answer-IsOracleUpdate series products (with_spot c is_named source products)
          (with_spot-IsBare is_named source products)
