-- ===== src/Publisher/Nodes/Tests.antt =====
-- An assembled report: its leaves, and the oracle update that has them.
use mathlib.Core.Option.{some-injective}
use optara.Sdk.Spot.{Answer, answered}
use optara.Publisher.Nodes.Genuine.{IsAssembled}
use optara.Publisher.OracleUpdates.{
  SeriesKey, ChainView, products_of, open_series, listed_series, with_spot, oracle_update,
}
use optara.Publisher.OracleUpdates.Newer.{AllAssembled, newer}
use optara.Publisher.OracleUpdates.Proofs.{IsOracleUpdate, oracle_update-IsOracleUpdate}
use optara.Common.{
  sym, ℕ, ◌-◌, ◌<◌, ◌++◌, subst, Bool-cases, true, false, Option, some, List, [], ◌∷◌, ◌≡◌, refl,
  ap, inl, inr, arith, length, ◌==◌, get_key,
}
use optara.Common.Int.{ℤ, pos}
use optara.Sdk.Brackets.{find_tenors}
use optara.Sdk.Surface.{SurfaceReport, SurfaceGrid, NodeProof, assemble_report, pad4, ok}
use optara.Sdk.Surface.{report_of}
use optara.Publisher.Reports.{by_seq}
use optara.Publisher.Reports.Newest.{IsHeld, IsNewest}
use optara.Sdk.Surface.Proofs.{assemble_report-parts, assemble_report-fields}
use optara.Sdk.Surface.Shapes.{assemble_report_iff}
use optara.Publisher.Validate.{list_of}
use optara.Publisher.Reports.{Signed, Grids, signed_at}
use optara.Publisher.Nodes.{PricedSeries, nodes_for, nodes_around}
use optara.Publisher.Nodes.Served.{nodes_for-IsServed, IsLeafServed, AreServed}
use optara.Publisher.Tests.{hash, leaf, input}

abbrev pub made : (rg : SurfaceReport × SurfaceGrid) × (assemble_report hash leaf input ≡ ok rg)
made = (assemble_report_iff hash leaf input).1 (omega arith)

abbrev pub call : PricedSeries
call = record { strike_wad = 3; expiry = 1500 }

between : find_tenors (list_of made.0.0.tenor_timestamps) 1500 ≡ some (0, 1)
unfolding find_tenors pad4
between =
    ap (λ ts. find_tenors (list_of ts) 1500)
      (assemble_report-fields hash leaf input made.0.0 made.0.1 made.1).1

all_nodes : nodes_around (λ strike spot. pos 0) made.0.0 3 0 ≡ some (0, 1)
unfolding nodes_around
all_nodes =
    ap (λ (ks : List ℤ). some (0, length ks - 1))
      (assemble_report-fields hash leaf input made.0.0 made.0.1 made.1).2

two_nodes : 0 < length made.0.0.k_nodes
two_nodes =
    let fields = assemble_report-fields hash leaf input made.0.0 made.0.1 made.1 in
    omega (arith, ap length fields.2)

nodes_for-IsServed_example :
    (ps : List NodeProof) × (nodes_for
        (λ strike spot. pos 0)
        made.0.0
        made.0.1
        1
        (call ∷ [])
        0
        true
        (λ t j. false)
      ≡ some ps)
    × AreServed hash leaf (λ strike spot. pos 0) made.0.0 1 0 (call ∷ []) (λ t j. false) ps
nodes_for-IsServed_example =
    nodes_for-IsServed hash leaf (λ strike spot. pos 0) input made.0.0 made.0.1 1 0 (call ∷ []) true
      (λ t j. false) made.1

-- Without a spot, the first node of the later tenor is served for the call.
first_node : (ps : List NodeProof) × IsLeafServed hash leaf made.0.0 (λ t j. false) 1 0 ps
first_node =
    let (ps, _, all) =
      nodes_for-IsServed hash leaf (λ strike spot. pos 0) input made.0.0 made.0.1 1 0 (call ∷ [])
        true (λ t j. false) made.1 in
    (
      ps,
      all 0 call 0 1 0 1 1 0 refl between all_nodes (inr refl) (omega arith) (omega arith)
          two_nodes,
    )

-- The assembled report is kept as sequence 12 of product 7, and the chain has sequence 11.
abbrev pub assembled : Signed
assembled = record {
  report = made.0.0;
  grid = made.0.1;
  signatures = 2 ∷ 3 ∷ [];
  signers = 3 ∷ 2 ∷ [];
}

abbrev pub kept_grids : Grids
kept_grids = (7, (12, assembled) ∷ []) ∷ []

pub kept_grids-AllAssembled : AllAssembled hash leaf kept_grids
unfolding signed_at get_key
kept_grids-AllAssembled p seq s = elim (Bool-cases (7 == p)) [
  | inr other ↦ rw other (λ e. cc e)
  | inl same ↦ elim (Bool-cases (12 == seq)) [
    | inr other ↦ rw (same, other) (λ e. cc e)
    | inl here ↦
        rw (same, here)
          (λ e.
            subst (λ (s : Signed). IsAssembled hash leaf s.report s.grid)
              (some-injective assembled s e) (input, made.1))
  ]
]

assembled_seq : assembled.report.surface_seq ≡ 12
unfolding report_of
assembled_seq =
    let parts = assemble_report-parts hash leaf input made.0.0 made.0.1 made.1 in
    ap (λ (r : SurfaceReport). r.surface_seq) parts.6

assembled-IsNewest : IsNewest assembled 12 ((12, assembled) ∷ [])
unfolding get_key
assembled-IsNewest = (refl, refl, omega arith)

pub kept_grids-IsHeld : (p : ℕ) → IsHeld (by_seq kept_grids p)
unfolding get_key
kept_grids-IsHeld p = elim (Bool-cases (7 == p)) [
  | inr other ↦ rw other (inl refl)
  | inl same ↦ rw same (
      inr (
        assembled,
        subst (λ seq. IsNewest assembled seq ((12, assembled) ∷ [])) (sym assembled_seq)
            assembled-IsNewest,
        omega arith,
      ))
]

abbrev chain_view : ChainView
chain_view = record {
  now = 1000;
  base_feed = λ p. 70;
  quote_feed = λ p. 0;
  spot_wad = λ p. 0;
  surface_seq = λ p. 11;
  proven = λ p t j. false;
}

abbrev pub listed_call : ℕ → Option SeriesKey
listed_call id = some (record { product_id = 7; series = call })

abbrev one_blob : List ℕ → Answer
one_blob feeds = answered (5 ∷ [])

oracle_update-IsOracleUpdate_example :
    let products = products_of (open_series 1000 [] ++ listed_series listed_call (4 ∷ [])) [] in
    IsOracleUpdate hash leaf
      (λ strike spot. pos 0)
      1
      kept_grids
      chain_view
      (newer kept_grids chain_view products)
      (with_spot chain_view (λ f. false) (some one_blob) products)
      (oracle_update
        (λ strike spot. pos 0)
        1
        kept_grids
        chain_view
        (λ f. false)
        (some one_blob)
        listed_call
        []
        (4 ∷ []))
oracle_update-IsOracleUpdate_example =
    oracle_update-IsOracleUpdate hash leaf (λ strike spot. pos 0) 1 kept_grids chain_view
      kept_grids-AllAssembled (λ f. false) (some one_blob) listed_call [] (4 ∷ [])
