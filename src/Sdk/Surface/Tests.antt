-- ===== src/Sdk/Surface/Tests.antt =====
-- A report of two tenors and two nodes.
use optara.Common.{ℕ, ◌+◌, ◌*◌, ◌^◌, ◌≡◌, refl, ◌↔◌, true, none, some, [], ◌∷◌, arith}
use optara.Common.Int.{pos, negsuc}
use optara.Sdk.Merkle.{merkle_tree, verify}
use optara.Sdk.Surface.{
  NodeProof, SurfaceReport, ReportInput, SurfaceGrid, ok, err, row_count, out_of_range, no_leaves,
  entry, node_proof, assemble_report,
}
use optara.Sdk.Surface.Proofs.{assemble_report-provable}
use optara.Sdk.Surface.Shapes.{IsShaped, assemble_report_iff}

abbrev hash : ℕ → ℕ → ℕ
hash a b = (a + b) * (a + b) + a

abbrev leaf : ℕ → ℕ → ℕ → ℕ → ℕ → ℕ
leaf p s t j v = p + s + t * 100 + j * 10 + v

abbrev input : ReportInput
input = record {
  chain_id = 143;
  verifying_contract = 1;
  product_id = 7;
  underlying = 2;
  settlement_asset = 3;
  seq = 12;
  valid_after = 100;
  lifetime = 60;
  tenors = 1000 ∷ 2000 ∷ [];
  k_nodes = negsuc 4 ∷ pos 5 ∷ [];
  w = (11 ∷ 12 ∷ []) ∷ (21 ∷ 22 ∷ []) ∷ [];
  atm = 11 ∷ 21 ∷ [];
  surface_min_iv_bps = 100;
  surface_max_iv_bps = 9000;
  confidence_bps = 50;
  source_count = 2;
  liquidity_score = none;
  max_bid_ask_width_bps = none;
  last_calibration_time = none;
  spot_reference_id = none;
  risk_parameter_set_id = none;
}

missing_row : assemble_report hash leaf (record input { atm = 11 ∷ [] }) ≡ err row_count
unfolding assemble_report merkle_tree
missing_row = refl

no_node :
    assemble_report hash leaf (record input { k_nodes = []; w = [] ∷ [] ∷ [] }) ≡ err no_leaves
unfolding assemble_report merkle_tree
no_node = refl

-- The sequence number is a uint64.
large_seq : assemble_report hash leaf (record input { seq = 2 ^ 64 }) ≡ err out_of_range
unfolding assemble_report merkle_tree
large_seq = refl

assemble_report_iff_example :
    ((rg : SurfaceReport × SurfaceGrid) × (assemble_report hash leaf input ≡ ok rg))
    ↔ IsShaped input
assemble_report_iff_example = assemble_report_iff hash leaf input

input-IsShaped : IsShaped input
input-IsShaped = omega arith

abbrev built : (rg : SurfaceReport × SurfaceGrid) × (assemble_report hash leaf input ≡ ok rg)
built = (assemble_report_iff hash leaf input).1 input-IsShaped

assemble_report-provable_example :
    (np : NodeProof) × (node_proof built.0.1 1 0 ≡ some np)
    × (entry input.w 1 0 ≡ some np.total_variance_wad)
    × (verify hash np.proof built.0.0.surface_root
          (leaf built.0.0.product_id built.0.0.surface_seq 1 0 np.total_variance_wad)
        ≡ true)
assemble_report-provable_example =
    assemble_report-provable hash leaf input built.0.0 built.0.1 1 0 built.1 (omega arith)
      (omega arith)
