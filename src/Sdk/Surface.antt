-- ===== src/Sdk/Surface.antt =====
-- `SurfaceGrid` and `assembleReport` of sdk/src/surface.ts. Hashes, addresses and identifiers are
-- numbers; `leaf_hash` stands for the keccak256 of `surfaceLeaf`'s encoded words, and `leaf_fits` says whether
-- encodeAbiParameters takes them (a product id has its 32 bytes). A thrown error is a value.
pub mod Proofs
pub mod Shapes
mod Fits
mod Tests
use optara.Common.{
  ℕ, zero, suc, ◌+◌, ◌*◌, ◌^◌, Bool, true, false, ◌||◌, ◌&&◌, not, Option, none, some, List, [],
  ◌∷◌, ◌++◌, length, get_elem?, get_or, ltb, ◌==◌, if◌then◌else◌,
}
use optara.Common.Int.{ℤ}
use optara.Sdk.Merkle.{MerkleTree, merkle_tree, proof, root}

pub record NodeProof : Type 0 where
  pub product_id : ℕ
  pub surface_seq : ℕ
  pub tenor_index : ℕ
  pub node_index : ℕ
  pub total_variance_wad : ℕ
  pub proof : List ℕ

abbrev pub Four : Type 0
Four = ℕ × ℕ × ℕ × ℕ

pub record SurfaceReport : Type 0 where
  pub chain_id : ℕ
  pub verifying_contract : ℕ
  pub product_id : ℕ
  pub underlying : ℕ
  pub settlement_asset : ℕ
  pub surface_seq : ℕ
  pub valid_after : ℕ
  pub expires_at : ℕ
  pub spot_reference_id : ℕ
  pub surface_root : ℕ
  pub tenor_timestamps : Four
  pub atm_total_variance_by_tenor : Four
  pub k_nodes : List ℤ
  pub surface_min_iv_bps : ℕ
  pub surface_max_iv_bps : ℕ
  pub confidence_bps : ℕ
  pub source_count : ℕ
  pub liquidity_score : ℕ
  pub max_bid_ask_width_bps : ℕ
  pub last_calibration_time : ℕ
  pub risk_parameter_set_id : ℕ

pub record ReportInput : Type 0 where
  pub chain_id : ℕ
  pub verifying_contract : ℕ
  pub product_id : ℕ
  pub underlying : ℕ
  pub settlement_asset : ℕ
  pub seq : ℕ
  pub valid_after : ℕ
  pub lifetime : ℕ
  pub tenors : List ℕ
  pub k_nodes : List ℤ
  pub w : List (List ℕ)
  pub atm : List ℕ
  pub surface_min_iv_bps : ℕ
  pub surface_max_iv_bps : ℕ
  pub confidence_bps : ℕ
  pub source_count : ℕ
  pub liquidity_score : Option ℕ
  pub max_bid_ask_width_bps : Option ℕ
  pub last_calibration_time : Option ℕ
  pub spot_reference_id : Option ℕ
  pub risk_parameter_set_id : Option ℕ

-- The errors that the calls below throw.
pub data SurfaceError : Type 0 where
  tenor_count row_count node_count out_of_range no_leaves : SurfaceError

pub data Result {ℓ} (A : Type ℓ) : Type ℓ where
  ok : A → Result A
  err : SurfaceError → Result A

-- `x ?? d`.
abbrev pub or_default : Option ℕ → ℕ → ℕ
or_default none d = d
or_default (some x) d = x

unfoldable pub pad4 : List ℕ → Four
pad4 xs = (get_or xs 0 0, get_or xs 1 0, get_or xs 2 0, get_or xs 3 0)

-- `w[0]?.length ?? 0`.
pub nodes_per_tenor : List (List ℕ) → ℕ
nodes_per_tenor [] = 0
nodes_per_tenor (row ∷ rows) = length row

-- `rows.some((row) => row.length !== n)`.
pub some_row_differs : ℕ → List (List ℕ) → Bool
some_row_differs n [] = false
some_row_differs n (row ∷ rows) = not (length row == n) || some_row_differs n rows

-- `w[t]?.[j]`.
pub entry : List (List ℕ) → ℕ → ℕ → Option ℕ
entry w t j = elim (get_elem? w t) [ none ↦ none | some row ↦ get_elem? row j ]

pub record SurfaceGrid : Type 0 where
  pub product_id : ℕ
  pub seq : ℕ
  pub w : List (List ℕ)
  pub leaves : List ℕ
  pub tree : MerkleTree

-- `nodeProof`; `none` is its error "no leaf".
pub node_proof : SurfaceGrid → ℕ → ℕ → Option NodeProof
unfolding entry nodes_per_tenor
node_proof g t j = elim (entry g.w t j) [
  | none ↦ none
  | some v ↦ some (record {
    product_id = g.product_id;
    surface_seq = g.seq;
    tenor_index = t;
    node_index = j;
    total_variance_wad = v;
    proof = proof g.tree (t * nodes_per_tenor g.w + j);
  })
]

-- `encodeAbiParameters` throws on a sequence number, an index or a variance that its type (uint64, uint8 and
-- uint256) does not hold.
unfoldable pub leaf_fits : ℕ → ℕ → ℕ → ℕ → Bool
leaf_fits s t j v = ltb s (2 ^ 64) && ltb t 256 && ltb j 256 && ltb v (2 ^ 256)

unfoldable pub row_fits : ℕ → ℕ → ℕ → List ℕ → Bool
unfolding leaf_fits
row_fits s t j [] = true
row_fits s t j (v ∷ vs) = leaf_fits s t j v && row_fits s t (j + 1) vs

-- Whether `surfaceLeaf` returns for every node of the grid, whose first row is tenor `t`.
unfoldable pub grid_fits : ℕ → ℕ → List (List ℕ) → Bool
unfolding row_fits
grid_fits s t [] = true
grid_fits s t (row ∷ rows) = row_fits s t 0 row && grid_fits s (t + 1) rows

module _ (keccak : ℕ → ℕ → ℕ) (leaf_hash : ℕ → ℕ → ℕ → ℕ → ℕ → ℕ) where
  pub row_leaves : ℕ → ℕ → ℕ → ℕ → List ℕ → List ℕ
  row_leaves p s t j [] = []
  row_leaves p s t j (v ∷ vs) = leaf_hash p s t j v ∷ row_leaves p s t (j + 1) vs

  -- Row-major, the first row being tenor `t`; the words of every leaf fit (`grid_fits`).
  pub grid_leaves : ℕ → ℕ → ℕ → List (List ℕ) → List ℕ
  unfolding row_leaves
  grid_leaves p s t [] = []
  grid_leaves p s t (row ∷ rows) = row_leaves p s t 0 row ++ grid_leaves p s (t + 1) rows

  pub surface_grid : ℕ → ℕ → List (List ℕ) → Result SurfaceGrid
  unfolding grid_leaves grid_fits
  surface_grid p s w =
      let leaves = grid_leaves p s 0 w in
      if grid_fits s 0 w
      then elim (merkle_tree keccak leaves) [
        | none ↦ err no_leaves
        | some tree ↦ ok (record { product_id = p; seq = s; w = w; leaves = leaves; tree = tree })
      ]
      else err out_of_range

  unfoldable pub report_of : ReportInput → SurfaceGrid → SurfaceReport
  unfolding pad4
  report_of i g = record {
    chain_id = i.chain_id;
    verifying_contract = i.verifying_contract;
    product_id = i.product_id;
    underlying = i.underlying;
    settlement_asset = i.settlement_asset;
    surface_seq = i.seq;
    valid_after = i.valid_after;
    expires_at = i.valid_after + i.lifetime;
    spot_reference_id = or_default i.spot_reference_id 0;
    surface_root = or_default (root g.tree) 0;
    tenor_timestamps = pad4 i.tenors;
    atm_total_variance_by_tenor = pad4 i.atm;
    k_nodes = i.k_nodes;
    surface_min_iv_bps = i.surface_min_iv_bps;
    surface_max_iv_bps = i.surface_max_iv_bps;
    confidence_bps = i.confidence_bps;
    source_count = i.source_count;
    liquidity_score = or_default i.liquidity_score 0;
    max_bid_ask_width_bps = or_default i.max_bid_ask_width_bps 0;
    last_calibration_time = or_default i.last_calibration_time i.valid_after;
    risk_parameter_set_id = or_default i.risk_parameter_set_id 0;
  }

  pub assemble_report : ReportInput → Result (SurfaceReport × SurfaceGrid)
  unfolding surface_grid report_of some_row_differs
  assemble_report i =
      if ltb (length i.tenors) 1 || ltb 4 (length i.tenors)
      then err tenor_count
      else if not (length i.w == length i.tenors) || not (length i.atm == length i.tenors)
      then err row_count
      else if some_row_differs (length i.k_nodes) i.w
      then err node_count
      else elim (surface_grid i.product_id i.seq i.w) [
        | err e ↦ err e
        | ok g ↦ ok (report_of i g, g)
      ]
