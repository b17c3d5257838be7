-- ===== src/Sdk/Surface/Shapes.antt =====
-- The inputs of assembleReport (sdk/src/surface.ts) that it accepts.
use optara.Common.{
  ℕ, zero, suc, ◌+◌, ◌^◌, All, ◌<◌, ◌≤◌, ◌≡◌, refl, ◌∙◌, ap, true, false, none, some, List, [], ◌∷◌,
  length, arith, ◌↔◌,
}
use optara.Sdk.Merkle.{MerkleTree, merkle_tree}
use optara.Sdk.Merkle.Proofs.{merkle_tree-cons, merkle_tree-nil}
use optara.Sdk.Surface.{
  SurfaceReport, ReportInput, SurfaceGrid, ok, some_row_differs, row_leaves, grid_fits, grid_leaves,
  surface_grid, report_of, assemble_report,
}
use optara.Sdk.Surface.Fits.{IsWord, grid_fits-IsWord, grid_fits-bounds}
use optara.Sdk.Surface.Proofs.{
  IsRect, some_row_differs-IsRect, surface_grid-built, surface_grid-fits, assemble_report-parts,
}

IsRect-some_row_differs : (n : ℕ) (w : List (List ℕ)) → IsRect n w → some_row_differs n w ≡ false
unfolding some_row_differs
IsRect-some_row_differs n [] h = refl
IsRect-some_row_differs n (row ∷ rows) h = ground (arith, IsRect-some_row_differs n rows)

-- The shapes that `assembleReport` asks for, and a grid that has a leaf and whose leaves are encoded.
pub record IsShaped (i : ReportInput) : Type 0 where
  pub some_tenor : 1 ≤ length i.tenors
  pub four_tenors : length i.tenors ≤ 4
  pub rows : length i.w ≡ length i.tenors
  pub atms : length i.atm ≡ length i.tenors
  pub rect : IsRect (length i.k_nodes) i.w
  pub some_node : 0 < length i.k_nodes
  pub nodes_indexed : length i.k_nodes ≤ 256
  pub seq_word : i.seq < 2 ^ 64
  pub words : All (All IsWord) i.w

module _ (keccak : ℕ → ℕ → ℕ) (leaf_hash : ℕ → ℕ → ℕ → ℕ → ℕ → ℕ) where
  surface_grid-tree :
      (p s : ℕ) (w : List (List ℕ)) (tree : MerkleTree)
      → grid_fits s 0 w ≡ true
      → merkle_tree keccak (grid_leaves keccak leaf_hash p s 0 w) ≡ some tree
      → (g : SurfaceGrid) × (surface_grid keccak leaf_hash p s w ≡ ok g)
  unfolding surface_grid
  surface_grid-tree p s w tree fits e =
      let leaves = grid_leaves keccak leaf_hash p s 0 w in
      (
        record { product_id = p; seq = s; w = w; leaves = leaves; tree = tree },
        rw (fits, e, surface_grid),
      )

  grid_leaves-cons :
      (p s n : ℕ) (w : List (List ℕ))
      → IsRect n w
      → 0 < length w
      → 0 < n
      → (x : ℕ) × (l : List ℕ) × (grid_leaves keccak leaf_hash p s 0 w ≡ x ∷ l)
  unfolding grid_leaves row_leaves
  grid_leaves-cons p s n [] rect h hn = absurd (omega arith)
  grid_leaves-cons p s n ([] ∷ w) rect h hn = absurd (omega (arith, rect.0))
  grid_leaves-cons p s n ((x ∷ row) ∷ w) rect h hn = (_, _, refl)

  -- A rectangular grid with a node has a leaf, so a tree is built over it where the leaves are encoded.
  surface_grid-IsRect :
      (p s n : ℕ) (w : List (List ℕ))
      → grid_fits s 0 w ≡ true
      → IsRect n w
      → 0 < length w
      → 0 < n
      → (g : SurfaceGrid) × (surface_grid keccak leaf_hash p s w ≡ ok g)
  surface_grid-IsRect p s n w fits rect h hn =
      let (x, l, e) = grid_leaves-cons p s n w rect h hn in
      let (tree, built) = merkle_tree-cons keccak x l in
      surface_grid-tree p s w tree fits (ap (merkle_tree keccak) e ∙ built)

  grid_leaves-no_node :
      (p s b : ℕ) (w : List (List ℕ)) → IsRect 0 w → grid_leaves keccak leaf_hash p s b w ≡ []
  unfolding grid_leaves row_leaves
  grid_leaves-no_node p s b [] rect = refl
  grid_leaves-no_node p s b ([] ∷ w) rect = grid_leaves-no_node p s (b + 1) w rect.1
  grid_leaves-no_node p s b ((x ∷ row) ∷ w) rect = absurd (omega (arith, rect.0))

  surface_grid-some_node :
      (p s n : ℕ) (w : List (List ℕ)) (g : SurfaceGrid)
      → IsRect n w
      → surface_grid keccak leaf_hash p s w ≡ ok g
      → 0 < n
  surface_grid-some_node p s zero w g rect built =
      let (_, _, _, tree) = surface_grid-built keccak leaf_hash p s w g built in
      let none_built : merkle_tree keccak (grid_leaves keccak leaf_hash p s 0 w) ≡ none =
        rw (grid_leaves-no_node p s 0 w rect) (merkle_tree-nil keccak) in
      cc
  surface_grid-some_node p s (suc n) w g rect built = omega arith

  assemble_report-IsShaped :
      (i : ReportInput)
      → IsShaped i
      → (rg : SurfaceReport × SurfaceGrid) × (assemble_report keccak leaf_hash i ≡ ok rg)
  unfolding assemble_report
  assemble_report-IsShaped i h =
      let same = IsRect-some_row_differs (length i.k_nodes) i.w h.rect in
      let fits =
        grid_fits-IsWord i.seq 0 (length i.k_nodes) i.w h.seq_word (omega arith) h.nodes_indexed
          h.rect h.words in
      let (g, built) =
        surface_grid-IsRect i.product_id i.seq (length i.k_nodes) i.w fits h.rect (omega arith)
          h.some_node in
      ((report_of keccak leaf_hash i g, g), ground arith)

  -- `assembleReport` succeeds exactly on inputs of the right shape: one to four tenors, a grid row and
  -- an at-the-money value for each tenor, in each row one total variance for each of 1 to 256 nodes, a
  -- sequence number below 2^64, and total variances below 2^256.
  pub assemble_report_iff :
      (i : ReportInput)
      → ((rg : SurfaceReport × SurfaceGrid) × (assemble_report keccak leaf_hash i ≡ ok rg))
        ↔ IsShaped i
  assemble_report_iff i = (
    (λ found.
        let ((r, g), e) = found in
        let (a, b, c, d, same, built, _) = assemble_report-parts keccak leaf_hash i r g e in
        let rect = some_row_differs-IsRect (length i.k_nodes) i.w same in
        let some_node =
          surface_grid-some_node i.product_id i.seq (length i.k_nodes) i.w g rect built in
        let (seq_word, nodes_indexed, words) =
          grid_fits-bounds i.seq (length i.k_nodes) i.w
            (surface_grid-fits keccak leaf_hash i.product_id i.seq i.w g built) rect (omega arith)
            some_node in
        record {
          some_tenor = a;
          four_tenors = b;
          rows = c;
          atms = d;
          rect = rect;
          some_node = some_node;
          nodes_indexed = nodes_indexed;
          seq_word = seq_word;
          words = words;
        }),
    assemble_report-IsShaped i,
  )
