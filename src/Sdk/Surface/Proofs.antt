-- ===== src/Sdk/Surface/Proofs.antt =====
-- Every node of an assembled report proves against the report's root.
use mathlib.Core.Option.{some-injective}
use optara.Common.{
  get_elem?-append_left, get_elem?-append_right, get_elem?-lt, ℕ, zero, suc, ◌+◌, ◌*◌, ◌<◌, ◌≤◌,
  ◌≡◌, refl, ◌∙◌, ap, true, false, none, some, List, [], ◌∷◌, length, get_elem?, arith, All,
  Option-cases, inl, inr, sym, Option,
}
use optara.Sdk.Merkle.{merkle_tree, proof, root, verify}
use optara.Sdk.Merkle.Proofs.{verify-proof}
use optara.Sdk.Surface.{
  NodeProof, SurfaceReport, ReportInput, SurfaceGrid, ok, nodes_per_tenor, some_row_differs, entry,
  node_proof, grid_fits, row_leaves, grid_leaves, surface_grid, report_of, assemble_report, pad4,
}

-- Every row has `n` entries.
abbrev pub IsRect : ℕ → List (List ℕ) → Type 0
IsRect n = All (λ row. length row ≡ n)

pub some_row_differs-IsRect :
    (n : ℕ) (w : List (List ℕ)) → some_row_differs n w ≡ false → IsRect n w
unfolding some_row_differs
some_row_differs-IsRect n [] h = tt
some_row_differs-IsRect n (row ∷ rows) h = ground (arith, some_row_differs-IsRect n rows)

-- In a rectangular grid every pair of indices in range has an entry.
entry-IsRect :
    (n t j : ℕ) (w : List (List ℕ))
    → IsRect n w
    → t < length w
    → j < n
    → (v : ℕ) × (entry w t j ≡ some v)
unfolding entry
entry-IsRect n t j [] rect ht hj = absurd (omega arith)
entry-IsRect n zero j (row ∷ w) rect ht hj = get_elem?-lt row j (omega (arith, rect.0))
entry-IsRect n (suc t) j (row ∷ w) rect ht hj = entry-IsRect n t j w rect.1 (omega arith) hj

nodes_per_tenor-IsRect :
    (n : ℕ) (w : List (List ℕ)) → IsRect n w → 0 < length w → nodes_per_tenor w ≡ n
unfolding nodes_per_tenor
nodes_per_tenor-IsRect n [] rect h = absurd (omega arith)
nodes_per_tenor-IsRect n (row ∷ w) rect h = rect.0

-- A proof of the report's product and sequence that verifies against its root.
abbrev pub IsGenuine : (ℕ → ℕ → ℕ) → (ℕ → ℕ → ℕ → ℕ → ℕ → ℕ) → SurfaceReport → NodeProof → Type 0
IsGenuine keccak leaf_hash r np =
    (np.product_id ≡ r.product_id)
    × (np.surface_seq ≡ r.surface_seq)
    × (verify keccak np.proof r.surface_root
          (leaf_hash r.product_id r.surface_seq np.tenor_index np.node_index np.total_variance_wad)
        ≡ true)

index_of : (NodeProof → ℕ) → Option NodeProof → ℕ
index_of f none = 0
index_of f (some p) = f p

pub node_proof-index :
    (g : SurfaceGrid) (t j : ℕ) (p : NodeProof)
    → node_proof g t j ≡ some p
    → (p.tenor_index ≡ t)
      × (p.node_index ≡ j)
      × (p.product_id ≡ g.product_id)
      × (p.surface_seq ≡ g.seq)
unfolding node_proof index_of
node_proof-index g t j p e = elim (Option-cases (entry g.w t j)) [
  | inl missing ↦ absurd (cc)
  | inr (v, there) ↦
      let same : some (record {
        product_id = g.product_id;
        surface_seq = g.seq;
        tenor_index = t;
        node_index = j;
        total_variance_wad = v;
        proof = proof g.tree (t * nodes_per_tenor g.w + j);
      })
          ≡ some p =
        rw (there, node_proof) at e in
      (
        sym (ap (index_of (λ q. q.tenor_index)) same),
        sym (ap (index_of (λ q. q.node_index)) same),
        sym (ap (index_of (λ q. q.product_id)) same),
        sym (ap (index_of (λ q. q.surface_seq)) same),
      )
]

module _ (keccak : ℕ → ℕ → ℕ) (leaf_hash : ℕ → ℕ → ℕ → ℕ → ℕ → ℕ) where
  get_elem?-row_leaves :
      (p s t k j v : ℕ) (row : List ℕ)
      → get_elem? row j ≡ some v
      → get_elem? (row_leaves keccak leaf_hash p s t k row) j ≡ some (leaf_hash p s t (k + j) v)
  unfolding row_leaves
  get_elem?-row_leaves p s t k j v [] e = cc
  get_elem?-row_leaves p s t k zero v (x ∷ row) e = ground arith
  get_elem?-row_leaves p s t k (suc j) v (x ∷ row) e =
      get_elem?-row_leaves p s t (k + 1) j v row e
      ∙ ap (λ m. some (leaf_hash p s t m v)) (omega arith)

  length-row_leaves :
      (p s t k : ℕ) (row : List ℕ) → length (row_leaves keccak leaf_hash p s t k row) ≡ length row
  unfolding row_leaves
  length-row_leaves p s t k [] = refl
  length-row_leaves p s t k (x ∷ row) = omega (arith, length-row_leaves p s t (k + 1) row)

  -- In a rectangular grid the leaf of (t, j) stands at t * n + j.
  get_elem?-grid_leaves :
      (p s b n t j v : ℕ) (w : List (List ℕ))
      → IsRect n w
      → entry w t j ≡ some v
      → get_elem? (grid_leaves keccak leaf_hash p s b w) (t * n + j)
        ≡ some (leaf_hash p s (b + t) j v)
  unfolding grid_leaves entry
  get_elem?-grid_leaves p s b n t j v [] rect e = cc
  get_elem?-grid_leaves p s b n zero j v (row ∷ w) rect e =
      ap (get_elem? (grid_leaves keccak leaf_hash p s b (row ∷ w))) {y = j} (omega arith)
      ∙ get_elem?-append_left (row_leaves keccak leaf_hash p s b 0 row)
          (grid_leaves keccak leaf_hash p s (b + 1) w) j _ (get_elem?-row_leaves p s b 0 j v row e)
      ∙ ap (λ k. some (leaf_hash p s b k v)) {y = j} (omega arith)
      ∙ ap (λ m. some (leaf_hash p s m j v)) {y = b + 0} (omega arith)
  get_elem?-grid_leaves p s b n (suc t) j v (row ∷ w) rect e =
      get_elem?-append_right (row_leaves keccak leaf_hash p s b 0 row) _ (t * n + j) (suc t * n + j)
        (omega (arith, length-row_leaves p s b 0 row, rect.0))
      ∙ get_elem?-grid_leaves p s (b + 1) n t j v w rect.1 e
      ∙ ap (λ m. some (leaf_hash p s m j v)) (omega arith)

  pub surface_grid-built :
      (p s : ℕ) (w : List (List ℕ)) (g : SurfaceGrid)
      → surface_grid keccak leaf_hash p s w ≡ ok g
      → (g.w ≡ w)
        × (g.product_id ≡ p)
        × (g.seq ≡ s)
        × (merkle_tree keccak (grid_leaves keccak leaf_hash p s 0 w) ≡ some g.tree)
  unfolding surface_grid
  surface_grid-built p s w g built = ground arith

  pub surface_grid-fits :
      (p s : ℕ) (w : List (List ℕ)) (g : SurfaceGrid)
      → surface_grid keccak leaf_hash p s w ≡ ok g
      → grid_fits s 0 w ≡ true
  unfolding surface_grid
  surface_grid-fits p s w g built = ground arith

  -- A node that is in the grid has a proof, and the proof verifies against the grid's root.
  node_proof-verifies :
      (p s t j v : ℕ) (w : List (List ℕ)) (g : SurfaceGrid)
      → surface_grid keccak leaf_hash p s w ≡ ok g
      → IsRect (nodes_per_tenor w) w
      → entry w t j ≡ some v
      → (np : NodeProof) × (r : ℕ) × (node_proof g t j ≡ some np)
        × (root g.tree ≡ some r)
        × (np.total_variance_wad ≡ v)
        × (verify keccak np.proof r (leaf_hash p s t j v) ≡ true)
  node_proof-verifies p s t j v w g built rect e =
      let (same_w, _, _, tree) = surface_grid-built p s w g built in
      let i = t * nodes_per_tenor g.w + j in
      let at_i : get_elem? (grid_leaves keccak leaf_hash p s 0 w) i ≡ some (leaf_hash p s t j v) =
        rw same_w (
          get_elem?-grid_leaves p s 0 (nodes_per_tenor w) t j v w rect e
          ∙ ap (λ m. some (leaf_hash p s m j v)) (omega arith)) in
      let (r, top, good) = verify-proof keccak _ g.tree i _ tree at_i in
      let np : NodeProof = record {
        product_id = g.product_id;
        surface_seq = g.seq;
        tenor_index = t;
        node_index = j;
        total_variance_wad = v;
        proof = proof g.tree i;
      } in
      let e' : entry g.w t j ≡ some v = rw same_w e in
      (np, r, unfold node_proof in rw (e', node_proof), top, refl, good)

  pub assemble_report-parts :
      (i : ReportInput) (r : SurfaceReport) (g : SurfaceGrid)
      → assemble_report keccak leaf_hash i ≡ ok (r, g)
      → (1 ≤ length i.tenors)
        × (length i.tenors ≤ 4)
        × (length i.w ≡ length i.tenors)
        × (length i.atm ≡ length i.tenors)
        × (some_row_differs (length i.k_nodes) i.w ≡ false)
        × (surface_grid keccak leaf_hash i.product_id i.seq i.w ≡ ok g)
        × (r ≡ report_of keccak leaf_hash i g)
  unfolding assemble_report
  assemble_report-parts i r g e = ground arith

  -- The tenors and nodes of an assembled report are those of the input.
  pub assemble_report-fields :
      (i : ReportInput) (r : SurfaceReport) (g : SurfaceGrid)
      → assemble_report keccak leaf_hash i ≡ ok (r, g)
      → (length i.tenors ≤ 4) × (r.tenor_timestamps ≡ pad4 i.tenors) × (r.k_nodes ≡ i.k_nodes)
  unfolding report_of
  assemble_report-fields i r g e =
      let (_, four, _, _, _, _, shape) = assemble_report-parts i r g e in
      (
        four,
        ap (λ (r : SurfaceReport). r.tenor_timestamps) shape,
        ap (λ (r : SurfaceReport). r.k_nodes) shape,
      )

  -- Every node of an assembled report is provable: for each tenor and each node of the input the grid
  -- gives a proof that carries the input's total variance, and the proof verifies against the
  -- report's root, at the report's product and sequence.
  pub assemble_report-provable :
      (i : ReportInput) (r : SurfaceReport) (g : SurfaceGrid) (t j : ℕ)
      → assemble_report keccak leaf_hash i ≡ ok (r, g)
      → t < length i.tenors
      → j < length i.k_nodes
      → (np : NodeProof) × (node_proof g t j ≡ some np)
        × (entry i.w t j ≡ some np.total_variance_wad)
        × (verify keccak np.proof r.surface_root
              (leaf_hash r.product_id r.surface_seq t j np.total_variance_wad)
            ≡ true)
  unfolding report_of
  assemble_report-provable i r g t j e ht hj =
      let (_, _, rows, _, same, built, shape) = assemble_report-parts i r g e in
      let rect = some_row_differs-IsRect (length i.k_nodes) i.w same in
      let (v, at_tj) = entry-IsRect (length i.k_nodes) t j i.w rect (omega (arith, rows)) hj in
      let rect' : IsRect (nodes_per_tenor i.w) i.w =
        rw (nodes_per_tenor-IsRect (length i.k_nodes) i.w rect (omega (arith, rows))) rect in
      let (np, top, found, is_top, same_v, good) =
        node_proof-verifies i.product_id i.seq t j v i.w g built rect' at_tj in
      (np, found, rw same_v at_tj, rw (shape, is_top, same_v) good)

  -- A proof that the grid of an assembled report gives is of the report's product and sequence, and
  -- verifies against the report's root.
  pub assemble_report-IsGenuine :
      (i : ReportInput) (r : SurfaceReport) (g : SurfaceGrid) (t j : ℕ) (np : NodeProof)
      → assemble_report keccak leaf_hash i ≡ ok (r, g)
      → node_proof g t j ≡ some np
      → IsGenuine keccak leaf_hash r np
  unfolding report_of
  assemble_report-IsGenuine i r g t j np made given = elim (Option-cases (entry g.w t j)) [
    | inl missing ↦ absurd (unfold node_proof in cc)
    | inr (v, there) ↦
        let (some_tenor, _, rows, _, same_rows, built, shape) = assemble_report-parts i r g made in
        let rect = some_row_differs-IsRect (length i.k_nodes) i.w same_rows in
        let rect' : IsRect (nodes_per_tenor i.w) i.w =
          rw (nodes_per_tenor-IsRect (length i.k_nodes) i.w rect (omega (arith, rows, some_tenor)))
            rect in
        let (same_w, same_p, same_s, _) = surface_grid-built i.product_id i.seq i.w g built in
        let (q, top, found, is_top, same_v, good) =
          node_proof-verifies i.product_id i.seq t j v i.w g built rect'
            (ap (λ w. entry w t j) (sym same_w) ∙ there) in
        let verified : verify keccak q.proof r.surface_root
              (leaf_hash r.product_id r.surface_seq t j q.total_variance_wad)
            ≡ true =
          rw (shape, is_top, same_v) good in
        let same : q ≡ np = some-injective q np (sym found ∙ given) in
        let (is_t, is_j, is_p, is_s) = node_proof-index g t j np given in
        (
          is_p ∙ same_p ∙ sym (ap (λ (r : SurfaceReport). r.product_id) shape),
          is_s ∙ same_s ∙ sym (ap (λ (r : SurfaceReport). r.surface_seq) shape),
          cc (verified, same, is_t, is_j),
        )
  ]
