-- ===== src/Publisher/Nodes/Served.antt =====
-- publisher/src/publisher.ts: for an assembled report `nodesFor` gives every leaf around each series.
use mathlib.Core.Option.{some-injective}
use optara.Common.{
  ℕ, ◌+◌, ◌≤◌, ◌<◌, Bool, true, ◌&&◌, some, List, [], length, get_elem?, ◌≡◌, ◌⊎◌, sym, ap, ◌∙◌,
  subst, inl, inr, arith,
}
use optara.Common.Int.{ℤ}
use optara.Sdk.Merkle.{verify}
use optara.Sdk.Brackets.{count_tenors, find_tenors}
use optara.Sdk.Surface.{
  SurfaceReport, SurfaceGrid, NodeProof, ReportInput, assemble_report, node_proof, ok,
}
use optara.Sdk.Surface.Proofs.{assemble_report-provable, assemble_report-fields, node_proof-index}
use optara.Sdk.Surface.Shapes.{assemble_report_iff}
use optara.Publisher.Validate.{list_of}
use optara.Publisher.Nodes.{PricedSeries, wants, nodes_around, nodes_for, prove_keys}
use optara.Publisher.Nodes.Proofs.{node_proofs-IsServed}
use optara.Publisher.Nodes.Wanted.{pad4_count, tenors_inside, want_all_total, want_all-wants}

pub leaf_total :
    (keccak : ℕ → ℕ → ℕ) (leaf_hash : ℕ → ℕ → ℕ → ℕ → ℕ → ℕ) (i : ReportInput) (r : SurfaceReport)
    (g : SurfaceGrid)
    → assemble_report keccak leaf_hash i ≡ ok (r, g)
    → (t j : ℕ) → t < length i.tenors
    → j < length r.k_nodes
    → (p : NodeProof) × (node_proof g t j ≡ some p)
leaf_total keccak leaf_hash i r g made t j ht hj =
    let (_, _, k_nodes) = assemble_report-fields keccak leaf_hash i r g made in
    let (p, e, _, _) =
      assemble_report-provable keccak leaf_hash i r g t j made ht
        (omega (arith, ap length k_nodes)) in
    (p, e)

-- The chain has the leaf, or a proof of it is given that verifies against the report's root.
abbrev pub IsLeafServed :
    (ℕ → ℕ → ℕ)
    → (ℕ → ℕ → ℕ → ℕ → ℕ → ℕ)
    → SurfaceReport
    → (ℕ → ℕ → Bool)
    → ℕ
    → ℕ
    → List NodeProof
    → Type 0
IsLeafServed keccak leaf_hash r skipped t j ps =
    (skipped t j ≡ true)
    ⊎ (p : NodeProof) × (n : ℕ) × (get_elem? ps n ≡ some p)
      × (p.tenor_index ≡ t)
      × (p.node_index ≡ j)
      × (verify keccak p.proof r.surface_root
            (leaf_hash r.product_id r.surface_seq t j p.total_variance_wad)
          ≡ true)

-- For each series between two tenors, each node from the margin below to the margin above the nodes around
-- its strike is served on either tenor.
abbrev pub AreServed :
    (ℕ → ℕ → ℕ)
    → (ℕ → ℕ → ℕ → ℕ → ℕ → ℕ)
    → (ℕ → ℕ → ℤ)
    → SurfaceReport
    → ℕ
    → ℕ
    → List PricedSeries
    → (ℕ → ℕ → Bool)
    → List NodeProof
    → Type 0
AreServed keccak leaf_hash log_moneyness r margin spot series skipped ps =
    (k : ℕ) (s : PricedSeries) (a b lo hi t j : ℕ)
    → get_elem? series k ≡ some s
    → find_tenors (list_of r.tenor_timestamps) s.expiry ≡ some (a, b)
    → nodes_around log_moneyness r s.strike_wad spot ≡ some (lo, hi)
    → (t ≡ a) ⊎ (t ≡ b)
    → lo ≤ j + margin
    → j ≤ hi + margin
    → j < length r.k_nodes
    → IsLeafServed keccak leaf_hash r skipped t j ps

-- A proof that is given for a leaf of an assembled report verifies against the report's root.
given-IsLeafServed :
    (keccak : ℕ → ℕ → ℕ) (leaf_hash : ℕ → ℕ → ℕ → ℕ → ℕ → ℕ) (i : ReportInput) (r : SurfaceReport)
    (g : SurfaceGrid) (skipped : ℕ → ℕ → Bool) (t j : ℕ) (ps : List NodeProof)
    → assemble_report keccak leaf_hash i ≡ ok (r, g)
    → t < length i.tenors
    → j < length r.k_nodes
    → (skipped t j ≡ true)
      ⊎ (p : NodeProof) × (n : ℕ) × (get_elem? ps n ≡ some p) × (node_proof g t j ≡ some p)
    → IsLeafServed keccak leaf_hash r skipped t j ps
given-IsLeafServed keccak leaf_hash i r g skipped t j ps made ht hj (inl left) = inl left
given-IsLeafServed keccak leaf_hash i r g skipped t j ps made ht hj (inr (p, at, at_ps, p_is)) =
    let (_, _, k_nodes) = assemble_report-fields keccak leaf_hash i r g made in
    let (np, np_is, _, verified) =
      assemble_report-provable keccak leaf_hash i r g t j made ht
        (omega (arith, ap length k_nodes)) in
    let same : np ≡ p = cc (np_is, p_is) in
    let (tenor, node, _, _) = node_proof-index g t j p p_is in
    inr (
      p,
      at,
      at_ps,
      tenor,
      node,
      subst
          (λ (q : NodeProof).
            verify keccak q.proof r.surface_root
              (leaf_hash r.product_id r.surface_seq t j q.total_variance_wad)
            ≡ true)
          same verified,
    )

-- For an assembled report, nodesFor returns, whatever the list of series and the spot, and for
-- each series between two tenors and each node from the margin below to the margin above the
-- nodes around its strike, on either tenor, the leaf is left out as proven on chain, or a proof
-- with its tenor and node is given that verifies against the report's root.
pub nodes_for-IsServed :
    (keccak : ℕ → ℕ → ℕ) (leaf_hash : ℕ → ℕ → ℕ → ℕ → ℕ → ℕ) (log_moneyness : ℕ → ℕ → ℤ)
    (i : ReportInput) (r : SurfaceReport) (g : SurfaceGrid) (margin spot : ℕ)
    (series : List PricedSeries) (skip : Bool) (proven : ℕ → ℕ → Bool)
    → assemble_report keccak leaf_hash i ≡ ok (r, g)
    → (ps : List NodeProof) × (nodes_for log_moneyness r g margin series spot skip proven ≡ some ps)
      × AreServed keccak leaf_hash log_moneyness r margin spot series (λ t j. skip && proven t j) ps
unfolding nodes_for
nodes_for-IsServed keccak leaf_hash log_moneyness i r g margin spot series skip proven made =
    let (four, tenors, k_nodes) = assemble_report-fields keccak leaf_hash i r g made in
    let shaped = (assemble_report_iff keccak leaf_hash i).0 ((r, g), made) in
    let n = length i.tenors in
    let enough : count_tenors 4 (list_of r.tenor_timestamps) ≤ n =
      subst (λ ts. count_tenors 4 (list_of ts) ≤ n) (sym tenors) (pad4_count i.tenors four) in
    let nodes : 0 < length r.k_nodes = omega (arith, shaped.some_node, ap length k_nodes) in
    let skipped : ℕ → ℕ → Bool = λ t j. skip && proven t j in
    let (keys, e, leaves, _) =
      want_all_total log_moneyness r margin spot n nodes enough series [] tt in
    let (ps, given, served) =
      node_proofs-IsServed g n (length r.k_nodes) skipped (leaf_total keccak leaf_hash i r g made)
        keys leaves in
    (
      ps,
      ap (prove_keys g skipped) e ∙ given,
      λ k s a b lo hi t j at_k found around which low high inside.
          let tb = tenors_inside (list_of r.tenor_timestamps) s.expiry a b found in
          let t_inside : t < n = elim which [ inl h ↦ omega arith | inr h ↦ omega arith ] in
          let (keys', e', _, wanted) =
            want_all-wants log_moneyness r margin spot n nodes enough series [] k s a b lo hi t j tt
              at_k found around which low high inside in
          let same : keys' ≡ keys = some-injective keys' keys (sym e' ∙ e) in
          given-IsLeafServed keccak leaf_hash i r g skipped t j ps made t_inside inside
            (served t j (subst (λ ks. wants t j ks ≡ true) same wanted)),
    )
