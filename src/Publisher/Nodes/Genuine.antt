-- ===== src/Publisher/Nodes/Genuine.antt =====
-- publisher/src/publisher.ts: whatever nodesFor returns for an assembled report are proofs of that report.
use mathlib.Core.Option.{some-injective}
use optara.Common.{
  ℕ, refl, Bool, ◌&&◌, Option, none, some, List, [], ◌∷◌, All, length, ◌≡◌, ◌≤◌, ap, sym, ◌∙◌,
  arith, subst, inl, inr, Bool-cases,
}
use optara.Common.Int.{ℤ}
use optara.Sdk.Surface.{
  SurfaceReport, SurfaceGrid, NodeProof, ReportInput, assemble_report, node_proof, ok,
}
use optara.Sdk.Surface.Proofs.{IsGenuine, assemble_report-IsGenuine, assemble_report-fields}
use optara.Sdk.Brackets.{count_tenors}
use optara.Sdk.Surface.Shapes.{assemble_report_iff}
use optara.Publisher.Validate.{list_of}
use optara.Publisher.Nodes.Proofs.{node_proofs-IsServed}
use optara.Publisher.Nodes.Served.{leaf_total}
use optara.Publisher.Nodes.Wanted.{pad4_count, want_all_total}
use optara.Publisher.Nodes.{PricedSeries, with_proof, node_proofs, prove_keys, want_all, nodes_for}

module _ (P : NodeProof → Type 0) where
  with_proof-All :
      (p : Option NodeProof) (rest : Option (List NodeProof)) (ps : List NodeProof)
      → ((q : NodeProof) → p ≡ some q → P q)
      → ((qs : List NodeProof) → rest ≡ some qs → All P qs)
      → with_proof p rest ≡ some ps
      → All P ps
  with_proof-All none rest ps h k e = cc e
  with_proof-All (some p) none ps h k e = cc e
  with_proof-All (some p) (some qs) ps h k e =
      subst (All P) (some-injective (p ∷ qs) ps e) (h p refl, k qs refl)

  pub node_proofs-All :
      (g : SurfaceGrid) (skipped : ℕ → ℕ → Bool)
      → ((t j : ℕ) (p : NodeProof) → node_proof g t j ≡ some p → P p)
      → (keys : List (ℕ × ℕ)) (ps : List NodeProof) → node_proofs g skipped keys ≡ some ps
      → All P ps
  unfolding node_proofs
  node_proofs-All g skipped h [] ps e = subst (All P) (some-injective [] ps e) tt
  node_proofs-All g skipped h ((t, j) ∷ keys) ps e = elim (Bool-cases (skipped t j)) [
    | inl left ↦ node_proofs-All g skipped h keys ps (rw left at e)
    | inr shown ↦
        with_proof-All (node_proof g t j) (node_proofs g skipped keys) ps (h t j)
          (node_proofs-All g skipped h keys) (rw shown at e)
  ]

  prove_keys-All :
      (g : SurfaceGrid) (skipped : ℕ → ℕ → Bool)
      → ((t j : ℕ) (p : NodeProof) → node_proof g t j ≡ some p → P p)
      → (keys : Option (List (ℕ × ℕ))) (ps : List NodeProof) → prove_keys g skipped keys ≡ some ps
      → All P ps
  prove_keys-All g skipped h none ps e = cc e
  prove_keys-All g skipped h (some keys) ps e = node_proofs-All g skipped h keys ps e

-- The report and the grid that are kept were assembled together.
abbrev pub IsAssembled :
    (ℕ → ℕ → ℕ) → (ℕ → ℕ → ℕ → ℕ → ℕ → ℕ) → SurfaceReport → SurfaceGrid → Type 0
IsAssembled keccak leaf_hash r g =
    (i : ReportInput) × (assemble_report keccak leaf_hash i ≡ ok (r, g))

pub nodes_for-IsGenuine :
    (keccak : ℕ → ℕ → ℕ) (leaf_hash : ℕ → ℕ → ℕ → ℕ → ℕ → ℕ) (log_moneyness : ℕ → ℕ → ℤ)
    (r : SurfaceReport) (g : SurfaceGrid) (margin : ℕ) (series : List PricedSeries) (spot : ℕ)
    (skip : Bool) (proven : ℕ → ℕ → Bool) (ps : List NodeProof)
    → IsAssembled keccak leaf_hash r g
    → nodes_for log_moneyness r g margin series spot skip proven ≡ some ps
    → All (IsGenuine keccak leaf_hash r) ps
unfolding nodes_for
nodes_for-IsGenuine keccak leaf_hash log_moneyness r g margin series spot skip proven ps (i, made)
      e =
    prove_keys-All (IsGenuine keccak leaf_hash r) g (λ t j. skip && proven t j)
      (λ t j p. assemble_report-IsGenuine keccak leaf_hash i r g t j p made)
      (want_all log_moneyness r margin spot series []) ps e

-- For an assembled report nodesFor returns.
pub nodes_for_total :
    (keccak : ℕ → ℕ → ℕ) (leaf_hash : ℕ → ℕ → ℕ → ℕ → ℕ → ℕ) (log_moneyness : ℕ → ℕ → ℤ)
    (r : SurfaceReport) (g : SurfaceGrid) (margin : ℕ) (series : List PricedSeries) (spot : ℕ)
    (skip : Bool) (proven : ℕ → ℕ → Bool)
    → IsAssembled keccak leaf_hash r g
    → (ps : List NodeProof) × (nodes_for log_moneyness r g margin series spot skip proven ≡ some ps)
unfolding nodes_for
nodes_for_total keccak leaf_hash log_moneyness r g margin series spot skip proven (i, made) =
    let (four, tenors, k_nodes) = assemble_report-fields keccak leaf_hash i r g made in
    let shaped = (assemble_report_iff keccak leaf_hash i).0 ((r, g), made) in
    let enough : count_tenors 4 (list_of r.tenor_timestamps) ≤ length i.tenors =
      subst (λ ts. count_tenors 4 (list_of ts) ≤ length i.tenors) (sym tenors)
        (pad4_count i.tenors four) in
    let (keys, e, leaves, _) =
      want_all_total log_moneyness r margin spot (length i.tenors)
        (omega (arith, shaped.some_node, ap length k_nodes)) enough series [] tt in
    let (ps, given, _) =
      node_proofs-IsServed g (length i.tenors) (length r.k_nodes) (λ t j. skip && proven t j)
        (leaf_total keccak leaf_hash i r g made) keys leaves in
    (ps, ap (prove_keys g (λ t j. skip && proven t j)) e ∙ given)
