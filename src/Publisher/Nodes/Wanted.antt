-- ===== src/Publisher/Nodes/Wanted.antt =====
-- publisher/src/publisher.ts: the leaves that `nodesFor` wants around each series.
use optara.Common.{
  ℕ, zero, suc, ◌+◌, ◌-◌, ◌≤◌, ◌<◌, true, some, List, [], ◌∷◌, length, get_elem?, ◌==◌, ◌≡◌, ◌⊎◌,
  refl, ap, ◌∙◌, subst, inl, inr, arith, Bool-cases, Option-cases,
}
use optara.Common.Int.{ℤ}
use optara.Sdk.Brackets.{count_tenors, find_tenors, find_nodes}
use optara.Sdk.Brackets.Proofs.{find_tenors-IsTenorPair, IsTenorPair}
use optara.Sdk.Brackets.Nodes.{find_nodes-IsNodePair}
use optara.Sdk.Surface.{SurfaceReport, pad4}
use optara.Publisher.Validate.{list_of}
use optara.Publisher.Nodes.{PricedSeries, wants, want_tenors, nodes_around, want_series, want_all}
use optara.Publisher.Nodes.Proofs.{
  want_tenors-wants, want_tenors_keeps, want_tenors-AreLeaves, AreLeaves,
}

pub pad4_count : (ts : List ℕ) → length ts ≤ 4 → count_tenors 4 (list_of (pad4 ts)) ≤ length ts
unfolding count_tenors pad4
pad4_count [] h = ground arith
pad4_count (a ∷ []) h = ground arith
pad4_count (a ∷ b ∷ []) h = ground arith
pad4_count (a ∷ b ∷ c ∷ []) h = ground arith
pad4_count (a ∷ b ∷ c ∷ d ∷ []) h = ground arith
pad4_count (a ∷ b ∷ c ∷ d ∷ e ∷ ts) h = absurd (omega arith)

find_nodes_total :
    (ks : List ℤ) (k : ℤ) → 0 < length ks → (ab : ℕ × ℕ) × (find_nodes ks k ≡ some ab)
find_nodes_total [] k h = absurd (omega arith)
find_nodes_total (first ∷ ks) k h = let (ab, e, _) = find_nodes-IsNodePair first ks k in (ab, e)

-- The nodes that are asked for exist, for any spot.
nodes_total :
    (log_moneyness : ℕ → ℕ → ℤ) (r : SurfaceReport) (strike spot : ℕ)
    → 0 < length r.k_nodes
    → (nodes : ℕ × ℕ) × (nodes_around log_moneyness r strike spot ≡ some nodes)
unfolding nodes_around
nodes_total log_moneyness r strike spot h = elim (Bool-cases (spot == 0)) [
  | inl no_spot ↦ ((0, length r.k_nodes - 1), rw no_spot refl)
  | inr with_spot ↦
      let (nodes, e) = find_nodes_total r.k_nodes (log_moneyness strike spot) h in
      (nodes, rw with_spot e)
]

pub tenors_inside :
    (ts : List ℕ) (expiry a b : ℕ)
    → find_tenors ts expiry ≡ some (a, b)
    → (a < count_tenors 4 ts) × (b < count_tenors 4 ts)
tenors_inside ts expiry a b e =
    let pair : IsTenorPair ts expiry (some (a, b)) =
      subst (IsTenorPair ts expiry) e (find_tenors-IsTenorPair ts expiry) in
    elim pair [ inl p ↦ (omega arith, omega arith) | inr p ↦ (omega arith, omega arith) ]

-- The series before and after one keep what it wants, and all wants are leaves.
module _ (log_moneyness : ℕ → ℕ → ℤ) (r : SurfaceReport) (margin spot n : ℕ)
    (some_node : 0 < length r.k_nodes)
    (tenors : count_tenors 4 (list_of r.tenor_timestamps) ≤ n) where
  abbrev m : ℕ
  m = length r.k_nodes

  want_series_total :
      (s : PricedSeries) (out : List (ℕ × ℕ))
      → AreLeaves n m out
      → (out' : List (ℕ × ℕ)) × (want_series log_moneyness r margin spot s out ≡ some out')
        × AreLeaves n m out'
        × ((t j : ℕ) → wants t j out ≡ true → wants t j out' ≡ true)
  unfolding want_series
  want_series_total s out leaves =
      elim (Option-cases (find_tenors (list_of r.tenor_timestamps) s.expiry)) [
        | inl outside ↦ (out, rw outside refl, leaves, λ t j h. h)
        | inr ((a, b), found) ↦
            let inside = tenors_inside (list_of r.tenor_timestamps) s.expiry a b found in
            let ((lo, hi), nodes) = nodes_total log_moneyness r s.strike_wad spot some_node in
            (
              want_tenors m margin (lo, hi) (a, b) out,
              rw (found, nodes) refl,
              want_tenors-AreLeaves n m margin lo hi a b out (omega (arith, inside.0))
                  (omega (arith, inside.1)) leaves,
              λ t j h. want_tenors_keeps t j m margin (lo, hi) (a, b) out h,
            )
      ]

  pub want_all_total :
      (series : List PricedSeries) (out : List (ℕ × ℕ))
      → AreLeaves n m out
      → (out' : List (ℕ × ℕ)) × (want_all log_moneyness r margin spot series out ≡ some out')
        × AreLeaves n m out'
        × ((t j : ℕ) → wants t j out ≡ true → wants t j out' ≡ true)
  unfolding want_all
  want_all_total [] out leaves = (out, refl, leaves, λ t j h. h)
  want_all_total (s ∷ series) out leaves =
      let (out₁, e₁, leaves₁, keeps₁) = want_series_total s out leaves in
      let (out₂, e₂, leaves₂, keeps₂) = want_all_total series out₁ leaves₁ in
      (out₂, rw (e₁, e₂) refl, leaves₂, λ t j h. keeps₂ t j (keeps₁ t j h))

  pub want_all-wants :
      (series : List PricedSeries) (out : List (ℕ × ℕ)) (k : ℕ) (s : PricedSeries)
      (a b lo hi t j : ℕ)
      → AreLeaves n m out
      → get_elem? series k ≡ some s
      → find_tenors (list_of r.tenor_timestamps) s.expiry ≡ some (a, b)
      → nodes_around log_moneyness r s.strike_wad spot ≡ some (lo, hi)
      → (t ≡ a) ⊎ (t ≡ b)
      → lo ≤ j + margin
      → j ≤ hi + margin
      → j < m
      → (out' : List (ℕ × ℕ)) × (want_all log_moneyness r margin spot series out ≡ some out')
        × AreLeaves n m out'
        × (wants t j out' ≡ true)
  unfolding want_all want_series
  want_all-wants [] out k s a b lo hi t j leaves at_k found nodes which low high inside = cc
  want_all-wants (s' ∷ series) out zero s a b lo hi t j leaves at_k found nodes which low high
        inside =
      let same : s' ≡ s = cc in
      let found' : find_tenors (list_of r.tenor_timestamps) s'.expiry ≡ some (a, b) =
        ap (λ (s : PricedSeries). find_tenors (list_of r.tenor_timestamps) s.expiry) same ∙ found in
      let nodes' : nodes_around log_moneyness r s'.strike_wad spot ≡ some (lo, hi) =
        ap (λ (s : PricedSeries). nodes_around log_moneyness r s.strike_wad spot) same ∙ nodes in
      let tb = tenors_inside (list_of r.tenor_timestamps) s'.expiry a b found' in
      let first = want_tenors m margin (lo, hi) (a, b) out in
      let e₁ : want_series log_moneyness r margin spot s' out ≡ some first =
        rw (found', nodes') refl in
      let leaves₁ =
        want_tenors-AreLeaves n m margin lo hi a b out (omega (arith, tb.0)) (omega (arith, tb.1))
          leaves in
      let wanted = want_tenors-wants t j m margin lo hi a b out which low high inside in
      let (out₂, e₂, leaves₂, keeps₂) = want_all_total series first leaves₁ in
      (out₂, rw (e₁, e₂) refl, leaves₂, keeps₂ t j wanted)
  want_all-wants (s' ∷ series) out (suc k) s a b lo hi t j leaves at_k found nodes which low high
        inside =
      let (out₁, e₁, leaves₁, _) = want_series_total s' out leaves in
      let (out₂, e₂, leaves₂, wanted) =
        want_all-wants series out₁ k s a b lo hi t j leaves₁ at_k found nodes which low high
          inside in
      (out₂, rw (e₁, e₂) refl, leaves₂, wanted)
