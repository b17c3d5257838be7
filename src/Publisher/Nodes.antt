-- ===== src/Publisher/Nodes.antt =====
-- publisher/src/publisher.ts, `nodesFor`: the leaves that a risk check reads, with their proofs. What the
-- chain caches is `proven`, and `log_moneyness` the integer that `toWad(Math.log(...))` gives.
pub mod Proofs
pub mod Served
mod Wanted
pub mod Genuine
pub mod Tests
use optara.Common.{
  ℕ, zero, suc, ◌+◌, ◌-◌, Bool, true, false, ◌&&◌, ◌||◌, Option, none, some, List, [], ◌∷◌, ◌++◌,
  length, min, ◌==◌, if◌then◌else◌,
}
use optara.Common.Int.{ℤ}
use optara.Sdk.Brackets.{find_tenors, find_nodes}
use optara.Sdk.Surface.{SurfaceReport, SurfaceGrid, NodeProof, node_proof}
use optara.Publisher.Validate.{list_of}

pub record PricedSeries : Type 0 where
  pub strike_wad : ℕ
  pub expiry : ℕ

-- The keys of the leaves, in the order in which they were first wanted.
abbrev pub wants : ℕ → ℕ → List (ℕ × ℕ) → Bool
wants t j [] = false
wants t j ((u, i) ∷ out) = ((u == t) && (i == j)) || wants t j out

abbrev pub want : ℕ → ℕ → List (ℕ × ℕ) → List (ℕ × ℕ)
want t j out = if wants t j out then out else out ++ (t, j) ∷ []

-- `count` nodes of tenor `t`, from `j` on.
unfoldable pub want_row : ℕ → ℕ → ℕ → List (ℕ × ℕ) → List (ℕ × ℕ)
want_row t j zero out = out
want_row t j (suc count) out = want_row t (suc j) count (want t j out)

-- The nodes from `lo - margin` to `hi + margin`, within the `m` of the grid.
unfoldable pub want_around : ℕ → ℕ → ℕ × ℕ → ℕ → List (ℕ × ℕ) → List (ℕ × ℕ)
unfolding want_row
want_around m margin (lo, hi) t out =
    want_row t (lo - margin) (min m (suc (hi + margin)) - (lo - margin)) out

-- `new Set(tb)`: one tenor or two.
unfoldable pub want_tenors : ℕ → ℕ → ℕ × ℕ → ℕ × ℕ → List (ℕ × ℕ) → List (ℕ × ℕ)
unfolding want_around
want_tenors m margin nodes (a, b) out =
    let first = want_around m margin nodes a out in
    if b == a then first else want_around m margin nodes b first

abbrev pub with_proof : Option NodeProof → Option (List NodeProof) → Option (List NodeProof)
with_proof none rest = none
with_proof (some p) none = none
with_proof (some p) (some ps) = some (p ∷ ps)

-- The proofs of the leaves that are wanted and not left out; `none` is the error of a leaf that the grid lacks.
unfoldable pub node_proofs : SurfaceGrid → (ℕ → ℕ → Bool) → List (ℕ × ℕ) → Option (List NodeProof)
node_proofs g skipped [] = some []
node_proofs g skipped ((t, j) ∷ keys) =
    let rest = node_proofs g skipped keys in
    if skipped t j then rest else with_proof (node_proof g t j) rest

abbrev pub prove_keys :
    SurfaceGrid → (ℕ → ℕ → Bool) → Option (List (ℕ × ℕ)) → Option (List NodeProof)
prove_keys g skipped none = none
prove_keys g skipped (some keys) = node_proofs g skipped keys

abbrev pub and_then? :
    Option (List (ℕ × ℕ)) → (List (ℕ × ℕ) → Option (List (ℕ × ℕ))) → Option (List (ℕ × ℕ))
and_then? none f = none
and_then? (some out) f = f out

module _ (log_moneyness : ℕ → ℕ → ℤ) where
  -- Without a spot, every node.
  unfoldable pub nodes_around : SurfaceReport → ℕ → ℕ → Option (ℕ × ℕ)
  nodes_around r strike spot =
      if spot == 0
      then some (0, length r.k_nodes - 1)
      else find_nodes r.k_nodes (log_moneyness strike spot)

  abbrev pub with_nodes :
      SurfaceReport → ℕ → ℕ × ℕ → Option (ℕ × ℕ) → List (ℕ × ℕ) → Option (List (ℕ × ℕ))
  with_nodes r margin tb none out = none
  with_nodes r margin tb (some nodes) out =
      some (want_tenors (length r.k_nodes) margin nodes tb out)

  -- A series outside the tenors is not priceable and wants nothing.
  abbrev pub want_between :
      SurfaceReport → ℕ → ℕ → PricedSeries → Option (ℕ × ℕ) → List (ℕ × ℕ) → Option (List (ℕ × ℕ))
  want_between r margin spot s none out = some out
  want_between r margin spot s (some tb) out =
      with_nodes r margin tb (nodes_around r s.strike_wad spot) out

  unfoldable pub want_series :
      SurfaceReport → ℕ → ℕ → PricedSeries → List (ℕ × ℕ) → Option (List (ℕ × ℕ))
  unfolding nodes_around want_tenors
  want_series r margin spot s out =
      want_between r margin spot s (find_tenors (list_of r.tenor_timestamps) s.expiry) out

  unfoldable pub want_all :
      SurfaceReport → ℕ → ℕ → List PricedSeries → List (ℕ × ℕ) → Option (List (ℕ × ℕ))
  unfolding want_series
  want_all r margin spot [] out = some out
  want_all r margin spot (s ∷ series) out =
      and_then? (want_series r margin spot s out) (want_all r margin spot series)

  unfoldable pub nodes_for :
      SurfaceReport
      → SurfaceGrid
      → ℕ
      → List PricedSeries
      → ℕ
      → (skip_proven : Bool) → (proven : ℕ → ℕ → Bool) → Option (List NodeProof)
  unfolding want_all node_proofs
  nodes_for r g margin series spot skip_proven proven =
      prove_keys g (λ t j. skip_proven && proven t j) (want_all r margin spot series [])
