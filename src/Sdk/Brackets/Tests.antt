-- ===== src/Sdk/Brackets/Tests.antt =====
-- Lookups inside, at and outside the tenors and the nodes.
use optara.Common.{ℕ, none, some, [], ◌∷◌, ◌≡◌, refl}
use optara.Common.Int.{pos, negsuc}
use optara.Sdk.Brackets.{find_tenors, find_nodes}
use optara.Sdk.Brackets.Proofs.{IsTenorPair, find_tenors-IsTenorPair}
use optara.Sdk.Brackets.Nodes.{IsNodePair, find_nodes-IsNodePair}

after_last : find_tenors (1000 ∷ 2000 ∷ 0 ∷ 0 ∷ []) 2001 ≡ none
unfolding find_tenors
after_last = refl

at_second : find_tenors (1000 ∷ 2000 ∷ 0 ∷ 0 ∷ []) 2000 ≡ some (1, 1)
unfolding find_tenors
at_second = refl

below_all : find_nodes (negsuc 4 ∷ pos 0 ∷ pos 5 ∷ []) (negsuc 9) ≡ some (0, 0)
unfolding find_nodes
below_all = refl

between_nodes : find_nodes (negsuc 4 ∷ pos 0 ∷ pos 5 ∷ []) (pos 3) ≡ some (1, 2)
unfolding find_nodes
between_nodes = refl

find_tenors-IsTenorPair_example :
    IsTenorPair (1000 ∷ 2000 ∷ 0 ∷ 0 ∷ []) 1500 (find_tenors (1000 ∷ 2000 ∷ 0 ∷ 0 ∷ []) 1500)
find_tenors-IsTenorPair_example = find_tenors-IsTenorPair (1000 ∷ 2000 ∷ 0 ∷ 0 ∷ []) 1500

find_nodes-IsNodePair_example :
    (ab : ℕ × ℕ) × (find_nodes (negsuc 4 ∷ pos 0 ∷ pos 5 ∷ []) (pos 3) ≡ some ab)
    × IsNodePair (negsuc 4) (pos 0 ∷ pos 5 ∷ []) (pos 3) ab
find_nodes-IsNodePair_example = find_nodes-IsNodePair (negsuc 4) (pos 0 ∷ pos 5 ∷ []) (pos 3)
