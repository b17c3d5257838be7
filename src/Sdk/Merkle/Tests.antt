-- ===== src/Sdk/Merkle/Tests.antt =====
-- Merkle trees over a few leaves, with a pairing of numbers in place of the hash.
use native.Mathlib.Decide.{dec_lt}
use native.Mathlib.Nat.{mul-le-mul}
use optara.Common.{ℕ, ◌+◌, ◌*◌, ◌≤◌, ◌≡◌, refl, sym, ap, true, false, some, List, [], ◌∷◌, arith}
use optara.Sdk.Merkle.{MerkleTree, merkle_tree, proof, root, verify}
use optara.Sdk.Merkle.Proofs.{IsInjective, verify-proof, verify_unique}

-- No two pairs have one value.
abbrev pairing : ℕ → ℕ → ℕ
pairing a b = (a + b) * (a + b) + a

square_gap : (s t a c : ℕ) → a ≤ s → s * s + a ≡ t * t + c → t ≤ s
square_gap s t a c ha e = elim (dec_lt s t) [
  | yes h ↦ absurd (
      omega
        (arith, mul-le-mul {n₁ = s + 1} {m₁ = s + 1} {n₂ = t} {m₂ = t} (omega arith) (omega arith)))
  | no h ↦ omega arith
]

pairing-IsInjective : IsInjective pairing
pairing-IsInjective a b c d e =
    let up = square_gap (a + b) (c + d) a c (omega arith) e in
    let down = square_gap (c + d) (a + b) c a (omega arith) (sym e) in
    let same : a + b ≡ c + d = omega arith in
    let first : a ≡ c = omega (arith, ap (λ (s : ℕ). s * s) same) in (first, omega arith)

abbrev three_leaves : List ℕ
three_leaves = 5 ∷ 2 ∷ 9 ∷ []

-- The third leaf has no sibling and is carried up: its proof is the node over the other two.
abbrev three_layers : MerkleTree
three_layers = record { layers = three_leaves ∷ (51 ∷ 9 ∷ []) ∷ (3609 ∷ []) ∷ [] }

merkle_tree_three : merkle_tree pairing three_leaves ≡ some three_layers
unfolding merkle_tree
merkle_tree_three = refl

proof_third : proof three_layers 2 ≡ 51 ∷ []
unfolding proof
proof_third = refl

verify_other : verify pairing (51 ∷ []) 3609 8 ≡ false
unfolding verify
verify_other = refl

verify-proof_example :
    (r : ℕ) × (root three_layers ≡ some r) × (verify pairing (proof three_layers 2) r 9 ≡ true)
verify-proof_example = verify-proof pairing three_leaves three_layers 2 9 merkle_tree_three refl

verify_unique_example : verify pairing (51 ∷ []) 3609 8 ≡ false
unfolding verify
verify_unique_example =
    verify_unique pairing pairing-IsInjective (51 ∷ []) 3609 9 8 refl (omega arith)
