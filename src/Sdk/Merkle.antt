-- ===== src/Sdk/Merkle.antt =====
-- `MerkleTree` of sdk/src/surface.ts. A 32-byte hash is a number; `keccak a b` stands for viem's
-- keccak256(concat([a, b])).
pub mod Proofs
mod Tests
use optara.Common.{
  ℕ, zero, suc, ◌-◌, ◌+◌, ◌/◌, ◌%◌, Bool, true, false, Option, none, some, List, [], ◌∷◌, length,
  get_elem?, ltb, ◌==◌, if◌then◌else◌,
}

-- `layers` of the class; the constructor and its methods are the functions below.
pub record MerkleTree : Type 0 where
  pub layers : List (List ℕ)

-- `layers[layers.length - 1]`.
abbrev pub last_layer : List (List ℕ) → List ℕ
last_layer [] = []
last_layer (l ∷ []) = l
last_layer (l ∷ m ∷ rest) = last_layer (m ∷ rest)

-- `index ^ 1`, for an index below 2 ^ 31.
pub sibling_of : ℕ → ℕ
sibling_of i = if i % 2 == 0 then i + 1 else i - 1

-- `if (sibling < layer.length) out.push(layer[sibling])`.
abbrev pub push_sibling : Option ℕ → List ℕ → List ℕ
push_sibling none out = out
push_sibling (some h) out = h ∷ out

-- The loop of `proof`, over the layers below the top one.
pub proof_from : List (List ℕ) → ℕ → List ℕ
unfolding sibling_of
proof_from [] i = []
proof_from (l ∷ []) i = []
proof_from (l ∷ m ∷ rest) i =
    push_sibling (get_elem? l (sibling_of i)) (proof_from (m ∷ rest) (i / 2))

unfoldable pub proof : MerkleTree → ℕ → List ℕ
unfolding proof_from
proof t i = proof_from t.layers i

unfoldable pub root : MerkleTree → Option ℕ
root t = get_elem? (last_layer t.layers) 0

module _ (keccak : ℕ → ℕ → ℕ) where
  pub hash_pair : ℕ → ℕ → ℕ
  hash_pair a b = if ltb a b then keccak a b else keccak b a

  -- One round of the constructor's inner loop: pairs hashed, an odd last node carried up.
  pub next_layer : List ℕ → List ℕ
  next_layer [] = []
  next_layer (x ∷ []) = x ∷ []
  next_layer (x ∷ y ∷ rest) = hash_pair x y ∷ next_layer rest

  -- `while (last layer has more than one node)`; the fuel is a bound on the layer's length.
  pub build : ℕ → List ℕ → List (List ℕ)
  unfolding next_layer hash_pair
  build zero layer = layer ∷ []
  build (suc fuel) layer = elim (ltb 1 (length layer)) [
    | true ↦ layer ∷ build fuel (next_layer layer)
    | false ↦ layer ∷ []
  ]

  -- The constructor; `none` is its error "Merkle tree needs at least one leaf".
  unfoldable pub merkle_tree : List ℕ → Option MerkleTree
  unfolding build
  merkle_tree [] = none
  merkle_tree (x ∷ xs) = some (record { layers = build (length (x ∷ xs)) (x ∷ xs) })

  -- `proof.reduce((h, p) => hashPair(h, p), leaf)`.
  pub climb : List ℕ → ℕ → ℕ
  unfolding hash_pair
  climb [] h = h
  climb (p ∷ ps) h = climb ps (hash_pair h p)

  unfoldable pub verify : List ℕ → ℕ → ℕ → Bool
  unfolding climb
  verify ps r leaf = climb ps leaf == r
