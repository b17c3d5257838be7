-- ===== src/Sdk/Merkle/Proofs.antt =====
-- The trees of `Merkle` are complete and binding: a node's proof leads to the root, and no other
-- value has the same proof.
use mathlib.Core.Option.{some-injective}
use optara.Common.{
  ◌≢◌, ◌==◌, subst, ℕ, zero, suc, ◌+◌, ◌/◌, ◌<◌, ◌≤◌, ◌≡◌, refl, sym, ◌∙◌, inl, inr, true, false,
  Option, none, some, List, [], ◌∷◌, length, get_elem?, ltb, ==_iff, arith, Bool-cases, tests,
  ltb→lt,
}
use optara.Sdk.Merkle.{
  MerkleTree, last_layer, sibling_of, push_sibling, proof_from, proof, root, hash_pair, next_layer,
  build, merkle_tree, climb, verify,
}

get_elem?-single :
    (l : List ℕ) (i x : ℕ) → length l ≤ 1 → get_elem? l i ≡ some x → get_elem? l 0 ≡ some x
get_elem?-single [] i x h e = cc
get_elem?-single (y ∷ l) zero x h e = e
get_elem?-single (y ∷ []) (suc i) x h e = cc
get_elem?-single (y ∷ z ∷ l) (suc i) x h e = absurd (omega arith)

module _ (keccak : ℕ → ℕ → ℕ) where
  hash_pair_comm : (a b : ℕ) → hash_pair keccak a b ≡ hash_pair keccak b a
  unfolding hash_pair
  hash_pair_comm a b = ground arith

  length-next_layer : (l : List ℕ) → length (next_layer keccak l) ≡ (length l + 1) / 2
  unfolding next_layer
  length-next_layer [] = omega arith
  length-next_layer (x ∷ []) = omega arith
  length-next_layer (x ∷ y ∷ rest) = omega (arith, length-next_layer rest)

  build_more :
      (fuel : ℕ) (l : List ℕ)
      → ltb 1 (length l) ≡ true
      → build keccak (suc fuel) l ≡ l ∷ build keccak fuel (next_layer keccak l)
  unfolding build
  build_more fuel l e = rw (e, build)

  build_done :
      (fuel : ℕ) (l : List ℕ) → ltb 1 (length l) ≡ false → build keccak (suc fuel) l ≡ l ∷ []
  unfolding build
  build_done fuel l e = rw (e, build)

  build-head : (fuel : ℕ) (l : List ℕ) → (t : List (List ℕ)) × (build keccak fuel l ≡ l ∷ t)
  build-head zero l = ([], unfold build in refl)
  build-head (suc fuel) l = elim (Bool-cases (ltb 1 (length l))) [
    | inl more ↦ (build keccak fuel (next_layer keccak l), build_more fuel l more)
    | inr done ↦ ([], build_done fuel l done)
  ]

  last_layer-cons :
      (fuel : ℕ) (l m : List ℕ)
      → last_layer (l ∷ build keccak fuel m) ≡ last_layer (build keccak fuel m)
  last_layer-cons fuel l m = let (t, e) = build-head fuel m in rw e

  -- With fuel for its length a layer is built up to a single node.
  length-last_layer :
      (fuel : ℕ) (l : List ℕ)
      → 0 < length l
      → length l ≤ fuel
      → length (last_layer (build keccak fuel l)) ≡ 1
  length-last_layer zero l p h = absurd (omega arith)
  length-last_layer (suc fuel) l p h = elim (Bool-cases (ltb 1 (length l))) [
    | inl more ↦
        rw (build_more fuel l more, last_layer-cons fuel l (next_layer keccak l))
          (length-last_layer fuel (next_layer keccak l)
            (omega (tests, length-next_layer l, ltb→lt 1 (length l) more))
            (omega (tests, length-next_layer l)))
    | inr done ↦ rw (build_done fuel l done) (ground arith)
  ]

  sibling_of-suc : (i : ℕ) → sibling_of (suc (suc i)) ≡ suc (suc (sibling_of i))
  unfolding sibling_of
  sibling_of-suc i = ground arith

  half-suc : (i : ℕ) → suc (suc i) / 2 ≡ suc (i / 2)
  half-suc i = omega arith

  -- One step up: the node above `i` is the hash of the node at `i` with its sibling, if it has one.
  climb_step :
      (l : List ℕ) (i : ℕ) (x : ℕ)
      → get_elem? l i ≡ some x
      → get_elem? (next_layer keccak l) (i / 2)
        ≡ some (climb keccak (push_sibling (get_elem? l (sibling_of i)) []) x)
  unfolding next_layer climb
  climb_step [] i x e = cc
  climb_step (y ∷ []) zero x e = unfold sibling_of in e
  climb_step (y ∷ []) (suc i) x e = cc
  climb_step (y ∷ z ∷ rest) zero x e = unfold sibling_of in ground arith
  climb_step (y ∷ z ∷ rest) (suc zero) x e = unfold sibling_of in ground (arith, hash_pair_comm x y)
  climb_step (y ∷ z ∷ rest) (suc (suc i)) x e =
      rw (half-suc i, sibling_of-suc i) (climb_step rest i x e)

  climb-push_sibling :
      (o : Option ℕ) (ps : List ℕ) (x : ℕ)
      → climb keccak (push_sibling o ps) x ≡ climb keccak ps (climb keccak (push_sibling o []) x)
  unfolding climb
  climb-push_sibling none ps x = refl
  climb-push_sibling (some h) ps x = refl

  proof_from-cons :
      (fuel : ℕ) (l m : List ℕ) (i : ℕ)
      → proof_from (l ∷ build keccak fuel m) i
        ≡ push_sibling (get_elem? l (sibling_of i)) (proof_from (build keccak fuel m) (i / 2))
  proof_from-cons fuel l m i = let (t, e) = build-head fuel m in rw e (unfold proof_from in refl)

  -- With enough fuel the proof of the node at `i` leads from that node to the top one.
  climb-proof_from :
      (fuel : ℕ) (l : List ℕ) (i x : ℕ)
      → length l ≤ fuel
      → get_elem? l i ≡ some x
      → get_elem? (last_layer (build keccak fuel l)) 0
        ≡ some (climb keccak (proof_from (build keccak fuel l) i) x)
  unfolding proof_from climb
  climb-proof_from zero [] i x h e = cc
  climb-proof_from zero (y ∷ l) i x h e = absurd (omega arith)
  climb-proof_from (suc fuel) l i x h e = elim (Bool-cases (ltb 1 (length l))) [
    | inl more ↦
        rw
          (
            build_more fuel l more,
            last_layer-cons fuel l (next_layer keccak l),
            proof_from-cons fuel l (next_layer keccak l) i,
            climb-push_sibling (get_elem? l (sibling_of i)),
          )
          (climb-proof_from fuel (next_layer keccak l) (i / 2) _
            (omega (tests, length-next_layer l, ltb→lt 1 (length l) more)) (climb_step l i x e))
    | inr done ↦ rw (build_done fuel l done) (get_elem?-single l i x (ground arith) e)
  ]

  -- Every leaf's proof verifies: for leaves that a tree can be built over, the tree has a root, and
  -- `verify` accepts the proof of the leaf at any index against that root.
  pub verify-proof :
      (leaves : List ℕ) (t : MerkleTree) (i leaf : ℕ)
      → merkle_tree keccak leaves ≡ some t
      → get_elem? leaves i ≡ some leaf
      → (r : ℕ) × (root t ≡ some r) × (verify keccak (proof t i) r leaf ≡ true)
  unfolding merkle_tree root proof verify
  verify-proof [] t i leaf built e = cc
  verify-proof (y ∷ l) t i leaf built e =
      subst (λ t. (r : ℕ) × (root t ≡ some r) × (verify keccak (proof t i) r leaf ≡ true))
        (some-injective _ _ built)
        (
          climb keccak (proof_from (build keccak (length (y ∷ l)) (y ∷ l)) i) leaf,
          climb-proof_from (length (y ∷ l)) (y ∷ l) i leaf (omega arith) e,
          (==_iff _ _).1 refl,
        )

  pub merkle_tree-cons :
      (x : ℕ) (l : List ℕ) → (t : MerkleTree) × (merkle_tree keccak (x ∷ l) ≡ some t)
  unfolding merkle_tree
  merkle_tree-cons x l = (record { layers = build keccak (length (x ∷ l)) (x ∷ l) }, refl)

  pub merkle_tree-nil : merkle_tree keccak [] ≡ none
  unfolding merkle_tree
  merkle_tree-nil = refl

  abbrev pub IsInjective : Type 0
  IsInjective = (a b c d : ℕ) → keccak a b ≡ keccak c d → (a ≡ c) × (b ≡ d)

  hash_pair-injective :
      IsInjective → (a b p : ℕ) → hash_pair keccak a p ≡ hash_pair keccak b p → a ≡ b
  unfolding hash_pair
  hash_pair-injective inj a b p e =
      ground (arith, inj a p b p, inj p a p b, inj a p p b, inj p a b p)

  climb-injective :
      IsInjective → (ps : List ℕ) (a b : ℕ) → climb keccak ps a ≡ climb keccak ps b → a ≡ b
  unfolding climb
  climb-injective inj [] a b e = e
  climb-injective inj (p ∷ ps) a b e =
      hash_pair-injective inj a b p
        (climb-injective inj ps (hash_pair keccak a p) (hash_pair keccak b p) e)

  -- A proof binds its leaf: where no two pairs of words have one hash, `verify` rejects every other
  -- leaf with the proof and the root that it accepts a leaf with.
  pub verify_unique :
      IsInjective
      → (ps : List ℕ) (r a b : ℕ) → verify keccak ps r a ≡ true
      → b ≢ a
      → verify keccak ps r b ≡ false
  unfolding verify
  verify_unique inj ps r a b ha ne = elim (Bool-cases (climb keccak ps b == r)) [
    | inl hb ↦
        absurd (ne (climb-injective inj ps b a ((==_iff _ r).0 hb ∙ sym ((==_iff _ r).0 ha))))
    | inr other ↦ other
  ]
