-- ===== src/Publisher/Nodes/Proofs.antt =====
-- publisher/src/publisher.ts, `nodesFor`: which leaves are wanted.
use optara.Common.{
  All-append, ℕ, zero, suc, ◌+◌, ◌-◌, ◌≤◌, ◌<◌, Bool, true, ◌&&◌, ◌||◌, some, List, [], ◌∷◌, ◌++◌,
  min, get_elem?, ◌==◌, ==_iff, ◌≡◌, ◌⊎◌, refl, sym, ap, ap₂, ◌∙◌, subst, inl, inr, arith,
  Bool-cases, or-false, or_assoc, All, true≢false,
}
use optara.Sdk.Surface.{SurfaceGrid, NodeProof, node_proof}
use optara.Publisher.Nodes.{wants, want, want_row, want_around, want_tenors, node_proofs}

wants-append :
    (t j u i : ℕ) (out : List (ℕ × ℕ))
    → wants t j (out ++ (u, i) ∷ []) ≡ (wants t j out || ((u == t) && (i == j)))
wants-append t j u i [] = or-false ((u == t) && (i == j))
wants-append t j u i ((v, k) ∷ out) =
    ap (λ w. ((v == t) && (k == j)) || w) (wants-append t j u i out)
    ∙ sym (or_assoc ((v == t) && (k == j)) (wants t j out) ((u == t) && (i == j)))

want_keeps :
    (t j u i : ℕ) (out : List (ℕ × ℕ)) → wants t j out ≡ true → wants t j (want u i out) ≡ true
want_keeps t j u i out h = elim (Bool-cases (wants u i out)) [
  | inl old ↦ rw old h
  | inr new ↦ rw new (rw (wants-append t j u i out, h) refl)
]

want-wants : (t j : ℕ) (out : List (ℕ × ℕ)) → wants t j (want t j out) ≡ true
want-wants t j out = elim (Bool-cases (wants t j out)) [
  | inl old ↦ rw old old
  | inr new ↦ rw new (
      rw (wants-append t j t j out, new)
        (ap₂ (λ a b. a && b) ((==_iff t t).1 refl) ((==_iff j j).1 refl)))
]

want_row_keeps :
    (t j u i count : ℕ) (out : List (ℕ × ℕ))
    → wants t j out ≡ true
    → wants t j (want_row u i count out) ≡ true
unfolding want_row
want_row_keeps t j u i zero out h = h
want_row_keeps t j u i (suc count) out h =
    want_row_keeps t j u (suc i) count (want u i out) (want_keeps t j u i out h)

want_row-wants :
    (t j i count : ℕ) (out : List (ℕ × ℕ))
    → i ≤ j
    → j < i + count
    → wants t j (want_row t i count out) ≡ true
unfolding want_row
want_row-wants t j i zero out h k = absurd (omega arith)
want_row-wants t j i (suc count) out h k = elim (Bool-cases (i == j)) [
  | inl same ↦
      let here : wants t j (want t i out) ≡ true =
        subst (λ j. wants t j (want t i out) ≡ true) ((==_iff i j).0 same) (want-wants t i out) in
      want_row_keeps t j t (suc i) count (want t i out) here
  | inr other ↦ want_row-wants t j (suc i) count (want t i out) (ground arith) (omega arith)
]

pub want_tenors_keeps :
    (t j m margin : ℕ) (nodes tb : ℕ × ℕ) (out : List (ℕ × ℕ))
    → wants t j out ≡ true
    → wants t j (want_tenors m margin nodes tb out) ≡ true
unfolding want_tenors want_around
want_tenors_keeps t j m margin (lo, hi) (a, b) out h =
    let count = min m (suc (hi + margin)) - (lo - margin) in
    let first = want_row_keeps t j a (lo - margin) count out h in
    elim (Bool-cases (b == a)) [
      | inl one ↦ rw one first
      | inr two ↦
          rw two
            (want_row_keeps t j b (lo - margin) count (want_row a (lo - margin) count out) first)
    ]

-- The tenors of the pair and the nodes in the range are wanted.
pub want_tenors-wants :
    (t j m margin lo hi a b : ℕ) (out : List (ℕ × ℕ))
    → (t ≡ a) ⊎ (t ≡ b)
    → lo ≤ j + margin
    → j ≤ hi + margin
    → j < m
    → wants t j (want_tenors m margin (lo, hi) (a, b) out) ≡ true
unfolding want_tenors want_around
want_tenors-wants t j m margin lo hi a b out which low high inside =
    let count = min m (suc (hi + margin)) - (lo - margin) in
    let first = want_row a (lo - margin) count out in
    elim (Bool-cases (b == a)) [
      | inl one ↦
          let same : t ≡ a = elim which [ inl h ↦ h | inr h ↦ h ∙ (==_iff b a).0 one ] in
          rw one (
            subst (λ u. wants u j first ≡ true) (sym same)
              (want_row-wants a j (lo - margin) count out (omega arith) (omega arith)))
      | inr two ↦ rw two (elim which [
        | inl h ↦ want_row_keeps t j b (lo - margin) count first (
            subst (λ u. wants u j first ≡ true) (sym h)
              (want_row-wants a j (lo - margin) count out (omega arith) (omega arith)))
        | inr h ↦
            subst (λ u. wants u j (want_row b (lo - margin) count first) ≡ true) (sym h)
              (want_row-wants b j (lo - margin) count first (omega arith) (omega arith))
      ])
    ]

-- Every key that is wanted is a leaf of the grid.
abbrev pub AreLeaves : ℕ → ℕ → List (ℕ × ℕ) → Type 0
AreLeaves n m keys = All (λ (k : ℕ × ℕ). (k.0 < n) × (k.1 < m)) keys

want-AreLeaves :
    (n m t j : ℕ) (out : List (ℕ × ℕ))
    → t < n
    → j < m
    → AreLeaves n m out
    → AreLeaves n m (want t j out)
want-AreLeaves n m t j out ht hj leaves = elim (Bool-cases (wants t j out)) [
  | inl old ↦ rw old leaves
  | inr new ↦
      rw new
        (All-append (λ (k : ℕ × ℕ). (k.0 < n) × (k.1 < m)) out ((t, j) ∷ []) leaves ((ht, hj), tt))
]

want_row-AreLeaves :
    (n m t j count : ℕ) (out : List (ℕ × ℕ))
    → t < n
    → j + count ≤ m ⊎ (count ≡ 0)
    → AreLeaves n m out
    → AreLeaves n m (want_row t j count out)
unfolding want_row
want_row-AreLeaves n m t j zero out ht hj leaves = leaves
want_row-AreLeaves n m t j (suc count) out ht hj leaves =
    let inside : j + suc count ≤ m = elim hj [ inl h ↦ h | inr h ↦ absurd (omega arith) ] in
    want_row-AreLeaves n m t (suc j) count (want t j out) ht (inl (omega arith))
      (want-AreLeaves n m t j out ht (omega arith) leaves)

pub want_tenors-AreLeaves :
    (n m margin lo hi a b : ℕ) (out : List (ℕ × ℕ))
    → a < n
    → b < n
    → AreLeaves n m out
    → AreLeaves n m (want_tenors m margin (lo, hi) (a, b) out)
unfolding want_tenors want_around
want_tenors-AreLeaves n m margin lo hi a b out ha hb leaves =
    let count = min m (suc (hi + margin)) - (lo - margin) in
    let range : lo - margin + count ≤ m ⊎ (count ≡ 0) = ground arith in
    let first = want_row-AreLeaves n m a (lo - margin) count out ha range leaves in
    elim (Bool-cases (b == a)) [
      | inl one ↦ rw one first
      | inr two ↦ rw two (
          want_row-AreLeaves n m b (lo - margin) count (want_row a (lo - margin) count out) hb range
            first)
    ]

-- The proof of a leaf is among those given, or the leaf is left out.
abbrev pub IsServed : SurfaceGrid → (ℕ → ℕ → Bool) → ℕ → ℕ → List NodeProof → Type 0
IsServed g skipped t j ps =
    (skipped t j ≡ true)
    ⊎ (p : NodeProof) × (n : ℕ) × (get_elem? ps n ≡ some p) × (node_proof g t j ≡ some p)

wants-cases :
    (t j u i : ℕ) (keys : List (ℕ × ℕ))
    → wants t j ((u, i) ∷ keys) ≡ true
    → (u ≡ t) × (i ≡ j) ⊎ (wants t j keys ≡ true)
wants-cases t j u i keys h = elim (Bool-cases (u == t)) [
  | inl same ↦ elim (Bool-cases (i == j)) [
    | inl here ↦ inl ((==_iff u t).0 same, (==_iff i j).0 here)
    | inr there ↦ inr (sym (ap₂ (λ a b. (a && b) || wants t j keys) same there) ∙ h)
  ]
  | inr other ↦ inr (sym (ap (λ a. (a && (i == j)) || wants t j keys) other) ∙ h)
]

IsServed-later :
    (g : SurfaceGrid) (skipped : ℕ → ℕ → Bool) (t j : ℕ) (p : NodeProof) (ps : List NodeProof)
    → IsServed g skipped t j ps
    → IsServed g skipped t j (p ∷ ps)
IsServed-later g skipped t j p ps (inl left) = inl left
IsServed-later g skipped t j p ps (inr (q, n, at_n, proof)) = inr (q, suc n, at_n, proof)

pub node_proofs-IsServed :
    (g : SurfaceGrid) (n m : ℕ) (skipped : ℕ → ℕ → Bool)
    → ((t j : ℕ) → t < n → j < m → (p : NodeProof) × (node_proof g t j ≡ some p))
    → (keys : List (ℕ × ℕ)) → AreLeaves n m keys
    → (ps : List NodeProof) × (node_proofs g skipped keys ≡ some ps)
      × ((t j : ℕ) → wants t j keys ≡ true → IsServed g skipped t j ps)
unfolding node_proofs
node_proofs-IsServed g n m skipped total [] leaves =
    ([], refl, λ t j h. absurd (true≢false (sym h)))
node_proofs-IsServed g n m skipped total ((u, i) ∷ keys) ((hu, hi), leaves) =
    let (ps, end, served) = node_proofs-IsServed g n m skipped total keys leaves in
    elim (Bool-cases (skipped u i)) [
      | inl left ↦ (
        ps,
        rw left end,
        λ t j h. elim (wants-cases t j u i keys h) [
          | inl here ↦ inl (sym (ap₂ skipped here.0 here.1) ∙ left)
          | inr there ↦ served t j there
        ],
      )
      | inr shown ↦
          let (p, proof) = total u i hu hi in
          (
            p ∷ ps,
            rw (shown, end, proof) refl,
            λ t j h. elim (wants-cases t j u i keys h) [
              | inl here ↦ inr (p, 0, refl, sym (ap₂ (node_proof g) here.0 here.1) ∙ proof)
              | inr there ↦ IsServed-later g skipped t j p ps (served t j there)
            ],
          )
    ]
