-- ===== src/Sdk/Brackets/Nodes.antt =====
-- sdk/src/math.ts: the nodes that are found are neighbours around the log-moneyness.
use optara.Common.{
  ℕ, zero, suc, ◌+◌, ◌-◌, ◌<◌, true, false, some, List, [], ◌∷◌, length, get_or, ◌≡◌, ◌⊎◌, refl,
  sym, true≢false, ◌∙◌, inl, inr, Bool-cases, arith,
}
use optara.Common.Int.{ℤ, pos, leb_ℤ, ltb_ℤ, eq_ℤ, eq_of_parts}
use optara.Sdk.Brackets.{nodes_from, find_nodes}
use optara.Sdk.Brackets.Proofs.{found}

-- The search ends at the first node that is not below `k`, the one before the list being `p`.
abbrev Lands : ℕ → ℤ → List ℤ → ℤ → ℕ → Type 0
Lands j p nodes k d =
    (nodes_from j nodes k ≡ some (j + suc d, j + suc d)) × (get_or nodes d (pos 0) ≡ k)
    ⊎ (nodes_from j nodes k ≡ some (j + d, j + suc d))
      × (ltb_ℤ (get_or (p ∷ nodes) d (pos 0)) k ≡ true)
      × (ltb_ℤ k (get_or nodes d (pos 0)) ≡ true)

-- The node that is not below `k` comes later.
get_later :
    (next : ℤ) (nodes : List ℤ) (k : ℤ) (i : ℕ)
    → leb_ℤ k next ≡ false
    → i < suc (length nodes)
    → leb_ℤ k (get_or (next ∷ nodes) i (pos 0)) ≡ true
    → (i' : ℕ) × (i' < length nodes) × (leb_ℤ k (get_or nodes i' (pos 0)) ≡ true)
get_later next nodes k zero not_reached h le = absurd (true≢false (sym le ∙ not_reached))
get_later next nodes k (suc i) not_reached h le = (i, omega arith, le)

tail-Lands :
    (j : ℕ) (p next : ℤ) (nodes : List ℤ) (k : ℤ) (d : ℕ)
    → leb_ℤ k next ≡ false
    → Lands (suc j) next nodes k d
    → Lands j p (next ∷ nodes) k (suc d)
unfolding nodes_from
tail-Lands j p next nodes k d not_reached (inl (end, at)) =
    inl (rw not_reached (end ∙ found (omega arith) (omega arith)), at)
tail-Lands j p next nodes k d not_reached (inr (end, above, below)) =
    inr (rw not_reached (end ∙ found (omega arith) (omega arith)), above, below)

nodes_from-Lands :
    (j : ℕ) (p : ℤ) (nodes : List ℤ) (k : ℤ) (i : ℕ)
    → ltb_ℤ p k ≡ true
    → i < length nodes
    → leb_ℤ k (get_or nodes i (pos 0)) ≡ true
    → (d : ℕ) × (d < length nodes) × Lands j p nodes k d
unfolding nodes_from
nodes_from-Lands j p [] k i before h le = absurd (omega arith)
nodes_from-Lands j p (next ∷ nodes) k i before h le = elim (Bool-cases (leb_ℤ k next)) [
  | inl reached ↦ elim (Bool-cases (eq_ℤ k next)) [
    | inl same ↦ (
      0,
      omega arith,
      inl (
        rw (reached, same) (found (omega arith) (omega arith)),
        eq_of_parts next k (ground arith),
      ),
    )
    | inr other ↦ (
      0,
      omega arith,
      inr (rw (reached, other) (found (omega arith) (omega arith)), before, ground arith),
    )
  ]
  | inr not_reached ↦
      let (i', inside, le') = get_later next nodes k i not_reached h le in
      let (d, lt, lands) = nodes_from-Lands (suc j) next nodes k i' (ground arith) inside le' in
      (suc d, omega arith, tail-Lands j p next nodes k d not_reached lands)
]

-- Nodes around `k`: the first where `k` is not above it, the last where `k` is not below it, else the one
-- that equals `k`, or two neighbours with `k` strictly between them.
abbrev pub IsNodePair : ℤ → List ℤ → ℤ → ℕ × ℕ → Type 0
IsNodePair first nodes k (a, b) =
    let all = first ∷ nodes in
    (b < length all)
    × ((a ≡ 0) × (b ≡ 0) × (leb_ℤ k first ≡ true)
        ⊎ (a ≡ length nodes) × (b ≡ length nodes) × (leb_ℤ (get_or all b (pos 0)) k ≡ true)
        ⊎ (a ≡ b) × (get_or all b (pos 0) ≡ k)
        ⊎ (b ≡ suc a)
          × (ltb_ℤ (get_or all a (pos 0)) k ≡ true)
          × (ltb_ℤ k (get_or all b (pos 0)) ≡ true))

Lands-IsNodePair :
    (first : ℤ) (nodes : List ℤ) (k : ℤ) (d : ℕ)
    → d < length nodes
    → Lands 0 first nodes k d
    → (ab : ℕ × ℕ) × (nodes_from 0 nodes k ≡ some ab) × IsNodePair first nodes k ab
Lands-IsNodePair first nodes k d lt (inl (end, at)) = (
  (suc d, suc d),
  end ∙ found (omega arith) (omega arith),
  (omega arith, inr (inr (inl (refl, at)))),
)
Lands-IsNodePair first nodes k d lt (inr (end, above, below)) = (
  (d, suc d),
  end ∙ found (omega arith) (omega arith),
  (omega arith, inr (inr (inr (refl, above, below)))),
)

-- On any grid with a node findNodes returns, with indexes inside the grid: the first node
-- where the log-moneyness is not above it, the last where it is not below it, the node that
-- equals it, or two neighbours with it strictly between them.
pub find_nodes-IsNodePair :
    (first : ℤ) (nodes : List ℤ) (k : ℤ)
    → (ab : ℕ × ℕ) × (find_nodes (first ∷ nodes) k ≡ some ab) × IsNodePair first nodes k ab
unfolding find_nodes
find_nodes-IsNodePair first nodes k = elim (Bool-cases (leb_ℤ k first)) [
  | inl low ↦ ((0, 0), rw low refl, (omega arith, inl (refl, refl, low)))
  | inr above ↦
      let m = length nodes in
      elim (Bool-cases (leb_ℤ (get_or (first ∷ nodes) (suc m - 1) (pos 0)) k)) [
        | inl high ↦ (
          (suc m - 1, suc m - 1),
          rw (above, high) refl,
          (omega arith, inr (inl (omega arith, omega arith, high))),
        )
        | inr below ↦
            let (i, inside, le) =
              get_later first nodes k (suc m - 1) above (omega arith) (ground arith) in
            let (d, lt, lands) = nodes_from-Lands 0 first nodes k i (ground arith) inside le in
            let (ab, end, pair) = Lands-IsNodePair first nodes k d lt lands in
            (ab, rw (above, below) end, pair)
      ]
]
