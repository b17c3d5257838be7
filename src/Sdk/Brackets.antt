-- ===== src/Sdk/Brackets.antt =====
-- sdk/src/math.ts: `findTenors` and `findNodes`. The log-moneyness is given as the integer that `toWad` makes
-- of it. A loop that would run past its list is `none`.
pub mod Proofs
pub mod Nodes
mod Tests
use optara.Common.{
  ℕ, zero, suc, ◌-◌, Bool, ◌||◌, Option, none, some, List, [], ◌∷◌, length, get_or, ltb, ◌==◌,
  if◌then◌else◌,
}
use optara.Common.Int.{ℤ, pos, leb_ℤ, eq_ℤ}

-- `while (n < 4 && n < tenors.length && tenors[n] !== 0n) n++`, with the rest of the 4 as fuel.
unfoldable pub count_tenors : ℕ → List ℕ → ℕ
count_tenors zero ts = 0
count_tenors (suc r) [] = 0
count_tenors (suc r) (t ∷ ts) = let rest = count_tenors r ts in if t == 0 then 0 else suc rest

-- The search from the tenor of index `i` on.
unfoldable pub tenors_from : ℕ → List ℕ → ℕ → Option (ℕ × ℕ)
tenors_from i [] expiry = none
tenors_from i (t ∷ ts) expiry =
    let rest = tenors_from (suc i) ts expiry in
    if t == expiry then some (i, i) else if ltb expiry t then some (i - 1, i) else rest

unfoldable pub find_tenors : List ℕ → ℕ → Option (ℕ × ℕ)
unfolding count_tenors tenors_from
find_tenors ts expiry =
    let n = count_tenors 4 ts in
    if (n == 0) || (ltb expiry (get_or ts 0 0) || ltb (get_or ts (n - 1) 0) expiry)
    then none
    else tenors_from 0 ts expiry

-- The search among the nodes after the one of index `j`.
unfoldable pub nodes_from : ℕ → List ℤ → ℤ → Option (ℕ × ℕ)
nodes_from j [] k = none
nodes_from j (next ∷ nodes) k =
    let rest = nodes_from (suc j) nodes k in
    if leb_ℤ k next then (if eq_ℤ k next then some (suc j, suc j) else some (j, suc j)) else rest

-- An empty grid is an error.
unfoldable pub find_nodes : List ℤ → ℤ → Option (ℕ × ℕ)
unfolding nodes_from
find_nodes [] k = none
find_nodes (first ∷ nodes) k =
    let m = suc (length nodes) in
    if leb_ℤ k first
    then some (0, 0)
    else if leb_ℤ (get_or (first ∷ nodes) (m - 1) (pos 0)) k
    then some (m - 1, m - 1)
    else nodes_from 0 nodes k
