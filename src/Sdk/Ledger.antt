-- ===== src/Sdk/Ledger.antt =====
-- sdk/src/ledger.ts: who holds what, rebuilt from the ledger's balance updates.
pub mod Proofs
pub mod Holders
pub mod Rising
pub mod Tests
use optara.Common.{
  ℕ, ◌+◌, Bool, true, false, not, Option, none, some, List, [], ◌∷◌, ◌++◌, map, ltb, if◌then◌else◌,
  get_key, set_key, add_to,
}
use optara.Common.Int.{ℤ, pos, eq_ℤ}
use optara.Sdk.Scan.{Scanned, scan}

-- A BalanceUpdated log.
pub record BalanceLog : Type 0 where
  pub series_id : ℕ
  pub account_id : ℕ
  pub balance : ℤ

-- seriesId → accountId → balance.
abbrev pub Balances : Type 0
Balances = List (ℕ × List (ℕ × ℤ))

abbrev pub or_empty : Option (List (ℕ × ℤ)) → List (ℕ × ℤ)
or_empty none = []
or_empty (some m) = m

unfoldable pub apply_log : BalanceLog → Balances → Balances
apply_log l balances =
    set_key balances l.series_id
      (set_key (or_empty (get_key balances l.series_id)) l.account_id l.balance)

-- `sync`, up to a head.
unfoldable pub sync :
    (get_logs : (from to : ℕ) → List BalanceLog) (fuel chunk head : ℕ)
    → Scanned Balances
    → Option (Scanned Balances)
unfolding scan apply_log
sync get_logs fuel chunk head = scan get_logs apply_log fuel chunk head

-- `for (const [a, b] of balances) if (b !== 0n) out.add(a)`.
unfoldable pub add_holders : List (ℕ × ℤ) → List ℕ → List ℕ
add_holders [] out = out
add_holders ((a, b) ∷ m) out = add_holders m (if eq_ℤ b (pos 0) then out else add_to a out)

unfoldable pub holders_of : Balances → List ℕ → List ℕ → List ℕ
unfolding add_holders
holders_of balances [] out = out
holders_of balances (id ∷ series_ids) out =
    holders_of balances series_ids (add_holders (or_empty (get_key balances id)) out)

-- `sort((a, b) => (a < b ? -1 : 1))`, as an insertion sort.
unfoldable pub insert : ℕ → List ℕ → List ℕ
insert a [] = a ∷ []
insert a (x ∷ xs) = let rest = insert a xs in if ltb a x then a ∷ x ∷ xs else x ∷ rest

unfoldable pub sort : List ℕ → List ℕ
unfolding insert
sort [] = []
sort (x ∷ xs) = insert x (sort xs)

unfoldable pub holders : Balances → List ℕ → List ℕ
unfolding holders_of sort
holders balances series_ids = sort (holders_of balances series_ids [])

unfoldable pub with_positions : Balances → List ℕ
unfolding holders
with_positions balances = holders balances (map (λ row. row.0) balances)
