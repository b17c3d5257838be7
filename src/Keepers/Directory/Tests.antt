-- ===== src/Keepers/Directory/Tests.antt =====
-- Two accounts in one series, of which one has closed its position.
use optara.Common.{ℕ, some, List, [], ◌∷◌, ◌==◌, ◌≡◌, refl, inl, inr, Bool-cases, get_key}
use optara.Common.Int.{pos, negsuc}
use optara.Sdk.Ledger.{Balances, holders}
use optara.Sdk.Ledger.Proofs.{balance_in}
use optara.Sdk.Ledger.Holders.{holds, AllKeyed}
use optara.Keepers.Directory.{PositionRow, sync_positions, position_holders}
use optara.Keepers.Directory.Proofs.{has_position, position_holders-holders}

abbrev rows : List PositionRow
rows =
    record { account_id = 2; series_id = 5; balance = pos 0 }
    ∷ record { account_id = 1; series_id = 5; balance = negsuc 2 }
    ∷ []

abbrev balances : Balances
balances = (5, (1, negsuc 2) ∷ (2, pos 0) ∷ []) ∷ []

one_holder : position_holders (sync_positions (some rows) []).0 (5 ∷ []) ≡ 1 ∷ []
unfolding position_holders sync_positions
one_holder = refl

same_positions : (a id : ℕ) → has_position rows a id ≡ holds (balance_in balances id a)
unfolding get_key
same_positions a id = elim (Bool-cases (5 == id)) [
  | inl here ↦ elim (Bool-cases (1 == a)) [
    | inl one ↦ rw here (rw one refl)
    | inr other ↦ elim (Bool-cases (2 == a)) [
      | inl two ↦ rw here (rw other (rw two refl))
      | inr neither ↦ rw here (rw other (rw neither refl))
    ]
  ]
  | inr there ↦ elim (Bool-cases (1 == a)) [
    | inl one ↦ rw there (rw one refl)
    | inr other ↦ rw there (rw other refl)
  ]
]

balances_keyed : AllKeyed balances
unfolding get_key
balances_keyed = ((refl, (refl, tt)), tt)

position_holders-holders_example :
    position_holders (sync_positions (some rows) []).0 (5 ∷ []) ≡ holders balances (5 ∷ [])
position_holders-holders_example =
    position_holders-holders balances rows (5 ∷ []) [] balances_keyed same_positions
