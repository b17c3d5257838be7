-- ===== src/Keepers/Directory.antt =====
-- keepers/src/indexerDirectory.ts: `IndexerDirectory`, the lists of holders from the indexer's positions. An
-- answer of the indexer that is not ok is none.
pub mod Proofs
mod Tests
use optara.Common.{
  ℕ, Bool, true, false, not, Option, none, some, List, [], ◌∷◌, elem, add_to, if◌then◌else◌,
}
use optara.Common.Int.{ℤ, pos, eq_ℤ}
use optara.Sdk.Ledger.{sort}

pub record PositionRow : Type 0 where
  pub account_id : ℕ
  pub series_id : ℕ
  pub balance : ℤ

-- `rows.filter((r) => BigInt(r.balance) !== 0n)`.
unfoldable pub open_rows : List PositionRow → List PositionRow
open_rows [] = []
open_rows (r ∷ rows) =
    let rest = open_rows rows in if eq_ℤ r.balance (pos 0) then rest else r ∷ rest

-- `sync`: an error leaves the positions, which the caller sees as an exception.
unfoldable pub sync_positions :
    Option (List PositionRow) → List PositionRow → List PositionRow × Bool
unfolding open_rows
sync_positions none positions = (positions, false)
sync_positions (some rows) positions = (open_rows rows, true)

unfoldable pub accounts_in : List ℕ → List PositionRow → List ℕ → List ℕ
accounts_in ids [] out = out
accounts_in ids (p ∷ positions) out =
    accounts_in ids positions (if elem p.series_id ids then add_to p.account_id out else out)

unfoldable pub position_holders : List PositionRow → List ℕ → List ℕ
unfolding accounts_in sort
position_holders positions ids = sort (accounts_in ids positions [])

unfoldable pub all_accounts : List PositionRow → List ℕ → List ℕ
all_accounts [] out = out
all_accounts (p ∷ positions) out = all_accounts positions (add_to p.account_id out)

pub position_accounts : List PositionRow → List ℕ
unfolding all_accounts sort
position_accounts positions = sort (all_accounts positions [])
