-- ===== src/Indexer/SubAccounts.antt =====
-- indexer/src/handlers/SubAccounts.ts: the ledger, rebuilt from the balances that its events carry. A
-- handler whose entity must exist (`getOrThrow`) returns `none` where that throws.
pub mod Totals
pub mod History
use optara.Common.{ℕ, Bool, true, false, Option, none, some}
use optara.Common.Int.{ℤ, pos, ◌+ℤ◌, ◌-ℤ◌, eq_ℤ}
use optara.Indexer.Entities.{
  Key, single, dash, Log, Account, Operator, Position, BalanceChange, Series,
}
use optara.Indexer.Store.{EntityStore, Context, log_id, max0}
use optara.Indexer.Settlement.{update_group}

pub record BalanceUpdated : Type 0 where
  pub account_id : ℕ
  pub series_id : ℕ
  pub delta : ℤ
  pub balance : ℤ

-- `(await context.Position.get(id))?.balance ?? 0n`.
abbrev pub balance_or_zero : Option Position → ℤ
balance_or_zero none = pos 0
balance_or_zero (some p) = p.balance

-- The series' totals moved by the difference between the stored and the new balance.
unfoldable pub moved : Series → ℤ → ℤ → Series
unfolding max0 ◌+ℤ◌ ◌-ℤ◌
moved s prev balance = record s {
  internal_long = s.internal_long +ℤ max0 balance -ℤ max0 prev;
  internal_short = s.internal_short +ℤ max0 (pos 0 -ℤ balance) -ℤ max0 (pos 0 -ℤ prev);
}

module _ (e : EntityStore) where
  unfoldable pub sub_account_created :
      (account_id owner settlement_asset : ℕ) → Log → Context e → Context e
  sub_account_created account_id owner settlement_asset event c = record c {
    accounts = e.set c.accounts (single account_id) (record {
      id = single account_id;
      account_id = account_id;
      owner = owner;
      settlement_asset = settlement_asset;
      cash = pos 0;
      created_at = event.timestamp;
    });
  }

  unfoldable pub operator_set : (account_id operator : ℕ) → Bool → Log → Context e → Context e
  operator_set account_id operator approved event c = record c {
    operators = e.set c.operators (dash account_id operator) (record {
      id = dash account_id operator;
      account = account_id;
      operator = operator;
      approved = approved;
    });
  }

  unfoldable pub cash_updated : (account_id : ℕ) → ℤ → Log → Context e → Option (Context e)
  cash_updated account_id cash event c = elim (e.get c.accounts (single account_id)) [
    | none ↦ none
    | some a ↦ some (record c { accounts = e.set c.accounts a.id (record a { cash = cash }) })
  ]

  -- The position and the history of the balance, which are written on every update.
  unfoldable pub put_balance : BalanceUpdated → Log → Context e → Context e
  put_balance p event c = record c {
    positions = e.set c.positions (dash p.account_id p.series_id) (record {
      id = dash p.account_id p.series_id;
      account_id = p.account_id;
      series_id = p.series_id;
      balance = p.balance;
      updated_at = event.timestamp;
    });
    balance_changes = e.set c.balance_changes (log_id event) (record {
      id = log_id event;
      account_id = p.account_id;
      series_id = p.series_id;
      delta = p.delta;
      balance = p.balance;
      block = event.block;
      timestamp = event.timestamp;
    });
  }

  unfoldable pub move_totals : ℕ → ℤ → ℤ → Context e → Option (Context e)
  unfolding moved
  move_totals series_id prev balance c = elim (e.get c.series (single series_id)) [
    | none ↦ none
    | some s ↦ some (record c { series = e.set c.series s.id (moved s prev balance) })
  ]

  unfoldable pub balance_updated : BalanceUpdated → Log → Context e → Option (Context e)
  unfolding put_balance move_totals
  balance_updated p event c =
      let prev = balance_or_zero (e.get c.positions (dash p.account_id p.series_id)) in
      elim (eq_ℤ prev p.balance) [
        | true ↦ some (put_balance p event c)
        | false ↦ move_totals p.series_id prev p.balance (put_balance p event c)
      ]

  unfoldable pub participants_updated :
      (group_id participants : ℕ) → Log → Context e → Option (Context e)
  unfolding update_group
  participants_updated group_id participants event =
      update_group e group_id λ g. record g { participants = participants }
