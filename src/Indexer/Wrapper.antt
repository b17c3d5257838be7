-- ===== src/Indexer/Wrapper.antt =====
-- indexer/src/handlers/Wrapper.ts: the supply and the holders of a series' wrapper token, from its
-- transfers.
pub mod Supply
use optara.Common.{ℕ, Bool, true, false, Option, none, some, List, [], ◌∷◌, ◌==◌, if◌then◌else◌}
use optara.Common.Int.{ℤ, pos, ◌+ℤ◌, ◌-ℤ◌, eq_ℤ}
use optara.Indexer.Entities.{Key, dash, Log, Series, WrapperBalance}
use optara.Indexer.Store.{EntityStore, Context, zero_address, once}

-- `b?.balance ?? 0n`.
abbrev pub held_or_zero : Option WrapperBalance → ℤ
held_or_zero none = pos 0
held_or_zero (some b) = b.balance

module _ (e : EntityStore) where
  pub put_held : Key → ℕ → ℕ → ℤ → Context e → Context e
  put_held series_id wrapper holder balance c = record c {
    wrapper_balances = e.set c.wrapper_balances (dash wrapper holder) (record {
      id = dash wrapper holder;
      series_id = series_id;
      holder = holder;
      balance = balance;
    });
  }

  pub held : Context e → ℕ → ℕ → ℤ
  held c wrapper holder = held_or_zero (e.get c.wrapper_balances (dash wrapper holder))

  -- The two halves of a transfer, on the supply read so far: out of `from`, then into `to`.
  pub debit : Series → ℕ → ℕ → ℕ → ℤ × Context e → ℤ × Context e
  unfolding put_held held
  debit s wrapper from value (supply, c) =
      if from == zero_address
      then (supply +ℤ pos value, c)
      else (supply, put_held s.id wrapper from (held c wrapper from -ℤ pos value) c)

  pub credit : Series → ℕ → ℕ → ℕ → ℤ × Context e → ℤ × Context e
  unfolding put_held held
  credit s wrapper to value (supply, c) =
      if to == zero_address
      then (supply -ℤ pos value, c)
      else (supply, put_held s.id wrapper to (held c wrapper to +ℤ pos value) c)

  -- `if (supply !== series.wrapperSupply) context.Series.set(...)`.
  pub put_supply : Series → ℤ × Context e → Context e
  put_supply s (supply, c) =
      if eq_ℤ supply s.wrapper_supply
      then c
      else record c { series = e.set c.series s.id (record s { wrapper_supply = supply }) }

  pub apply_transfer : (wrapper from to value : ℕ) → Context e → Context e
  unfolding debit credit put_supply
  apply_transfer wrapper from to value c = elim (e.get_where c.series (λ s. s.wrapper == wrapper)) [
    | [] ↦ c
    | s ∷ _ ↦
        put_supply s (credit s wrapper to value (debit s wrapper from value (s.wrapper_supply, c)))
  ]

  unfoldable pub transfer : (from to value : ℕ) → Log → Context e → Context e
  unfolding once apply_transfer
  transfer from to value event c = once e c event (apply_transfer event.src_address from to value)
