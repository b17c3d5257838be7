-- ===== src/Indexer/SubAccounts/History.antt =====
-- The ledger over a whole history of listings and balance updates.
use mathlib.Core.Option.{some-injective}
use native.Mathlib.Decide.{ℕ_discrete}
use optara.Common.{ℕ, ◌≡◌, ◌≢◌, refl, sym, ◌∙◌, subst, none, some, List, [], ◌∷◌}
use optara.Common.Int.{ℤ, pos, ◌+ℤ◌, ◌-ℤ◌}
use optara.Common.Sums.{sum_over, Single}
use optara.Indexer.Entities.{single, Log}
use optara.Indexer.Entities.Keys.{key_eq_self, single_ne}
use optara.Indexer.Store.{EntityStore, Context, max0}
use optara.Indexer.Registry.{SeriesCreated, new_series, series_created}
use optara.Indexer.SubAccounts.{BalanceUpdated, balance_updated}
use optara.Indexer.SubAccounts.Totals.{
  balance_of, long_of, short_of, IsTotalled, IsLedger, IsTotalled-same, balance_updated-IsLedger,
}

sum_over_zero :
    (part : ℤ → ℤ) (f : ℕ → ℤ) (ks : List ℕ)
    → part (pos 0) ≡ pos 0
    → ((a : ℕ) → f a ≡ pos 0)
    → pos 0 ≡ sum_over (λ a. part (f a)) ks
unfolding sum_over ◌+ℤ◌
sum_over_zero part f [] z h = refl
sum_over_zero part f (a ∷ ks) z h = rw (h a, z, ← sum_over_zero part f ks z h)

module _ (e : EntityStore) where
  created_balances :
      (p : SeriesCreated) (event : Log) (c : Context e) (series_id a : ℕ)
      → balance_of e (series_created e p event c) series_id a ≡ balance_of e c series_id a
  unfolding series_created balance_of
  created_balances p event c series_id a = refl

  created_other :
      (p : SeriesCreated) (event : Log) (c : Context e) (series_id : ℕ)
      → series_id ≢ p.series_id
      → e.get (series_created e p event c).series (single series_id)
        ≡ e.get c.series (single series_id)
  unfolding series_created
  created_other p event c series_id ne =
      e.get-set c.series (single p.series_id) (new_series p event) (single series_id)
      ∙ rw (single_ne p.series_id series_id ne)

  created_self :
      (p : SeriesCreated) (event : Log) (c : Context e)
      → e.get (series_created e p event c).series (single p.series_id) ≡ some (new_series p event)
  unfolding series_created
  created_self p event c =
      e.get-set c.series (single p.series_id) (new_series p event) (single p.series_id)
      ∙ rw (key_eq_self (single p.series_id))

  created-IsTotalled :
      (ks : List ℕ) (p : SeriesCreated) (event : Log) (c : Context e)
      → ((a : ℕ) → balance_of e c p.series_id a ≡ pos 0)
      → IsTotalled e ks p.series_id (series_created e p event c)
  created-IsTotalled ks p event c zero_balances =
      let d = series_created e p event c in
      let zero : (a : ℕ) → balance_of e d p.series_id a ≡ pos 0 =
        λ a. created_balances p event c p.series_id a ∙ zero_balances a in
      record {
        listed = λ s found.
            subst
              (λ x.
                (x.id ≡ single p.series_id)
                × (x.internal_long ≡ long_of e d ks p.series_id)
                × (x.internal_short ≡ short_of e d ks p.series_id))
              (some-injective _ _ (sym (created_self p event c) ∙ found))
              (unfold new_series in
                (
                  refl,
                  sum_over_zero max0 (balance_of e d p.series_id) ks (unfold max0 in refl) zero,
                  sum_over_zero (λ b. max0 (pos 0 -ℤ b)) (balance_of e d p.series_id) ks
                      (unfold max0 ◌-ℤ◌ in refl) zero,
                ));
        unlisted = λ missing a. zero a;
      }

  -- A series that was not listed is listed with totals of zero, and no account holds it.
  series_created-IsLedger :
      (ks : List ℕ) (p : SeriesCreated) (event : Log) (c : Context e)
      → e.get c.series (single p.series_id) ≡ none
      → IsLedger e ks c
      → IsLedger e ks (series_created e p event c)
  series_created-IsLedger ks p event c fresh h series_id = elim (ℕ_discrete series_id p.series_id) [
    | no other ↦
        IsTotalled-same e ks series_id c (series_created e p event c)
          (created_other p event c series_id other) (created_balances p event c series_id)
          (h series_id)
    | yes same ↦
        subst (λ n. IsTotalled e ks n (series_created e p event c)) (sym same)
          (created-IsTotalled ks p event c ((h p.series_id).unlisted fresh))
  ]

  -- One event of the ledger's history: a first listing, or a balance update that the handler accepts.
  pub data LedgerStep (ks : List ℕ) (c d : Context e) : Type 0 where
    lists :
        (p : SeriesCreated) (event : Log)
        → e.get c.series (single p.series_id) ≡ none
        → d ≡ series_created e p event c
        → LedgerStep ks c d
    updates :
        (p : BalanceUpdated) (event : Log)
        → Single p.account_id ks
        → balance_updated e p event c ≡ some d
        → LedgerStep ks c d

  pub data LedgerRun (ks : List ℕ) (c : Context e) : Context e → Type 0 where
    start : LedgerRun ks c c
    more : {d f : Context e} → LedgerRun ks c d → LedgerStep ks d f → LedgerRun ks c f

  -- No series is listed, and no account has a balance.
  pub record IsEmpty (c : Context e) : Type 0 where
    pub no_series : (series_id : ℕ) → e.get c.series (single series_id) ≡ none
    pub no_balance : (series_id a : ℕ) → balance_of e c series_id a ≡ pos 0

  LedgerStep-IsLedger :
      (ks : List ℕ) {c d : Context e} → LedgerStep ks c d → IsLedger e ks c → IsLedger e ks d
  LedgerStep-IsLedger ks {c} (lists p event fresh same) h =
      subst (IsLedger e ks) (sym same) (series_created-IsLedger ks p event c fresh h)
  LedgerStep-IsLedger ks {c} {d} (updates p event once_in done) h =
      balance_updated-IsLedger e ks p event c d once_in h done

  -- From an empty index, after any history in which a series is listed once and every update is of one
  -- of the accounts `ks`, each listed series has for its totals the sums of the accounts' long and of
  -- their short balances, and a series that is not listed has no balance.
  pub LedgerRun-IsLedger :
      (ks : List ℕ) (c d : Context e) → IsEmpty c → LedgerRun ks c d → IsLedger e ks d
  LedgerRun-IsLedger ks c _ empty start = λ series_id. record {
    listed = λ s found. cc (empty.no_series series_id, found);
    unlisted = λ missing. empty.no_balance series_id;
  }
  LedgerRun-IsLedger ks c _ empty (more {d} run step) =
      LedgerStep-IsLedger ks step (LedgerRun-IsLedger ks c d empty run)
