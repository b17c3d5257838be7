-- ===== src/Indexer/Monitor/Reconcile.antt =====
-- A reconciliation without alerts means that the index agrees with the chain.
use mathlib.Core.Path.{ap₂}
use optara.Common.{
  ℕ, ◌≡◌, refl, ◌∙◌, Bool, true, false, ◌&&◌, List, [], ◌∷◌, ◌++◌, All, length, ◌==◌, ==_iff,
  get_key, Bool-cases, inl, inr,
}
use optara.Common.Int.{ℤ, ◌+ℤ◌, eq_ℤ}
use optara.Indexer.SubAccounts.Totals.{eq_ℤ→eq}
use optara.Indexer.Monitor.Custody.{
  total_of, cash_rows, pool_rows, cash_by_asset-total, pools_by_asset-total, each_asset,
}
use optara.Indexer.Monitor.{
  Alert, Subject, AccountRow, SeriesRow, GroupRow, Views, mismatch, check_each, or_zero,
  cash_by_asset, pools_by_asset, keys, distinct, check_account, check_series, check_group,
  check_custody, reconcile,
}

none_left : (xs ys : List Alert) → xs ++ ys ≡ [] → (xs ≡ []) × (ys ≡ [])
none_left [] ys h = (refl, h)
none_left (x ∷ xs) ys h = cc h

matched : (b : Bool) (s : Subject) → mismatch b s ≡ [] → b ≡ true
matched true s h = refl
matched false s h = cc h

each-clean :
    {R : Type 0} (check : R → List Alert) (P : R → Type 0) (rows : List R)
    → ((r : R) → check r ≡ [] → P r)
    → check_each check rows ≡ []
    → All P rows
unfolding check_each
each-clean check P [] f h = tt
each-clean check P (r ∷ rows) f h =
    let (now, later) = none_left (check r) (check_each check rows) h in
    (f r now, each-clean check P rows f later)

both : (p q : Bool) → (p && q) ≡ true → (p ≡ true) × (q ≡ true)
both true true h = (refl, refl)
both true false h = cc h
both false q h = cc h

module _ (v : Views) (accs : List AccountRow) (series : List SeriesRow)
    (groups : List GroupRow) where
  abbrev pub SeriesAgrees : SeriesRow → Type 0
  SeriesAgrees s =
      ((v.totals s.id).0 ≡ s.internal_long)
      × ((v.totals s.id).1 ≡ s.internal_short)
      × (v.total_supply s.wrapper ≡ s.wrapper_supply)

  -- The accounts' cash and the groups' pools in an asset.
  abbrev pub owed : ℕ → ℤ
  owed token = total_of token (cash_rows accs) +ℤ total_of token (pool_rows v groups)

  -- What the index and the chain agree on; the assets are those of the accounts and of the groups.
  pub record Agrees : Type 0 where
    pub counted : v.account_count ≡ length accs
    pub cash : All (λ a. v.cash_of a.account_id ≡ a.cash) accs
    pub series_rows : All SeriesAgrees series
    pub group_rows : All (λ g. v.participants g.id ≡ g.participants) groups
    pub custody :
        All
          (λ token. v.held_by_clearing token ≡ owed token)
          (keys (cash_rows accs) ++ keys (pool_rows v groups))

  account_clean : (a : AccountRow) → check_account v a ≡ [] → v.cash_of a.account_id ≡ a.cash
  unfolding check_account
  account_clean a h = eq_ℤ→eq _ _ (matched _ _ h)

  series_clean : (s : SeriesRow) → check_series v s ≡ [] → SeriesAgrees s
  unfolding check_series
  series_clean s h =
      let (t, w) = none_left _ _ h in
      let (l, r) = both _ _ (matched _ _ t) in
      (eq_ℤ→eq _ _ l, eq_ℤ→eq _ _ r, eq_ℤ→eq _ _ (matched _ _ w))

  group_clean : (g : GroupRow) → check_group v g ≡ [] → v.participants g.id ≡ g.participants
  unfolding check_group
  group_clean g h = (==_iff _ _).0 (matched _ _ h)

  custody_clean :
      (token : ℕ)
      → check_custody v (cash_by_asset accs []) (pools_by_asset v groups []) token ≡ []
      → v.held_by_clearing token ≡ owed token
  unfolding check_custody
  custody_clean token h =
      let cash = or_zero (get_key (cash_by_asset accs []) token) in
      let pools = or_zero (get_key (pools_by_asset v groups []) token) in
      elim (Bool-cases (eq_ℤ (v.held_by_clearing token) (cash +ℤ pools))) [
        | inl same ↦
            eq_ℤ→eq _ _ same
            ∙ ap₂ ◌+ℤ◌ (cash_by_asset-total accs token) (pools_by_asset-total v groups token)
        | inr differs ↦ cc (h, differs)
      ]

  -- Where a reconciliation reports nothing, the index agrees with the chain on the number of accounts, on
  -- every account's cash, on every series' totals and wrapper supply and on every group's participants,
  -- and the clearing contract holds, of each settlement asset of an account or a group, the sum of the
  -- accounts' cash and the groups' pools in it.
  pub reconcile_clean : reconcile v accs series groups ≡ [] → Agrees
  unfolding reconcile
  reconcile_clean h =
      let cash = cash_by_asset accs [] in
      let pools = pools_by_asset v groups [] in
      let tokens = distinct (keys cash ++ keys pools) [] in
      let e₁ : List Alert = mismatch (v.account_count == length accs) Subject.accounts in
      let e₂ : List Alert = check_each (check_account v) accs in
      let e₃ : List Alert = check_each (check_series v) series in
      let e₄ : List Alert = check_each (check_group v) groups in
      let e₅ : List Alert = check_each (check_custody v cash pools) tokens in
      let (h₁, held) = none_left (e₁ ++ e₂ ++ e₃ ++ e₄) e₅ h in
      let (h₂, members) = none_left (e₁ ++ e₂ ++ e₃) e₄ h₁ in
      let (h₃, totals) = none_left (e₁ ++ e₂) e₃ h₂ in
      let (count, accounts_ok) = none_left e₁ e₂ h₃ in
      record {
        counted = (==_iff _ _).0 (matched (v.account_count == length accs) Subject.accounts count);
        cash = each-clean (check_account v) _ accs account_clean accounts_ok;
        series_rows = each-clean (check_series v) SeriesAgrees series series_clean totals;
        group_rows = each-clean (check_group v) _ groups group_clean members;
        custody =
            each_asset (λ token. v.held_by_clearing token ≡ owed token) v accs groups
              (each-clean (check_custody v cash pools)
                (λ token. v.held_by_clearing token ≡ owed token) tokens custody_clean held);
      }
