-- ===== src/Indexer/SubAccounts/Totals.antt =====
-- The totals of a series are the sums of its positions, over any accounts that hold them all.
use native.Mathlib.Decide.{ℕ_discrete}
use mathlib.Core.Option.{some-injective}
use optara.Common.{
  subst, ℕ, ◌≡◌, ◌≢◌, refl, sym, ap, ap₂, fun_ext, ◌∙◌, true, false, none, some, List,
  if◌then◌else◌, arith, Bool-cases, Option-cases, inl, inr,
}
use optara.Common.Int.{ℤ, pos, ◌+ℤ◌, ◌-ℤ◌, eq_ℤ, pos_part, neg_part, int_laws}
use optara.Common.Sums.{sum_over, Single, sum_over-update}
use optara.Indexer.Entities.{Key, single, dash, Log, Series, key_eq}
use optara.Indexer.Entities.Keys.{dash_eq, dash_ne, dash_ne_right, single_ne, key_eq_self}
use optara.Indexer.Store.{EntityStore, Context, max0}
use optara.Indexer.SubAccounts.{
  BalanceUpdated, balance_or_zero, moved, put_balance, move_totals, balance_updated,
}

pub eq_ℤ→eq : (a b : ℤ) → eq_ℤ a b ≡ true → a ≡ b
eq_ℤ→eq a b h = ground arith

-- A total that was the sum `f` and is moved by the change of one entry is the sum `g`.
moved_total : (l f g old new : ℤ) → l ≡ f → g +ℤ old ≡ f +ℤ new → l +ℤ new -ℤ old ≡ g
moved_total l f g old new h k =
    rw h (omega (int_laws, ap (λ (z : ℤ). pos_part z) k, ap (λ (z : ℤ). neg_part z) k))

module _ (e : EntityStore) where
  unfoldable pub balance_of : Context e → ℕ → ℕ → ℤ
  balance_of c series_id a = balance_or_zero (e.get c.positions (dash a series_id))

  abbrev pub long_of : Context e → List ℕ → ℕ → ℤ
  long_of c ks series_id = sum_over (λ a. max0 (balance_of c series_id a)) ks

  abbrev pub short_of : Context e → List ℕ → ℕ → ℤ
  short_of c ks series_id = sum_over (λ a. max0 (pos 0 -ℤ balance_of c series_id a)) ks

  -- A listed series is stored under its id with the sums of its positions; an unlisted one has none.
  pub record IsTotalled (ks : List ℕ) (series_id : ℕ) (c : Context e) : Type 0 where
    pub listed :
        (s : Series)
        → e.get c.series (single series_id) ≡ some s
        → (s.id ≡ single series_id)
          × (s.internal_long ≡ long_of c ks series_id)
          × (s.internal_short ≡ short_of c ks series_id)
    pub unlisted :
        e.get c.series (single series_id) ≡ none → (a : ℕ) → balance_of c series_id a ≡ pos 0

  balance_of-put :
      (p : BalanceUpdated) (event : Log) (c : Context e) (series_id a : ℕ)
      → balance_of (put_balance e p event c) series_id a ≡ (
          if key_eq (dash p.account_id p.series_id) (dash a series_id)
          then p.balance
          else balance_of c series_id a)
  unfolding balance_of put_balance
  balance_of-put p event c series_id a =
      elim (Bool-cases (key_eq (dash p.account_id p.series_id) (dash a series_id))) [
        | inl hit ↦ rw (e.get-set _ _ _ (dash a series_id), hit)
        | inr miss ↦ rw (e.get-set _ _ _ (dash a series_id), miss)
      ]

  -- Where the entry of the series and its balances stay, so do the sums.
  pub IsTotalled-same :
      (ks : List ℕ) (series_id : ℕ) (c d : Context e)
      → e.get d.series (single series_id) ≡ e.get c.series (single series_id)
      → ((a : ℕ) → balance_of d series_id a ≡ balance_of c series_id a)
      → IsTotalled ks series_id c
      → IsTotalled ks series_id d
  IsTotalled-same ks series_id c d entry same h =
      let e_balances : balance_of d series_id ≡ balance_of c series_id = fun_ext same in
      record {
        listed = λ s found.
            let (id, long, short) = h.listed s (sym entry ∙ found) in
            (
              id,
              long ∙ ap (λ f. sum_over (λ a. max0 (f a)) ks) (sym e_balances),
              short ∙ ap (λ f. sum_over (λ a. max0 (pos 0 -ℤ f a)) ks) (sym e_balances),
            );
        unlisted = λ missing a. same a ∙ h.unlisted (sym entry ∙ missing) a;
      }

  module _ (p : BalanceUpdated) (event : Log) (c : Context e) where
    before : ℤ
    before = balance_or_zero (e.get c.positions (dash p.account_id p.series_id))

    put : Context e
    put = put_balance e p event c

    put-series : (k : Key) → e.get put.series k ≡ e.get c.series k
    unfolding put put_balance
    put-series k = refl

    put_self : balance_of put p.series_id p.account_id ≡ p.balance
    unfolding put
    put_self =
        balance_of-put p event c p.series_id p.account_id
        ∙ rw (key_eq_self (dash p.account_id p.series_id))

    put_other_account :
        (a : ℕ) → a ≢ p.account_id → balance_of put p.series_id a ≡ balance_of c p.series_id a
    unfolding put
    put_other_account a ne =
        balance_of-put p event c p.series_id a
        ∙ rw (dash_ne p.account_id p.series_id a p.series_id ne)

    put_other_series :
        (series_id a : ℕ)
        → series_id ≢ p.series_id
        → balance_of put series_id a ≡ balance_of c series_id a
    unfolding put
    put_other_series series_id a ne =
        balance_of-put p event c series_id a
        ∙ rw (dash_ne_right p.account_id p.series_id a series_id ne)

    before-balance_of : before ≡ balance_of c p.series_id p.account_id
    unfolding before balance_of
    before-balance_of = refl

    -- An update to the balance that is stored changes no balance.
    put_same :
        before ≡ p.balance
        → (series_id a : ℕ) → balance_of put series_id a ≡ balance_of c series_id a
    unfolding put before balance_of
    put_same h series_id a =
        elim (Bool-cases (key_eq (dash p.account_id p.series_id) (dash a series_id))) [
          | inl hit ↦
              let (x, y) = dash_eq p.account_id p.series_id a series_id hit in
              balance_of-put p event c series_id a
              ∙ rw hit (sym h ∙ ap₂ (λ m n. balance_or_zero (e.get c.positions (dash m n))) x y)
          | inr miss ↦ balance_of-put p event c series_id a ∙ rw miss
        ]

    -- The sums over the new balances, where one account's balance changed.
    sum_over-put :
        (ks : List ℕ) (part : ℤ → ℤ)
        → Single p.account_id ks
        → sum_over (λ a. part (balance_of put p.series_id a)) ks +ℤ part before
          ≡ sum_over (λ a. part (balance_of c p.series_id a)) ks +ℤ part p.balance
    sum_over-put ks part once_in = rw (before-balance_of) (
        sum_over-update (λ a. part (balance_of c p.series_id a))
          (λ a. part (balance_of put p.series_id a)) p.account_id ks
          (λ x ne. ap part (put_other_account x ne)) once_in
        ∙ ap (λ b. sum_over (λ a. part (balance_of c p.series_id a)) ks +ℤ part b) put_self)

    after_move : Series → Context e
    after_move s = record put { series = e.set put.series s.id (moved s before p.balance) }

    moved-IsTotalled :
        (ks : List ℕ) (s : Series)
        → Single p.account_id ks
        → e.get c.series (single p.series_id) ≡ some s
        → IsTotalled ks p.series_id c
        → IsTotalled ks p.series_id (after_move s)
    unfolding after_move moved put put_balance balance_of
    moved-IsTotalled ks s once_in found h =
        let (id, long, short) = h.listed s found in
        let stored : e.get (e.set put.series s.id (moved s before p.balance)) (single p.series_id)
            ≡ some (moved s before p.balance) =
          e.get-set put.series s.id (moved s before p.balance) (single p.series_id)
          ∙ rw (id, key_eq_self (single p.series_id)) in
        record {
          listed = λ s' found'.
              let same : moved s before p.balance ≡ s' = some-injective _ _ (sym stored ∙ found') in
              subst
                (λ x.
                  (x.id ≡ single p.series_id)
                  × (x.internal_long ≡ long_of (after_move s) ks p.series_id)
                  × (x.internal_short ≡ short_of (after_move s) ks p.series_id))
                same
                (
                  id,
                  moved_total _ _ _ _ _ long (sum_over-put ks max0 once_in),
                  moved_total _ _ _ _ _ short (sum_over-put ks (λ b. max0 (pos 0 -ℤ b)) once_in),
                );
          unlisted = λ missing a. cc (stored, missing);
        }

    moved_other-IsTotalled :
        (ks : List ℕ) (s : Series) (series_id : ℕ)
        → series_id ≢ p.series_id
        → s.id ≡ single p.series_id
        → IsTotalled ks series_id c
        → IsTotalled ks series_id (after_move s)
    unfolding after_move put put_balance balance_of
    moved_other-IsTotalled ks s series_id ne id h =
        IsTotalled-same ks series_id c (after_move s)
          (e.get-set put.series s.id (moved s before p.balance) (single series_id)
            ∙ rw (id, single_ne p.series_id series_id ne))
          (λ a. put_other_series series_id a ne) h

    balance_updated-kept : eq_ℤ before p.balance ≡ true → balance_updated e p event c ≡ some put
    unfolding balance_updated before put
    balance_updated-kept h = rw (h, balance_updated)

    balance_updated-unlisted :
        eq_ℤ before p.balance ≡ false
        → e.get c.series (single p.series_id) ≡ none
        → balance_updated e p event c ≡ none
    unfolding balance_updated before put_balance
    balance_updated-unlisted h missing = rw (h, balance_updated) (rw (missing, move_totals))

    balance_updated-moved :
        (s : Series)
        → eq_ℤ before p.balance ≡ false
        → e.get c.series (single p.series_id) ≡ some s
        → balance_updated e p event c ≡ some (after_move s)
    unfolding balance_updated before put put_balance after_move
    balance_updated-moved s h found = rw (h, balance_updated) (rw (found, move_totals))

  abbrev pub IsLedger : List ℕ → Context e → Type 0
  IsLedger ks c = (series_id : ℕ) → IsTotalled ks series_id c

  -- Every balance update keeps the totals of every series at the sums of its positions.
  pub balance_updated-IsLedger :
      (ks : List ℕ) (p : BalanceUpdated) (event : Log) (c d : Context e)
      → Single p.account_id ks
      → IsLedger ks c
      → balance_updated e p event c ≡ some d
      → IsLedger ks d
  balance_updated-IsLedger ks p event c d once_in h done series_id =
      elim (Bool-cases (eq_ℤ (before p event c) p.balance)) [
        | inl kept ↦
            subst (IsTotalled ks series_id)
              (some-injective _ _ (sym (balance_updated-kept p event c kept) ∙ done))
              (IsTotalled-same ks series_id c (put p event c)
                (put-series p event c (single series_id))
                (put_same p event c (eq_ℤ→eq _ _ kept) series_id) (h series_id))
        | inr changed ↦ elim (Option-cases (e.get c.series (single p.series_id))) [
          | inl missing ↦ cc (balance_updated-unlisted p event c changed missing)
          | inr (s, found) ↦
              subst (IsTotalled ks series_id)
                (some-injective _ _ (sym (balance_updated-moved p event c s changed found) ∙ done))
                (elim (ℕ_discrete series_id p.series_id) [
                  | yes same ↦
                      subst (λ n. IsTotalled ks n (after_move p event c s)) (sym same)
                        (moved-IsTotalled p event c ks s once_in found (h p.series_id))
                  | no other ↦
                      moved_other-IsTotalled p event c ks s series_id other
                        ((h p.series_id).listed s found).0 (h series_id)
                ])
        ]
      ]
