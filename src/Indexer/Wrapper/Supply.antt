-- ===== src/Indexer/Wrapper/Supply.antt =====
-- A wrapper's transfers keep its indexed supply at the sum of its holders' indexed balances.
use optara.Common.{
  ℕ, ◌≡◌, ◌≢◌, refl, sym, ap, ◌∙◌, none, some, List, ◌∷◌, ◌==◌, if◌then◌else◌, Bool-cases, inl, inr,
}
use optara.Common.Int.{ℤ, pos, ◌+ℤ◌, ◌-ℤ◌, eq_ℤ, pos_part, neg_part, int_laws, eq_of_parts}
use optara.Common.Sums.{sum_over, Single, sum_over-update}
use optara.Indexer.Entities.{Key, dash, Log, Series}
use optara.Indexer.Store.{EntityStore, Context, zero_address, log_id}
use optara.Indexer.Store.Once.{record_log, once_runs}
use optara.Indexer.SubAccounts.Totals.{eq_ℤ→eq}
use optara.Indexer.Entities.Keys.{key_eq_self, dash_ne_right}
use optara.Indexer.Wrapper.{put_held, held, debit, credit, put_supply, apply_transfer, transfer}

-- With supply `p`, balances that sum to `t`, and one balance `old` that becomes `new`.
debit_sum : (p t t' old v : ℤ) → t' +ℤ old ≡ t +ℤ (old -ℤ v) → p +ℤ t ≡ p +ℤ t' +ℤ v
debit_sum p t t' old v h =
    eq_of_parts (p +ℤ t) (p +ℤ t' +ℤ v)
      (omega (int_laws, ap (λ (z : ℤ). pos_part z) h, ap (λ (z : ℤ). neg_part z) h))

credit_sum : (p t t' old v : ℤ) → t' +ℤ old ≡ t +ℤ (old +ℤ v) → p +ℤ t +ℤ v ≡ p +ℤ t'
credit_sum p t t' old v h =
    eq_of_parts (p +ℤ t +ℤ v) (p +ℤ t')
      (omega (int_laws, ap (λ (z : ℤ). pos_part z) h, ap (λ (z : ℤ). neg_part z) h))

swap_last : (p t v : ℤ) → p +ℤ v +ℤ t ≡ p +ℤ t +ℤ v
swap_last p t v = omega int_laws

undo_last : (p t v : ℤ) → p -ℤ v +ℤ t +ℤ v ≡ p +ℤ t
undo_last p t v = omega int_laws

-- What the debit adds to the difference of supply and balances, the credit takes away.
both_halves :
    (p p' p'' t t' t'' v : ℤ)
    → p' +ℤ t ≡ p +ℤ t' +ℤ v
    → p'' +ℤ t' +ℤ v ≡ p' +ℤ t''
    → p'' +ℤ t ≡ p +ℤ t''
both_halves p p' p'' t t' t'' v h k = eq_of_parts (p'' +ℤ t) (p +ℤ t'') (
    omega (
      int_laws,
      ap (λ (z : ℤ). pos_part z) h,
      ap (λ (z : ℤ). neg_part z) h,
      ap (λ (z : ℤ). pos_part z) k,
      ap (λ (z : ℤ). neg_part z) k,
    ))

module _ (e : EntityStore) where
  abbrev pub total_held : Context e → ℕ → List ℕ → ℤ
  total_held c wrapper ks = sum_over (held e c wrapper) ks

  held-put :
      (id : Key) (wrapper holder : ℕ) (balance : ℤ) (c : Context e)
      → held e (put_held e id wrapper holder balance c) wrapper holder ≡ balance
  unfolding held put_held
  held-put id wrapper holder balance c =
      rw (
        e.get-set _ (dash wrapper holder) _ (dash wrapper holder),
        key_eq_self (dash wrapper holder),
      )

  held-put_ne :
      (id : Key) (wrapper holder other : ℕ) (balance : ℤ) (c : Context e)
      → other ≢ holder
      → held e (put_held e id wrapper holder balance c) wrapper other ≡ held e c wrapper other
  unfolding held put_held
  held-put_ne id wrapper holder other balance c ne = rw (
    e.get-set _ (dash wrapper holder) _ (dash wrapper other),
    dash_ne_right wrapper holder wrapper other ne,
  )

  total_held-put :
      (id : Key) (wrapper holder : ℕ) (b : ℤ) (c : Context e) (ks : List ℕ)
      → Single holder ks
      → total_held (put_held e id wrapper holder b c) wrapper ks +ℤ held e c wrapper holder
        ≡ total_held c wrapper ks +ℤ b
  total_held-put id wrapper holder b c ks once_in =
      let d = put_held e id wrapper holder b c in
      sum_over-update (held e c wrapper) (held e d wrapper) holder ks
        (λ x ne. held-put_ne id wrapper holder x b c ne) once_in
      ∙ ap (λ z. total_held c wrapper ks +ℤ z) (held-put id wrapper holder b c)

  -- The zero address stands for no holder; any other address is one of `ks`.
  abbrev pub IsHolder : ℕ → List ℕ → Type 0
  IsHolder a ks = if a == zero_address then Unit {0} else Single a ks

  debit-total :
      (s : Series) (wrapper from value : ℕ) (m : ℤ × Context e) (ks : List ℕ)
      → IsHolder from ks
      → ((debit e s wrapper from value m).0 +ℤ total_held m.1 wrapper ks
          ≡ m.0 +ℤ total_held (debit e s wrapper from value m).1 wrapper ks +ℤ pos value)
        × ((debit e s wrapper from value m).1.series ≡ m.1.series)
  unfolding debit put_held
  debit-total s wrapper from value (supply, c) ks holder =
      elim (Bool-cases (from == zero_address)) [
        | inl none_held ↦
            rw none_held (swap_last supply (total_held c wrapper ks) (pos value), refl)
        | inr someone ↦
            let once_in : Single from ks = rw someone at holder in
            rw someone (
              debit_sum supply (total_held c wrapper ks) _ (held e c wrapper from) (pos value) (
                  total_held-put s.id wrapper from (held e c wrapper from -ℤ pos value) c ks
                    once_in),
              refl,
            )
      ]

  credit-total :
      (s : Series) (wrapper to value : ℕ) (m : ℤ × Context e) (ks : List ℕ)
      → IsHolder to ks
      → ((credit e s wrapper to value m).0 +ℤ total_held m.1 wrapper ks +ℤ pos value
          ≡ m.0 +ℤ total_held (credit e s wrapper to value m).1 wrapper ks)
        × ((credit e s wrapper to value m).1.series ≡ m.1.series)
  unfolding credit put_held
  credit-total s wrapper to value (supply, c) ks holder = elim (Bool-cases (to == zero_address)) [
    | inl none_held ↦ rw none_held (undo_last supply (total_held c wrapper ks) (pos value), refl)
    | inr someone ↦
        let once_in : Single to ks = rw someone at holder in
        rw someone (
          credit_sum supply (total_held c wrapper ks) _ (held e c wrapper to) (pos value)
              (total_held-put s.id wrapper to (held e c wrapper to +ℤ pos value) c ks once_in),
          refl,
        )
  ]

  put_supply-stored :
      (s : Series) (supply : ℤ) (d : Context e)
      → e.get d.series s.id ≡ some s
      → (s' : Series) × (e.get (put_supply e s (supply, d)).series s.id ≡ some s')
        × (s'.wrapper_supply ≡ supply)
        × ((wrapper : ℕ) → held e (put_supply e s (supply, d)) wrapper ≡ held e d wrapper)
  unfolding put_supply held
  put_supply-stored s supply d found = elim (Bool-cases (eq_ℤ supply s.wrapper_supply)) [
    | inl same ↦ rw same (s, found, sym (eq_ℤ→eq supply s.wrapper_supply same), λ wrapper. refl)
    | inr moved ↦ rw moved (
      record s { wrapper_supply = supply },
      e.get-set d.series s.id _ s.id ∙ rw (key_eq_self s.id),
      refl,
      λ wrapper. refl,
    )
  ]

  apply_transfer-found :
      (wrapper from to value : ℕ) (c : Context e) (s : Series) (rest : List Series)
      → e.get_where c.series (λ s. s.wrapper == wrapper) ≡ s ∷ rest
      → apply_transfer e wrapper from to value c
        ≡ put_supply e s
            (credit e s wrapper to value (debit e s wrapper from value (s.wrapper_supply, c)))
  unfolding apply_transfer
  apply_transfer-found wrapper from to value c s rest h = rw (h, apply_transfer)

  -- A transfer of a series' wrapper changes the series' indexed supply by exactly as much as it changes
  -- the sum of the indexed balances, over any accounts that hold each of its two ends once (the zero
  -- address, which mints and burns, holds nothing); at a log that was not applied before.
  pub transfer_even :
      (from to value : ℕ) (event : Log) (c : Context e) (ks : List ℕ) (s : Series)
      (rest : List Series)
      → e.get c.processed (log_id event) ≡ none
      → e.get_where c.series (λ s. s.wrapper == event.src_address) ≡ s ∷ rest
      → e.get c.series s.id ≡ some s
      → IsHolder from ks
      → IsHolder to ks
      → (s' : Series) × (e.get (transfer e from to value event c).series s.id ≡ some s')
        × (s'.wrapper_supply +ℤ total_held c event.src_address ks
            ≡ s.wrapper_supply
              +ℤ total_held (transfer e from to value event c) event.src_address ks)
  unfolding transfer
  transfer_even from to value event c ks s rest fresh listed stored hf ht =
      let w = event.src_address in
      let m = debit e s w from value (s.wrapper_supply, record_log e event c) in
      let r = credit e s w to value m in
      let (out, same_out) =
        debit-total s w from value (s.wrapper_supply, record_log e event c) ks hf in
      let (into, same_in) = credit-total s w to value m ks ht in
      let still : e.get r.1.series s.id ≡ some s =
        ap (λ t. e.get t s.id) (same_in ∙ same_out) ∙ stored in
      let (s', found, supply, same_held) = put_supply-stored s r.0 r.1 still in
      let done : transfer e from to value event c ≡ put_supply e s r =
        once_runs e c event (apply_transfer e w from to value) fresh
        ∙ apply_transfer-found w from to value (record_log e event c) s rest listed in
      rw done (s', found, rw (supply, same_held w) (both_halves _ _ _ _ _ _ (pos value) out into))
