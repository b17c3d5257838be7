-- ===== src/Indexer/Fees/Tally.antt =====
-- The insurance tallies count each log once, however often and in whatever order it is delivered.
use optara.Common.{
  ℕ, ◌+◌, ◌≡◌, refl, ap, ap₂, ◌∙◌, fun_ext, Bool, true, false, Option, none, some, List, [], ◌∷◌,
  ◌==◌, ==_iff, if◌then◌else◌, arith, Bool-cases, Option-cases, inl, inr,
}
use optara.Indexer.Entities.{Key, single, Log, Insurance, key_eq}
use optara.Indexer.Store.{EntityStore, Context, log_id, once}
use optara.Indexer.Store.Once.{record_log, once_runs, once_skips}
use optara.Indexer.Fees.{
  FeeSplit, or_fresh, insurance_of, put_insurance, add_from_fees, add_deposited, add_paid,
  fee_split, insurance_deposited, insurance_paid, put_fee,
}

-- The events that the tallies of an asset are made of.
pub data InsuranceEvent : Type 0 where
  splits : FeeSplit → InsuranceEvent
  deposits pays : (asset amount : ℕ) → InsuranceEvent

-- What an event adds to the three tallies of an asset: deposited, from fees, paid.
pub record Amounts : Type 0 where
  pub deposited : ℕ
  pub from_fees : ℕ
  pub paid : ℕ

abbrev pub amounts : InsuranceEvent → ℕ → Amounts
amounts (splits p) a = record {
  deposited = 0;
  from_fees = if p.asset == a then p.to_insurance else 0;
  paid = 0;
}
amounts (deposits asset amount) a = record {
  deposited = if asset == a then amount else 0;
  from_fees = 0;
  paid = 0;
}
amounts (pays asset amount) a = record {
  deposited = 0;
  from_fees = 0;
  paid = if asset == a then amount else 0;
}

abbrev pub plus : Amounts → Amounts → Amounts
plus x y = record {
  deposited = x.deposited + y.deposited;
  from_fees = x.from_fees + y.from_fees;
  paid = x.paid + y.paid;
}

amounts_eq :
    {x y : Amounts}
    → x.deposited ≡ y.deposited
    → x.from_fees ≡ y.from_fees
    → x.paid ≡ y.paid
    → x ≡ y
amounts_eq d f p = λ i. record { deposited = d i; from_fees = f i; paid = p i }

plus_zero : (x : Amounts) → x ≡ plus x (record { deposited = 0; from_fees = 0; paid = 0 })
plus_zero x = amounts_eq (omega arith) (omega arith) (omega arith)

-- The sum of an asset's amounts over the deliveries, where a log that was seen counts no more.
unfoldable pub tally : (Key → Bool) → List (InsuranceEvent × Log) → ℕ → Amounts
tally seen [] a = record { deposited = 0; from_fees = 0; paid = 0 }
tally seen ((ev, log) ∷ rest) a = elim (seen (log_id log)) [
  | true ↦ tally seen rest a
  | false ↦ plus (amounts ev a) (tally (λ k. if key_eq (log_id log) k then true else seen k) rest a)
]

abbrev pub is_some : {A : Type 0} → Option A → Bool
is_some none = false
is_some (some x) = true

abbrev pub tallies : Insurance → Amounts
tallies i = record { deposited = i.deposited; from_fees = i.from_fees; paid = i.paid }

module _ (e : EntityStore) where
  pub handle_insurance : InsuranceEvent → Log → Context e → Context e
  handle_insurance (splits p) event c = fee_split e p event c
  handle_insurance (deposits asset amount) event c = insurance_deposited e asset amount event c
  handle_insurance (pays asset amount) event c = insurance_paid e asset amount event c

  pub deliver : List (InsuranceEvent × Log) → Context e → Context e
  unfolding handle_insurance
  deliver [] c = c
  deliver ((ev, log) ∷ rest) c = deliver rest (handle_insurance ev log c)

  abbrev pub tallies_of : Context e → ℕ → Amounts
  tallies_of c a = tallies (insurance_of e c a)

  abbrev pub seen_of : Context e → Key → Bool
  seen_of c k = is_some (e.get c.processed k)

  insurance_of-put :
      (asset : ℕ) (i : Insurance) (c : Context e) (a : ℕ)
      → insurance_of e (put_insurance e asset i c) a
        ≡ (if asset == a then i else insurance_of e c a)
  unfolding insurance_of put_insurance
  insurance_of-put asset i c a =
      ap (or_fresh a) (e.get-set c.insurances (single asset) i (single a)) ∙ ground arith

  -- What each handler does to the tallies once its log is recorded.
  abbrev count : InsuranceEvent → Context e → Context e
  count (splits p) c = add_from_fees e p.asset p.to_insurance c
  count (deposits asset amount) c = add_deposited e asset amount c
  count (pays asset amount) c = add_paid e asset amount c

  tallies_of-put :
      (asset : ℕ) (i : Insurance) (c : Context e) (a : ℕ) (x : Amounts)
      → tallies i ≡ plus (tallies_of c asset) x
      → tallies_of (put_insurance e asset i c) a
        ≡ (if asset == a then plus (tallies_of c a) x else tallies_of c a)
  tallies_of-put asset i c a x h = elim (Bool-cases (asset == a)) [
    | inl hit ↦
        let same : asset ≡ a = (==_iff asset a).0 hit in
        ap tallies (insurance_of-put asset i c a)
        ∙ rw hit (h ∙ ap (λ n. plus (tallies_of c n) x) same)
    | inr miss ↦ ap tallies (insurance_of-put asset i c a) ∙ rw miss
  ]

  tallies_of-count :
      (ev : InsuranceEvent) (c : Context e) (a : ℕ)
      → tallies_of (count ev c) a ≡ plus (tallies_of c a) (amounts ev a)
  unfolding add_from_fees add_deposited add_paid
  tallies_of-count (splits p) c a =
      tallies_of-put p.asset _ c a (record { deposited = 0; from_fees = p.to_insurance; paid = 0 })
        (amounts_eq (omega arith) refl (omega arith))
      ∙ elim (Bool-cases (p.asset == a)) [ inl h ↦ rw h refl | inr h ↦ rw h (plus_zero _) ]
  tallies_of-count (deposits asset amount) c a =
      tallies_of-put asset _ c a (record { deposited = amount; from_fees = 0; paid = 0 })
        (amounts_eq refl (omega arith) (omega arith))
      ∙ elim (Bool-cases (asset == a)) [ inl h ↦ rw h refl | inr h ↦ rw h (plus_zero _) ]
  tallies_of-count (pays asset amount) c a =
      tallies_of-put asset _ c a (record { deposited = 0; from_fees = 0; paid = amount })
        (amounts_eq (omega arith) (omega arith) refl)
      ∙ elim (Bool-cases (asset == a)) [ inl h ↦ rw h refl | inr h ↦ rw h (plus_zero _) ]

  seen_of-record :
      (c : Context e) (log : Log)
      → seen_of (record_log e log c) ≡ (λ k. if key_eq (log_id log) k then true else seen_of c k)
  seen_of-record c log = fun_ext λ k. elim (Bool-cases (key_eq (log_id log) k)) [
    | inl hit ↦ ap is_some (e.get-set c.processed (log_id log) _ k) ∙ rw hit refl
    | inr miss ↦ ap is_some (e.get-set c.processed (log_id log) _ k) ∙ rw miss refl
  ]

  -- Two contexts that agree on the tallies and on the logs that were seen.
  abbrev SameTallies : Context e → Context e → Type 0
  SameTallies c d = (c.insurances ≡ d.insurances) × (c.processed ≡ d.processed)

  skipped :
      (b : Context e) (log : Log) (f : Context e → Context e)
      → seen_of b (log_id log) ≡ true
      → SameTallies (once e b log f) b
  skipped b log f h = elim (Option-cases (e.get b.processed (log_id log))) [
    | inl unseen ↦ let no_row : seen_of b (log_id log) ≡ false = ap is_some unseen in cc (no_row, h)
    | inr (p, seen) ↦
        let done = once_skips e b log f p seen in
        (ap (λ c. c.insurances) done, ap (λ c. c.processed) done)
  ]

  applied :
      (b : Context e) (log : Log) (f : Context e → Context e)
      → seen_of b (log_id log) ≡ false
      → SameTallies (once e b log f) (f (record_log e log b))
  applied b log f h = elim (Option-cases (e.get b.processed (log_id log))) [
    | inl unseen ↦
        let done = once_runs e b log f unseen in
        (ap (λ c. c.insurances) done, ap (λ c. c.processed) done)
    | inr (p, seen) ↦ let row : seen_of b (log_id log) ≡ true = ap is_some seen in cc (row, h)
  ]

  handled_again :
      (ev : InsuranceEvent) (log : Log) (c : Context e)
      → seen_of c (log_id log) ≡ true
      → SameTallies (handle_insurance ev log c) c
  unfolding handle_insurance fee_split insurance_deposited insurance_paid put_fee
  handled_again (splits p) log c h =
      skipped (record c { fees = _ }) log (add_from_fees e p.asset p.to_insurance) h
  handled_again (deposits asset amount) log c h = skipped c log (add_deposited e asset amount) h
  handled_again (pays asset amount) log c h = skipped c log (add_paid e asset amount) h

  handled_first :
      (ev : InsuranceEvent) (log : Log) (c : Context e)
      → seen_of c (log_id log) ≡ false
      → SameTallies (handle_insurance ev log c) (count ev (record_log e log c))
  unfolding handle_insurance fee_split insurance_deposited insurance_paid put_fee add_from_fees
      add_deposited add_paid put_insurance insurance_of
  handled_first (splits p) log c h =
      applied (record c { fees = _ }) log (add_from_fees e p.asset p.to_insurance) h
  handled_first (deposits asset amount) log c h = applied c log (add_deposited e asset amount) h
  handled_first (pays asset amount) log c h = applied c log (add_paid e asset amount) h

  plus_assoc : (x y z : Amounts) → plus (plus x y) z ≡ plus x (plus y z)
  plus_assoc x y z = amounts_eq (omega arith) (omega arith) (omega arith)

  same_tallies : (c d : Context e) → SameTallies c d → (a : ℕ) → tallies_of c a ≡ tallies_of d a
  unfolding insurance_of
  same_tallies c d (rows, logs) a = ap (λ t. tallies (or_fresh a (e.get t (single a)))) rows

  same_seen : (c d : Context e) → SameTallies c d → seen_of c ≡ seen_of d
  same_seen c d (rows, logs) = ap (λ t k. is_some (e.get t k)) logs

  count-seen : (ev : InsuranceEvent) (c : Context e) → seen_of (count ev c) ≡ seen_of c
  unfolding add_from_fees add_deposited add_paid put_insurance
  count-seen (splits p) c = refl
  count-seen (deposits asset amount) c = refl
  count-seen (pays asset amount) c = refl

  count-tallies :
      (ev : InsuranceEvent) (log : Log) (c : Context e) (a : ℕ)
      → tallies_of (count ev (record_log e log c)) a ≡ plus (tallies_of c a) (amounts ev a)
  unfolding insurance_of
  count-tallies ev log c a = tallies_of-count ev (record_log e log c) a

  -- After any sequence of insurance events, whose logs may be delivered again and again and were perhaps
  -- delivered before, the tallies of an asset have grown by the sum of its amounts over the logs that
  -- were new when they came, each counted once.
  pub tallies_of-deliver :
      (evs : List (InsuranceEvent × Log)) (c : Context e) (a : ℕ)
      → tallies_of (deliver evs c) a ≡ plus (tallies_of c a) (tally (seen_of c) evs a)
  unfolding deliver tally
  tallies_of-deliver [] c a = plus_zero (tallies_of c a)
  tallies_of-deliver ((ev, log) ∷ rest) c a = elim (Bool-cases (seen_of c (log_id log))) [
    | inl seen ↦
        let d = handle_insurance ev log c in
        let same = handled_again ev log c seen in
        tallies_of-deliver rest d a
        ∙ ap₂ (λ x s. plus x (tally s rest a)) (same_tallies d c same a) (same_seen d c same)
        ∙ rw (seen, tally) refl
    | inr unseen ↦
        let d = handle_insurance ev log c in
        let d' = count ev (record_log e log c) in
        let same = handled_first ev log c unseen in
        let amts = same_tallies d d' same a ∙ count-tallies ev log c a in
        let logs =
          same_seen d d' same ∙ count-seen ev (record_log e log c) ∙ seen_of-record c log in
        tallies_of-deliver rest d a
        ∙ ap₂ (λ x s. plus x (tally s rest a)) amts logs
        ∙ plus_assoc (tallies_of c a) (amounts ev a) _
        ∙ rw (unseen, tally) refl
  ]
