-- ===== src/Keepers/Liquidation/Proofs.antt =====
-- Every slice that a pass takes pays, on an account that is not the bot's own.
use Prim.Native.String.{String}
use optara.Common.{
  All-append, ℕ, zero, suc, ◌≤◌, ◌≡◌, ◌≢◌, Bool, true, false, List, [], ◌∷◌, ◌++◌, All, ltb, ◌==◌,
  ==_iff, if◌then◌else◌, arith, Bool-cases, inl, inr,
}
use optara.Common.Int.{pos, leb_ℤ}
use optara.Keepers.Liquidation.{
  Chain, BotOptions, liquidate_slice, end_auction, start_auction, ok, failed, Risk, Preview,
  PreviewResult, previewed, reverted, start_failed, Slice, gain_of, min_cash, max_pay, Bot, skip,
  ended_at, after_failure, take_slice, try_slice, slice_turn, slices_of, start_if_due, tick_bucket,
  tick_buckets, tick_accounts, tick,
}

at_least : (a b : ℕ) → ltb a b ≡ false → b ≤ a
at_least a b h = ground arith

module _ (n : Chain) (o : BotOptions) where
  -- A slice of another's account whose gain is at least the minimum.
  abbrev pub Pays : Slice → Type 0
  Pays s =
      (s.account_id ≢ o.liquidator_account_id)
      × (o.min_profit_native ≤ gain_of (n.decimals s.account_id) s.discount)

  abbrev pub IsPaid : Bot n o → Type 0
  IsPaid b = All Pays b.report.slices

  after_failure-IsPaid :
      (a u : ℕ) (nl : Bool) (err : String) (b : Bot n o)
      → IsPaid b
      → IsPaid (after_failure n o a u nl err b)
  unfolding after_failure
  after_failure-IsPaid a u false err b h = h
  after_failure-IsPaid a u true err b h =
      let w = (n.send b.world (end_auction a u 0)).0 in
      elim (n.send b.world (end_auction a u 0)).1
        as (λ r. IsPaid (elim r as (λ _. Bot n o) [
          | ok ↦ ended_at n o a u (record b { world = w })
          | failed _ _ ↦ record b { world = w }
        ])) [ ok ↦ h | failed _ _ ↦ h ]

  module _ (a u : ℕ) (own : a ≢ o.liquidator_account_id) where
    take_slice-IsPaid :
        (slice : ℕ) (p : Preview) (b : Bot n o)
        → o.min_profit_native ≤ gain_of (n.decimals a) p.discount
        → IsPaid b
        → IsPaid (take_slice n o a u slice p b).1
    unfolding take_slice
    take_slice-IsPaid slice p b gains h =
        let cash = p.cash_to_liquidator in
        let call =
          liquidate_slice a u o.liquidator_account_id slice (min_cash cash o.slippage_bps)
            (max_pay cash o.slippage_bps) 0 in
        let w = (n.send b.world call).0 in
        let row : Slice = record {
          account_id = a;
          underlying = u;
          slice_bps = slice;
          discount = p.discount;
        } in
        let taken : Bot n o = record {
          world = w;
          report = record b.report { slices = b.report.slices ++ row ∷ [] };
        } in
        let paid : IsPaid taken = All-append Pays b.report.slices (row ∷ []) h ((own, gains), tt) in
        elim (n.send b.world call).1
          as (λ r.
            IsPaid
              (elim r as (λ _. Bool × Bot n o) [
                | failed nl err ↦ (false, after_failure n o a u nl err (record b { world = w }))
                | ok ↦
                    if n.auction_start w a u == 0
                    then (false, ended_at n o a u taken)
                    else (true, taken)
              ]).1) [
                | failed nl err ↦ after_failure-IsPaid a u nl err (record b { world = w }) h
                | ok ↦ elim (Bool-cases (n.auction_start w a u == 0)) [
                  | inl over ↦ rw over paid
                  | inr running ↦ rw running paid
                ]
              ]

    try_slice-IsPaid :
        (slice : ℕ) (r : PreviewResult) (b : Bot n o)
        → IsPaid b
        → IsPaid (try_slice n o a u slice r b).1
    unfolding try_slice
    try_slice-IsPaid slice (reverted err) b h = h
    try_slice-IsPaid slice (previewed p) b h =
        let gain = gain_of (n.decimals a) p.discount in
        elim (Bool-cases (ltb gain o.min_profit_native)) [
          | inl low ↦ rw low h
          | inr enough ↦
              rw enough (take_slice-IsPaid slice p b (at_least gain o.min_profit_native enough) h)
        ]

    slice_turn-IsPaid : (b : Bot n o) → IsPaid b → IsPaid (slice_turn n o a u b).1
    unfolding slice_turn
    slice_turn-IsPaid b h = elim (Bool-cases (n.auction_start b.world a u == 0)) [
      | inl over ↦ rw over h
      | inr running ↦ rw running (try_slice-IsPaid _ _ _ h)
    ]

    slices_of-IsPaid : (turns : ℕ) (b : Bot n o) → IsPaid b → IsPaid (slices_of n o turns a u b)
    unfolding slices_of
    slices_of-IsPaid zero b h = h
    slices_of-IsPaid (suc turns) b h =
        let b' = (slice_turn n o a u b).1 in
        let h' = slice_turn-IsPaid b h in
        elim (slice_turn n o a u b).0
          as (λ again.
            IsPaid
              (elim again as (λ _. Bot n o) [ false ↦ b' | true ↦ slices_of n o turns a u b' ])) [
                | false ↦ h'
                | true ↦ slices_of-IsPaid turns b' h'
              ]

    start_if_due-IsPaid :
        (risk : Risk) (b : Bot n o) → IsPaid b → IsPaid (start_if_due n o risk a u b).1
    unfolding start_if_due
    start_if_due-IsPaid risk b h = elim (Bool-cases (n.auction_start b.world a u == 0)) [
      | inr running ↦ rw running h
      | inl idle ↦ elim (Bool-cases (leb_ℤ (pos risk.maintenance_margin) risk.equity)) [
        | inl sound ↦ rw (idle, sound) h
        | inr below ↦
            let call = start_auction a u (n.update_for b.world a) in
            let w = (n.send b.world call).0 in
            rw (idle, below)
              (elim (n.send b.world call).1
                as (λ r.
                  IsPaid
                    (elim r as (λ _. Bool × Bot n o) [
                      | failed _ err ↦
                          (false, skip n o (start_failed a err) (record b { world = w }))
                      | ok ↦ (
                        true,
                        record {
                          world = w;
                          report = record b.report { started = b.report.started ++ (a, u) ∷ [] };
                        },
                      )
                    ]).1) [ failed _ err ↦ h | ok ↦ h ])
      ]
    ]

    tick_bucket-IsPaid :
        (risk : Risk) (b : Bot n o) → IsPaid b → IsPaid (tick_bucket n o risk a u b)
    unfolding tick_bucket
    tick_bucket-IsPaid risk b h =
        let b' = (start_if_due n o risk a u b).1 in
        let h' = start_if_due-IsPaid risk b h in
        elim (start_if_due n o risk a u b).0
          as (λ go.
            IsPaid (elim go as (λ _. Bot n o) [ false ↦ b' | true ↦ slices_of n o 40 a u b' ])) [
              | false ↦ h'
              | true ↦ slices_of-IsPaid 40 b' h'
            ]

  tick_buckets-IsPaid :
      (risk : Risk) (a : ℕ) (us : List ℕ) (b : Bot n o)
      → a ≢ o.liquidator_account_id
      → IsPaid b
      → IsPaid (tick_buckets n o risk a us b)
  unfolding tick_buckets
  tick_buckets-IsPaid risk a [] b own h = h
  tick_buckets-IsPaid risk a (u ∷ us) b own h =
      tick_buckets-IsPaid risk a us (tick_bucket n o risk a u b) own
        (tick_bucket-IsPaid a u own risk b h)

  tick_accounts-IsPaid :
      (accounts : List ℕ) (b : Bot n o) → IsPaid b → IsPaid (tick_accounts n o accounts b)
  unfolding tick_accounts
  tick_accounts-IsPaid [] b h = h
  tick_accounts-IsPaid (a ∷ accounts) b h =
      tick_accounts-IsPaid accounts _ (elim (Bool-cases (a == o.liquidator_account_id)) [
        | inl self ↦ rw self h
        | inr other ↦
            let own : a ≢ o.liquidator_account_id =
              λ e. cc (other, (==_iff a o.liquidator_account_id).1 e) in
            rw other (tick_buckets-IsPaid (n.risk_of b.world a) a (n.buckets_of b.world a) b own h)
      ])

  -- Every slice that a pass reports as taken is of an account that is not the bot's own, and its discount is
  -- worth at least the minimum profit in the native units of the account's settlement asset.
  pub tick-IsPaid : (accounts : List ℕ) (w : n.World) → All Pays (tick n o accounts w).report.slices
  unfolding tick
  tick-IsPaid accounts w = tick_accounts-IsPaid accounts _ tt
