-- ===== src/Keepers/Liquidation.antt =====
-- keepers/src/liquidationBot.ts: a pass over the accounts with positions. Ids are numbers, the log lines are
-- left out, and a transaction is a step of the chain that may fail. The slippage is at most 10,000 bps.
pub mod Proofs
pub mod Tests
use Prim.Native.String.{String}
use optara.Common.{
  ℕ, zero, suc, ◌+◌, ◌-◌, ◌*◌, ◌/◌, ◌^◌, Bool, true, false, Option, none, some, List, [], ◌∷◌, ◌++◌,
  ltb, ◌==◌, if◌then◌else◌,
}
use optara.Common.Int.{ℤ, pos, negsuc, pos_part, neg_part, ltb_ℤ, leb_ℤ}

-- The transactions; the oracle data of an account is a number, and 0 is the empty update.
pub data Call : Type 0 where
  start_auction : (account_id underlying update : ℕ) → Call
  update_oracles : (update : ℕ) → Call
  liquidate_slice : (account_id underlying liquidator slice_bps min_cash max_pay update : ℕ) → Call
  end_auction : (account_id underlying update : ℕ) → Call

pub data SendResult : Type 0 where
  ok : SendResult
  -- Whether the error names NotLiquidatable, and its text.
  failed : Bool → String → SendResult

pub record Risk : Type 0 where
  pub equity : ℤ
  pub maintenance_margin : ℕ

pub record Preview : Type 0 where
  pub discount : ℕ
  pub cash_to_liquidator : ℤ

pub data PreviewResult : Type 0 where
  previewed : Preview → PreviewResult
  reverted : String → PreviewResult

pub record Chain : Type 1 where
  pub World : Type 0
  pub risk_of : World → ℕ → Risk
  pub buckets_of : World → ℕ → List ℕ
  pub auction_start : World → (account_id underlying : ℕ) → ℕ
  pub whole_bucket : World → (account_id underlying : ℕ) → Bool
  pub max_slice_bps : ℕ
  pub update_for : World → ℕ → ℕ
  pub preview_slice : World → (account_id underlying slice_bps : ℕ) → PreviewResult
  pub decimals : ℕ → ℕ
  pub send : World → Call → World × SendResult

pub record BotOptions : Type 0 where
  pub liquidator_account_id : ℕ
  pub min_profit_native : ℕ
  pub slice_bps : Option ℕ
  pub slippage_bps : ℕ

pub data Skip : Type 0 where
  start_failed slice_failed preview_failed : ℕ → String → Skip
  below_minimum : (account_id gain : ℕ) → Skip

pub record Slice : Type 0 where
  pub account_id : ℕ
  pub underlying : ℕ
  pub slice_bps : ℕ
  pub discount : ℕ

pub record BotReport : Type 0 where
  pub started : List (ℕ × ℕ)
  pub slices : List Slice
  pub ended : List (ℕ × ℕ)
  pub skipped : List Skip

-- `discount / 10n ** BigInt(18 - decimals)`.
abbrev pub gain_of : ℕ → ℕ → ℕ
gain_of decimals discount = discount / 10 ^ (18 - decimals)

-- `cash > 0n ? (cash * (10_000n - slip)) / 10_000n : 0n`.
unfoldable pub min_cash : ℤ → ℕ → ℕ
min_cash (pos c) slip = c * (10000 - slip) / 10000
min_cash (negsuc c) slip = 0

-- `cash < 0n ? (-cash * (10_000n + slip)) / 10_000n : 0n`.
unfoldable pub max_pay : ℤ → ℕ → ℕ
max_pay (pos c) slip = 0
max_pay (negsuc c) slip = suc c * (10000 + slip) / 10000

module _ (n : Chain) (o : BotOptions) where
  pub record Bot : Type 0 where
    pub world : n.World
    pub report : BotReport

  abbrev pub skip : Skip → Bot → Bot
  skip why b = record b { report = record b.report { skipped = b.report.skipped ++ why ∷ [] } }

  abbrev pub ended_at : (account_id underlying : ℕ) → Bot → Bot
  ended_at account_id underlying b = record b {
    report = record b.report { ended = b.report.ended ++ (account_id, underlying) ∷ [] };
  }

  -- `this.o.sliceBps ?? (wholeBucket ? 10_000 : params.maxSliceBps)`.
  abbrev pub slice_or : Option ℕ → Bool → ℕ
  slice_or (some s) whole = s
  slice_or none true = 10000
  slice_or none false = n.max_slice_bps

  -- After a failed slice: at the target the auction is ended.
  unfoldable pub after_failure : (account_id underlying : ℕ) → Bool → String → Bot → Bot
  after_failure account_id underlying false err b = skip (slice_failed account_id err) b
  after_failure account_id underlying true err b =
      let (w, r) = n.send b.world (end_auction account_id underlying 0) in
      elim r [
        | ok ↦ ended_at account_id underlying (record b { world = w })
        | failed _ _ ↦ record b { world = w }
      ]

  -- What one turn of the loop leaves, and whether the loop goes on.
  unfoldable pub take_slice : (account_id underlying slice : ℕ) → Preview → Bot → Bool × Bot
  unfolding after_failure min_cash max_pay
  take_slice account_id underlying slice p b =
      let cash = p.cash_to_liquidator in
      let (w, r) = n.send b.world (
        liquidate_slice account_id underlying o.liquidator_account_id slice
          (min_cash cash o.slippage_bps) (max_pay cash o.slippage_bps) 0) in
      elim r [
        | failed not_liquidatable err ↦ (
          false,
          after_failure account_id underlying not_liquidatable err (record b { world = w }),
        )
        | ok ↦
            let row : Slice = record {
              account_id = account_id;
              underlying = underlying;
              slice_bps = slice;
              discount = p.discount;
            } in
            let taken : Bot = record {
              world = w;
              report = record b.report { slices = b.report.slices ++ row ∷ [] };
            } in
            if n.auction_start w account_id underlying == 0
            then (false, ended_at account_id underlying taken)
            else (true, taken)
      ]

  unfoldable pub try_slice : (account_id underlying slice : ℕ) → PreviewResult → Bot → Bool × Bot
  unfolding take_slice
  try_slice account_id underlying slice (reverted err) b =
      (false, skip (preview_failed account_id err) b)
  try_slice account_id underlying slice (previewed p) b =
      let gain = gain_of (n.decimals account_id) p.discount in
      if ltb gain o.min_profit_native
      then (false, skip (below_minimum account_id gain) b)
      else take_slice account_id underlying slice p b

  unfoldable pub slice_turn : (account_id underlying : ℕ) → Bot → Bool × Bot
  unfolding try_slice
  slice_turn account_id underlying b =
      let slice = slice_or o.slice_bps (n.whole_bucket b.world account_id underlying) in
      let w = (n.send b.world (update_oracles (n.update_for b.world account_id))).0 in
      if n.auction_start b.world account_id underlying == 0
      then (false, b)
      else try_slice account_id underlying slice (n.preview_slice w account_id underlying slice)
          (record b { world = w })

  -- `for (let i = 0; i < 40; i++)`, from the number of turns left.
  unfoldable pub slices_of : ℕ → (account_id underlying : ℕ) → Bot → Bot
  unfolding slice_turn
  slices_of zero account_id underlying b = b
  slices_of (suc turns) account_id underlying b =
      let (again, b') = slice_turn account_id underlying b in
      elim again [ false ↦ b' | true ↦ slices_of turns account_id underlying b' ]

  -- A bucket without an auction gets one where the account is below its maintenance margin; `false` where
  -- the pass goes on with the next bucket.
  unfoldable pub start_if_due : Risk → (account_id underlying : ℕ) → Bot → Bool × Bot
  start_if_due risk account_id underlying b =
      let (w, r) =
        n.send b.world (start_auction account_id underlying (n.update_for b.world account_id)) in
      if n.auction_start b.world account_id underlying == 0
      then if leb_ℤ (pos risk.maintenance_margin) risk.equity then (false, b) else elim r [
        | failed _ err ↦ (false, skip (start_failed account_id err) (record b { world = w }))
        | ok ↦ (
          true,
          record {
            world = w;
            report = record b.report {
              started = b.report.started ++ (account_id, underlying) ∷ [];
            };
          },
        )
      ]
      else (true, b)

  unfoldable pub tick_bucket : Risk → (account_id underlying : ℕ) → Bot → Bot
  unfolding start_if_due slices_of
  tick_bucket risk account_id underlying b =
      let (go, b') = start_if_due risk account_id underlying b in
      elim go [ false ↦ b' | true ↦ slices_of 40 account_id underlying b' ]

  unfoldable pub tick_buckets : Risk → ℕ → List ℕ → Bot → Bot
  unfolding tick_bucket
  tick_buckets risk account_id [] b = b
  tick_buckets risk account_id (u ∷ us) b =
      tick_buckets risk account_id us (tick_bucket risk account_id u b)

  -- The risk and the buckets of an account are read when its turn comes; the bot's own account is passed by.
  unfoldable pub tick_accounts : List ℕ → Bot → Bot
  unfolding tick_buckets
  tick_accounts [] b = b
  tick_accounts (a ∷ accounts) b = tick_accounts accounts (
      if a == o.liquidator_account_id
      then b
      else tick_buckets (n.risk_of b.world a) a (n.buckets_of b.world a) b)

  unfoldable pub tick : List ℕ → n.World → Bot
  unfolding tick_accounts
  tick accounts w = tick_accounts accounts (record {
    world = w;
    report = record { started = []; slices = []; ended = []; skipped = [] };
  })
