-- ===== src/Frontend/Availability.antt =====
-- frontend/src/lib/optara/availability.ts: which actions of a series' page are enabled. A reason is a
-- constructor of its own for each message of the source.
use optara.Common.{
  ℕ, ◌≡◌, ◌≢◌, refl, ap, Bool, true, false, not, Option, none, some, ◌==◌, if◌then◌else◌,
}
use optara.Common.Int.{ℤ, pos, leb_ℤ}

pub data GroupState : Type 0 where
  active expired oracle_stalled finalized all_settled redeemable : GroupState

pub data HealthState : Type 0 where
  healthy close_only liquidatable insolvent : HealthState

pub data ActionKey : Type 0 where
  buy sell write wrap unwrap close redeem claim : ActionKey

pub record ActionContext : Type 0 where
  pub connected : Bool
  pub group_state : GroupState
  pub product_close_only : Bool
  pub data_fresh : Bool
  pub market_tradable : Bool
  pub has_account : Bool
  pub health : Option HealthState
  pub account_balance : ℤ
  pub wallet_wrappers : ℕ
  pub credit : Bool

pub data Reason : Type 0 where
  connect_wallet option_expired no_order_book no_tokens market_close_only : Reason
  positions_paused create_and_deposit below_margin no_long try_again needs_margin : Reason
  create_account being_settled no_short no_matching_tokens : Reason
  payouts_after_expiry payouts_after_settlement payouts_not_open nothing_to_claim : Reason

-- `no(reason)` for each failed check, in order; the action is enabled where none fails.
pub data Availability : Type 0 where
  enabled : Availability
  no : Reason → Availability

abbrev pub is_active : GroupState → Bool
is_active active = true
is_active _ = false

abbrev pub is_redeemable : GroupState → Bool
is_redeemable redeemable = true
is_redeemable _ = false

-- `["ACTIVE", "EXPIRED", "ORACLE_STALLED"].includes(groupState)`.
abbrev pub before_settlement : GroupState → Bool
before_settlement active = true
before_settlement expired = true
before_settlement oracle_stalled = true
before_settlement _ = false

-- `c.health && NEW_RISK_STATES.includes(c.health)`.
abbrev pub is_new_risk : Option HealthState → Bool
is_new_risk (some healthy) = true
is_new_risk _ = false

-- `if (failed) return no(reason); ...`.
abbrev pub check : Bool → Reason → Availability → Availability
check true reason next = no reason
check false reason next = next

unfoldable pub action_of : ActionKey → ActionContext → Availability
action_of buy c =
    check (not (is_active c.group_state)) option_expired
      (check (not c.market_tradable) no_order_book enabled)
action_of sell c =
    check (not (is_active c.group_state)) option_expired (
      check (not c.market_tradable) no_order_book
        (check (c.wallet_wrappers == 0) no_tokens enabled))
action_of write c = check (not (is_active c.group_state)) option_expired (
    check c.product_close_only market_close_only (
      check (not c.data_fresh) positions_paused (
        check (not c.has_account) create_and_deposit
          (check (not (is_new_risk c.health)) below_margin enabled))))
action_of wrap c = check (not (is_active c.group_state)) option_expired (
    check (leb_ℤ c.account_balance (pos 0)) no_long (
      check c.product_close_only market_close_only (
        check (not c.data_fresh) try_again
          (check (not (is_new_risk c.health)) needs_margin enabled))))
action_of unwrap c =
    check (not (is_active c.group_state)) option_expired
      (check (not c.has_account) create_account (check (c.wallet_wrappers == 0) no_tokens enabled))
action_of close c = check (not (before_settlement c.group_state)) being_settled (
    check (leb_ℤ (pos 0) c.account_balance) no_short
      (check (c.wallet_wrappers == 0) no_matching_tokens enabled))
action_of redeem c =
    check (not (is_redeemable c.group_state))
      (if is_active c.group_state then payouts_after_expiry else payouts_after_settlement)
      (check (c.wallet_wrappers == 0) no_tokens enabled)
action_of claim c =
    check (not (is_redeemable c.group_state)) payouts_not_open
      (check (not c.credit) nothing_to_claim enabled)

unfoldable pub availability : ActionKey → ActionContext → Availability
unfolding action_of
availability action c = check (not c.connected) connect_wallet (action_of action c)

-- The actions that add risk, and those that trade or move options before expiry.
abbrev pub adds_risk : ActionKey → Bool
adds_risk write = true
adds_risk wrap = true
adds_risk _ = false

abbrev pub pays_out : ActionKey → Bool
pays_out redeem = true
pays_out claim = true
pays_out _ = false

passes :
    (b : Bool) (r : Reason) (next : Availability)
    → check b r next ≡ enabled
    → (b ≡ false) × (next ≡ enabled)
passes true r next h = cc h
passes false r next h = (refl, h)

holds : (b : Bool) → not b ≡ false → b ≡ true
holds true h = refl
holds false h = cc h

active_of : (g : GroupState) → not (is_active g) ≡ false → g ≡ active
active_of active h = refl
active_of expired h = cc h
active_of oracle_stalled h = cc h
active_of finalized h = cc h
active_of all_settled h = cc h
active_of redeemable h = cc h

redeemable_of : (g : GroupState) → not (is_redeemable g) ≡ false → g ≡ redeemable
redeemable_of active h = cc h
redeemable_of expired h = cc h
redeemable_of oracle_stalled h = cc h
redeemable_of finalized h = cc h
redeemable_of all_settled h = cc h
redeemable_of redeemable h = refl

healthy_of : (o : Option HealthState) → not (is_new_risk o) ≡ false → o ≡ some healthy
healthy_of none h = cc h
healthy_of (some healthy) h = refl
healthy_of (some close_only) h = cc h
healthy_of (some liquidatable) h = cc h
healthy_of (some insolvent) h = cc h

-- Writing or wrapping is enabled only with a wallet, before expiry, in a market that is not close-only,
-- with fresh prices, and for an account that meets its margin requirement.
pub availability-adds_risk :
    (action : ActionKey) (c : ActionContext)
    → adds_risk action ≡ true
    → availability action c ≡ enabled
    → (c.connected ≡ true)
      × (c.group_state ≡ active)
      × (c.product_close_only ≡ false)
      × (c.data_fresh ≡ true)
      × (c.health ≡ some healthy)
unfolding availability action_of
availability-adds_risk write c risky h =
    let (wallet, h₁) = passes _ _ _ h in
    let (before, h₂) = passes _ _ _ h₁ in
    let (trading, h₃) = passes _ _ _ h₂ in
    let (fresh, h₄) = passes _ _ _ h₃ in
    let (account, h₅) = passes _ _ _ h₄ in
    let (margin, done) = passes _ _ _ h₅ in
    (holds _ wallet, active_of _ before, trading, holds _ fresh, healthy_of _ margin)
availability-adds_risk wrap c risky h =
    let (wallet, h₁) = passes _ _ _ h in
    let (before, h₂) = passes _ _ _ h₁ in
    let (long, h₃) = passes _ _ _ h₂ in
    let (trading, h₄) = passes _ _ _ h₃ in
    let (fresh, h₅) = passes _ _ _ h₄ in
    let (margin, done) = passes _ _ _ h₅ in
    (holds _ wallet, active_of _ before, trading, holds _ fresh, healthy_of _ margin)
availability-adds_risk _ c risky h = cc risky

payout_state :
    (action : ActionKey) (c : ActionContext)
    → pays_out action ≡ true
    → availability action c ≡ enabled
    → c.group_state ≡ redeemable
unfolding availability action_of
payout_state redeem c pays h = redeemable_of _ (passes _ _ _ (passes _ _ _ h).1).0
payout_state claim c pays h = redeemable_of _ (passes _ _ _ (passes _ _ _ h).1).0
payout_state _ c pays h = cc pays

before_payout :
    (action : ActionKey) (c : ActionContext)
    → pays_out action ≡ false
    → availability action c ≡ enabled
    → before_settlement c.group_state ≡ true
unfolding availability action_of
before_payout close c trades h = holds _ (passes _ _ _ (passes _ _ _ h).1).0
before_payout redeem c trades h = cc trades
before_payout claim c trades h = cc trades
before_payout buy c trades h =
    ap before_settlement (active_of _ (passes _ _ _ (passes _ _ _ h).1).0)
before_payout sell c trades h =
    ap before_settlement (active_of _ (passes _ _ _ (passes _ _ _ h).1).0)
before_payout write c trades h =
    ap before_settlement (active_of _ (passes _ _ _ (passes _ _ _ h).1).0)
before_payout wrap c trades h =
    ap before_settlement (active_of _ (passes _ _ _ (passes _ _ _ h).1).0)
before_payout unwrap c trades h =
    ap before_settlement (active_of _ (passes _ _ _ (passes _ _ _ h).1).0)

-- While a payout is enabled, no action that trades, writes, wraps or closes is.
pub availability_exclusive :
    (payout action : ActionKey) (c : ActionContext)
    → pays_out payout ≡ true
    → availability payout c ≡ enabled
    → pays_out action ≡ false
    → availability action c ≢ enabled
availability_exclusive payout action c pays h trades k =
    let state = payout_state payout c pays h in
    let early = before_payout action c trades k in
    let late : before_settlement c.group_state ≡ false = ap before_settlement state in
    cc (early, late)
