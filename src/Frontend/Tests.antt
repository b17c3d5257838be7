-- ===== src/Frontend/Tests.antt =====
-- Limits and enabled actions at concrete values.
use optara.Common.{◌+◌, ◌*◌, ◌≤◌, ◌<◌, ◌≢◌, refl, true, false, some}
use optara.Common.Int.{pos}
use optara.Frontend.Limits.{
  clamp_slippage, with_slip, less_slip, venue_min_qty, step, limits_bracket,
}
use optara.Frontend.Availability.{
  GroupState, HealthState, ActionKey, ActionContext, Availability, availability,
  availability_exclusive,
}

limits_bracket_example :
    (5000 < with_slip 5000 (clamp_slippage 4000))
    × (with_slip 5000 (clamp_slippage 4000) * 10 ≤ 5000 * 11 + 10)
    × (less_slip 5000 (clamp_slippage 4000) ≤ 5000)
    × (5000 * 9 ≤ less_slip 5000 (clamp_slippage 4000) * 10 + 10)
    × (venue_min_qty 5000 (clamp_slippage 4000) ≤ less_slip 5000 (clamp_slippage 4000))
    × (less_slip 5000 (clamp_slippage 4000) < venue_min_qty 5000 (clamp_slippage 4000) + step)
limits_bracket_example = limits_bracket 5000 4000

abbrev writer : ActionContext
writer = record {
  connected = true;
  group_state = GroupState.active;
  product_close_only = false;
  data_fresh = true;
  market_tradable = true;
  has_account = true;
  health = some HealthState.healthy;
  account_balance = pos 0;
  wallet_wrappers = 3;
  credit = true;
}

abbrev after_expiry : ActionContext
after_expiry = record writer { group_state = GroupState.redeemable }

availability_exclusive_example : availability ActionKey.close after_expiry ≢ Availability.enabled
unfolding availability
availability_exclusive_example =
    availability_exclusive ActionKey.redeem ActionKey.close after_expiry refl refl refl
