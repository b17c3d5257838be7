-- ===== src/Frontend/Limits.antt =====
-- frontend/src/lib/optara/limits.ts: the limits that a user signs, at a slippage in basis points. Amounts
-- are not negative, and a slippage is at most 10,000.
use native.Mathlib.Nat.{mul-le-mul}
use optara.Common.{ℕ, ◌+◌, ◌-◌, ◌*◌, ◌/◌, ◌≤◌, ◌<◌, arith, ltb, if◌then◌else◌}

abbrev min_slippage_bps : ℕ
min_slippage_bps = 10

abbrev max_slippage_bps : ℕ
max_slippage_bps = 1000

-- `Math.min(MAX, Math.max(MIN, bps))`, of a whole number.
pub clamp_slippage : ℕ → ℕ
clamp_slippage bps =
    let least = if ltb bps min_slippage_bps then min_slippage_bps else bps in
    if ltb max_slippage_bps least then max_slippage_bps else least

pub with_slip : ℕ → ℕ → ℕ
with_slip x bps = x * (10000 + bps) / 10000 + 1

pub less_slip : ℕ → ℕ → ℕ
less_slip x bps = x * (10000 - bps) / 10000

abbrev pub step : ℕ
step = 10000000000000000

pub venue_min_qty : ℕ → ℕ → ℕ
unfolding less_slip
venue_min_qty x bps = less_slip x bps / step * step

clamp_slippage_bounds : (bps : ℕ) → (10 ≤ clamp_slippage bps) × (clamp_slippage bps ≤ 1000)
unfolding clamp_slippage
clamp_slippage_bounds bps = ground arith

-- A product with a factor between two numbers.
between : (x low y high : ℕ) → low ≤ y → y ≤ high → (x * low ≤ x * y) × (x * y ≤ x * high)
between x low y high h k = (
  mul-le-mul {n₁ = x} {m₁ = low} {n₂ = x} {m₂ = y} (omega arith) h,
  mul-le-mul {n₁ = x} {m₁ = y} {n₂ = x} {m₂ = high} (omega arith) k,
)

-- At a clamped slippage an upper limit is over the amount and at most a tenth and one unit over it, a
-- lower limit is not over the amount and at most a tenth and one unit under it, and the venue's minimum is
-- less than one step below the lower limit and not over it.
pub limits_bracket :
    (x bps : ℕ)
    → let s = clamp_slippage bps in
      (x < with_slip x s)
      × (with_slip x s * 10 ≤ x * 11 + 10)
      × (less_slip x s ≤ x)
      × (x * 9 ≤ less_slip x s * 10 + 10)
      × (venue_min_qty x s ≤ less_slip x s)
      × (less_slip x s < venue_min_qty x s + step)
unfolding with_slip less_slip venue_min_qty
limits_bracket x bps =
    let s = clamp_slippage bps in
    let (low, high) = clamp_slippage_bounds bps in
    let (more, most) = between x 10010 (10000 + s) 11000 (omega arith) (omega arith) in
    let (least, less) = between x 9000 (10000 - s) 9990 (omega arith) (omega arith) in
    (
      omega (arith, more),
      omega (arith, most),
      omega (arith, less),
      omega (arith, least),
      omega arith,
      omega arith,
    )
