-- ===== src/Keepers/Feeds.antt =====
-- keepers/src/feedPusher.ts: a pass that pushes a price to each feed whose latest round is old enough.
pub mod Tests
use native.Mathlib.Nat.{div-mul-le_self, lt-div-mul-add}
use optara.Common.{
  ℕ, zero, suc, ◌+◌, ◌-◌, ◌*◌, ◌/◌, ◌^◌, ◌≤◌, ◌<◌, ◌≡◌, refl, ap, ◌∙◌, Bool, true, false, Option,
  none, some, List, [], ◌∷◌, ◌++◌, All, leb, ltb, if◌then◌else◌, arith, Bool-cases, inl, inr,
  ltb→lt,
}
use optara.Common.Int.{ℤ, pos, negsuc, pos_part, neg_part, ◌+ℤ◌, ◌-ℤ◌, leb_ℤ}

-- A price times ten to a power.
pub record Px : Type 0 where
  pub price : ℤ
  pub expo : ℤ

-- Division of integers by a positive number, which cuts off the fraction; -0 is 0.
abbrev pub negated : ℕ → ℤ
negated n = pos 0 -ℤ pos n

unfoldable pub div_trunc : ℤ → ℕ → ℤ
unfolding ◌-ℤ◌
div_trunc (pos a) q = pos (a / q)
div_trunc (negsuc a) q = negated (suc a / q)

unfoldable pub times : ℤ → ℕ → ℤ
unfolding ◌-ℤ◌
times (pos a) k = pos (a * k)
times (negsuc a) k = negated (suc a * k)

abbrev pub or_one : Option Px → Px
or_one none = record { price = pos 1; expo = pos 0 }
or_one (some q) = q

-- `answer = base.price × 10^e / q.price`, of a quote with a positive price.
unfoldable pub scaled : ℤ → ℕ → ℤ → ℤ
unfolding div_trunc times
scaled base q (pos e) = div_trunc (times base (10 ^ e)) q
scaled base q (negsuc e) = div_trunc base (q * 10 ^ suc e)

unfoldable pub ratio_to : ℤ → ℤ → ℤ → Option ℤ
unfolding scaled
ratio_to base (pos zero) e = none
ratio_to base (pos (suc q)) e = some (scaled base (suc q) e)
ratio_to base (negsuc q) e = none

unfoldable pub ratio : Option Px → Option Px → ℕ → Option ℤ
unfolding ratio_to ◌+ℤ◌ ◌-ℤ◌
ratio none quote decimals = none
ratio (some base) quote decimals =
    let q = or_one quote in ratio_to base.price q.price (pos decimals +ℤ base.expo -ℤ q.expo)

pub record PushFeedSpec : Type 0 where
  pub feed : ℕ
  pub base : ℕ
  pub quote : Option ℕ

-- The chain's clock and feeds, and the prices that the source has; a feed without a round was updated at 0.
pub record Chain : Type 1 where
  pub World : Type 0
  pub now : World → ℕ
  pub updated_at : World → ℕ → ℕ
  pub decimals : World → ℕ → ℕ
  -- The fetched base and quote prices; `none` where the fetch fails.
  pub prices : PushFeedSpec → Option (Option Px × Option Px)
  pub push : World → (feed : ℕ) → ℤ → World × Bool

module _ (n : Chain) where
  unfoldable pub due_feeds : n.World → (interval now : ℕ) → List PushFeedSpec → List PushFeedSpec
  due_feeds w interval now [] = []
  due_feeds w interval now (f ∷ feeds) =
      let rest = due_feeds w interval now feeds in
      if leb interval (now - n.updated_at w f.feed) then f ∷ rest else rest

  unfoldable pub push_answer : PushFeedSpec → Option ℤ → n.World × List ℕ → n.World × List ℕ
  push_answer f none s = s
  push_answer f (some answer) (w, pushed) =
      let (w', success) = n.push w f.feed answer in
      if leb_ℤ answer (pos 0)
      then (w, pushed)
      else (w', if success then pushed ++ f.feed ∷ [] else pushed)

  unfoldable pub push_due : List PushFeedSpec → n.World × List ℕ → n.World × List ℕ
  unfolding push_answer ratio
  push_due [] s = s
  push_due (f ∷ feeds) s = elim (n.prices f) [
    | none ↦ push_due feeds s
    | some (base, quote) ↦
        push_due feeds (push_answer f (ratio base quote (n.decimals s.0 f.feed)) s)
  ]

  unfoldable pub tick : ℕ → List PushFeedSpec → n.World → n.World × List ℕ
  unfolding due_feeds push_due
  tick interval feeds w = push_due (due_feeds w interval (n.now w) feeds) (w, [])

-- The scale of a price over a quote, where no quote is a quote of one.
abbrev pub scale_to : ℕ → ℤ → Option Px → ℤ
scale_to decimals expo quote = pos decimals +ℤ expo -ℤ (or_one quote).expo

-- The answer for a price that is not negative over a quote that is positive, or over no quote, at a scale
-- that is not negative, is the exact quotient rounded down.
pub ratio_floor :
    (base q : ℕ) (expo : ℤ) (quote : Option Px) (decimals e : ℕ)
    → (or_one quote).price ≡ pos q
    → 0 < q
    → scale_to decimals expo quote ≡ pos e
    → (answer : ℕ) × (ratio (some (record { price = pos base; expo = expo })) quote decimals
        ≡ some (pos answer))
      × (answer * q ≤ base * 10 ^ e)
      × (base * 10 ^ e < answer * q + q)
unfolding ratio ratio_to scaled div_trunc times
ratio_floor base zero expo quote decimals e priced h scale = absurd (omega arith)
ratio_floor base (suc q) expo quote decimals e priced h scale = (
  base * 10 ^ e / suc q,
  ap (λ price. ratio_to (pos base) price (scale_to decimals expo quote)) priced
      ∙ ap (ratio_to (pos base) (pos (suc q))) scale,
  div-mul-le_self (base * 10 ^ e) (suc q),
  lt-div-mul-add (omega arith),
)
