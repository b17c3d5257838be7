-- ===== src/Keepers/Feeds/Tests.antt =====
-- The price of a feed, 3000 over 1.5 at eight decimals, and a pass that pushes it.
use optara.Common.{
  ℕ, ◌-◌, ◌*◌, ◌^◌, ◌+◌, ◌≤◌, ◌<◌, ◌≡◌, refl, true, Option, none, some, [], ◌∷◌, arith,
}
use optara.Common.Int.{pos, negsuc, ◌+ℤ◌, ◌-ℤ◌}
use optara.Keepers.Feeds.{Px, ratio, Chain, tick, scale_to, ratio_floor}

price :
    ratio
      (some (record { price = pos 3000; expo = pos 0 }))
      (some (record { price = pos 15; expo = negsuc 0 }))
      8
    ≡ some (pos 200000000000)
unfolding ratio ◌+ℤ◌ ◌-ℤ◌
price = refl

abbrev two_feeds : Chain
two_feeds = record {
  World = ℕ;
  now = λ w. 100;
  updated_at = λ w feed. 90 - 60 * (feed - 1);
  decimals = λ w feed. 8;
  prices = λ f. some (some (record { price = pos 3000; expo = pos 0 }), none);
  push = λ w feed answer. (w + 1, true);
}

tick_pushes_old :
    tick two_feeds 60
      (record { feed = 1; base = 1; quote = none }
        ∷ record { feed = 2; base = 1; quote = none }
        ∷ [])
      0
    ≡ (1, 2 ∷ [])
unfolding tick ◌+ℤ◌ ◌-ℤ◌
tick_pushes_old = refl

-- Both exponents are -8.
abbrev quoted : Option Px
quoted = some (record { price = pos 700000000; expo = negsuc 7 })

scale : scale_to 8 (negsuc 7) quoted ≡ pos 8
unfolding ◌+ℤ◌ ◌-ℤ◌
scale = refl

ratio_floor_example :
    (answer : ℕ) × (ratio (some (record { price = pos 300000000000; expo = negsuc 7 })) quoted 8
      ≡ some (pos answer))
    × (answer * 700000000 ≤ 300000000000 * 10 ^ 8)
    × (300000000000 * 10 ^ 8 < answer * 700000000 + 700000000)
ratio_floor_example =
    ratio_floor 300000000000 700000000 (negsuc 7) quoted 8 8 refl (omega arith) scale
