-- ===== src/Frontend/Depth/Tests.antt =====
-- Fills of a book of two levels.
use optara.Common.{◌≤◌, ◌<◌, ◌≡◌, ◌↔◌, refl, true, false, List, [], ◌∷◌, ◌*◌}
use optara.Frontend.Depth.{wad, AskLevel, fill_from_asks}
use optara.Frontend.Depth.Book.{for_sale, book_cost}
use optara.Frontend.Depth.Book.{for_sale, book_cost}
use optara.Frontend.Depth.Proofs.{fill_from_asks_bounds, fill_from_asks-exhausted}

-- 2 options at 3, then 5 options at 4.
abbrev asks : List AskLevel
asks = record { price = 3 * wad; size = 2 * wad } ∷ record { price = 4 * wad; size = 5 * wad } ∷ []

-- A budget of 10 buys the first level and one option of the second.
fill_of_ten : fill_from_asks asks (10 * wad) ≡ record {
  qty = 3 * wad;
  cost = 10 * wad;
  levels = 2;
  exhausted = false;
  depth_qty = 7 * wad;
  depth_cost = 26 * wad;
}
unfolding fill_from_asks
fill_of_ten = refl

fill_from_asks_bounds_example :
    ((fill_from_asks asks (10 * wad)).cost ≤ 10 * wad)
    × ((fill_from_asks asks (10 * wad)).qty ≤ for_sale asks)
    × ((fill_from_asks asks (10 * wad)).cost ≤ book_cost asks)
    × ((fill_from_asks asks (10 * wad)).depth_qty ≡ for_sale asks)
    × ((fill_from_asks asks (10 * wad)).depth_cost ≡ book_cost asks)
fill_from_asks_bounds_example = fill_from_asks_bounds asks (10 * wad)

fill_from_asks-exhausted_example :
    (((fill_from_asks asks (30 * wad)).exhausted ≡ true)
      ↔ ((0 < for_sale asks) × (book_cost asks < 30 * wad)))
    × (((fill_from_asks asks (30 * wad)).exhausted ≡ true)
        → ((fill_from_asks asks (30 * wad)).qty ≡ for_sale asks)
          × ((fill_from_asks asks (30 * wad)).cost ≡ book_cost asks))
fill_from_asks-exhausted_example = fill_from_asks-exhausted asks (30 * wad)
