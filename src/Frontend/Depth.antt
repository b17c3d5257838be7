-- ===== src/Frontend/Depth.antt =====
-- frontend/src/lib/optara/depth.ts: what a market buy fills of the resting asks. Prices, sizes and the
-- budget are amounts in WAD, which are not negative.
pub mod Book
pub mod Proofs
pub mod Tests
use optara.Common.{
  ℕ, ◌+◌, ◌-◌, ◌*◌, ◌/◌, Bool, ◌&&◌, ◌||◌, List, [], ◌∷◌, ltb, leb, ◌==◌, if◌then◌else◌,
}

abbrev pub wad : ℕ
wad = 1000000000000000000

pub record AskLevel : Type 0 where
  pub price : ℕ
  pub size : ℕ

pub record AskFill : Type 0 where
  pub qty : ℕ
  pub cost : ℕ
  pub levels : ℕ
  pub exhausted : Bool
  pub depth_qty : ℕ
  pub depth_cost : ℕ

-- The variables of the loop.
pub record Walk : Type 0 where
  pub left : ℕ
  pub qty : ℕ
  pub cost : ℕ
  pub levels : ℕ
  pub depth_qty : ℕ
  pub depth_cost : ℕ

abbrev pub level_cost : AskLevel → ℕ
level_cost l = l.size * l.price / wad

unfoldable pub count_depth : AskLevel → Walk → Walk
count_depth l w = record w {
  depth_qty = w.depth_qty + l.size;
  depth_cost = w.depth_cost + level_cost l;
}

-- The whole level is bought.
unfoldable pub take_level : AskLevel → Walk → Walk
take_level l w = record w {
  left = w.left - level_cost l;
  qty = w.qty + l.size;
  cost = w.cost + level_cost l;
  levels = w.levels + 1;
}

-- The rest of the budget is spent on a part of the level.
unfoldable pub take_part : AskLevel → Walk → Walk
take_part l w =
    let part = w.left * wad / l.price in
    record w {
      left = 0;
      qty = w.qty + part;
      cost = w.cost + part * l.price / wad;
      levels = w.levels + 1;
    }

unfoldable pub walk_level : AskLevel → Walk → Walk
unfolding count_depth take_level take_part
walk_level l w =
    let counted = count_depth l w in
    if (l.price == 0) || (l.size == 0)
    then w
    else if w.left == 0
    then counted
    else if leb (level_cost l) w.left
    then take_level l counted
    else take_part l counted

unfoldable pub walk : List AskLevel → Walk → Walk
unfolding walk_level
walk [] w = w
walk (l ∷ asks) w = walk asks (walk_level l w)

abbrev pub start : ℕ → Walk
start budget = record {
  left = budget;
  qty = 0;
  cost = 0;
  levels = 0;
  depth_qty = 0;
  depth_cost = 0;
}

unfoldable pub fill_of : ℕ → Walk → AskFill
fill_of budget w = record {
  qty = w.qty;
  cost = w.cost;
  levels = w.levels;
  exhausted = ltb 0 w.depth_qty && (w.qty == w.depth_qty) && ltb w.depth_cost budget;
  depth_qty = w.depth_qty;
  depth_cost = w.depth_cost;
}

unfoldable pub fill_from_asks : List AskLevel → ℕ → AskFill
unfolding walk fill_of
fill_from_asks asks budget = fill_of budget (walk asks (start budget))
