-- ===== src/Frontend/Depth/Book.antt =====
-- frontend/src/lib/optara/depth.ts: what a book sells, and the depth that the walk counts.
use optara.Common.{
  ℕ, ◌+◌, ◌*◌, ◌/◌, ◌≡◌, inl, inr, refl, true, false, ◌||◌, List, [], ◌∷◌, leb, ◌==◌, if◌then◌else◌,
  ==_iff, arith, Bool-cases,
}
use optara.Frontend.Depth.{
  wad, AskLevel, Walk, level_cost, count_depth, take_level, take_part, walk_level, walk, start,
}

-- What the levels that have a price sell, and what all levels cost, each rounded down.
abbrev pub offered : AskLevel → ℕ
offered l = if l.price == 0 then 0 else l.size

abbrev pub for_sale : List AskLevel → ℕ
for_sale [] = 0
for_sale (l ∷ asks) = offered l + for_sale asks

abbrev pub book_cost : List AskLevel → ℕ
book_cost [] = 0
book_cost (l ∷ asks) = l.size * l.price / wad + book_cost asks

abbrev Counts : AskLevel → Walk → Walk → Type 0
Counts l w w' =
    (w'.depth_qty ≡ w.depth_qty + offered l)
    × (w'.depth_cost ≡ w.depth_cost + l.size * l.price / wad)

free_level : (l : AskLevel) (w : Walk) → ((l.price == 0) || (l.size == 0)) ≡ true → Counts l w w
free_level l w skipped = elim (Bool-cases (l.price == 0)) [
  | inl free ↦ rw (free, (==_iff l.price 0).0 free) (omega arith, omega arith)
  | inr priced ↦
      let empty : l.size ≡ 0 = ground arith in rw (priced, empty) (omega arith, omega arith)
]

priced_level : (l : AskLevel) → ((l.price == 0) || (l.size == 0)) ≡ false → offered l ≡ l.size
priced_level l priced = ground arith

walk_level-Counts : (l : AskLevel) (w : Walk) → Counts l w (walk_level l w)
unfolding walk_level count_depth take_level take_part
walk_level-Counts l w = elim (Bool-cases ((l.price == 0) || (l.size == 0))) [
  | inl skipped ↦ rw skipped (free_level l w skipped)
  | inr priced ↦
      rw (priced, priced_level l priced)
        (elim (Bool-cases (w.left == 0)) [
          | inl gone ↦ rw gone (refl, refl)
          | inr some_left ↦ elim (Bool-cases (leb (level_cost l) w.left)) [
            | inl whole ↦ rw (some_left, whole) (refl, refl)
            | inr part ↦ rw (some_left, part) (refl, refl)
          ]
        ])
]

walk-counts :
    (asks : List AskLevel) (w : Walk)
    → ((walk asks w).depth_qty ≡ w.depth_qty + for_sale asks)
      × ((walk asks w).depth_cost ≡ w.depth_cost + book_cost asks)
unfolding walk
walk-counts [] w = (omega arith, omega arith)
walk-counts (l ∷ asks) w =
    let (qty, cost) = walk_level-Counts l w in
    let (qty', cost') = walk-counts asks (walk_level l w) in (omega arith, omega arith)

pub fill_counts :
    (asks : List AskLevel) (budget : ℕ)
    → ((walk asks (start budget)).depth_qty ≡ for_sale asks)
      × ((walk asks (start budget)).depth_cost ≡ book_cost asks)
fill_counts asks budget =
    let (qty, cost) = walk-counts asks (start budget) in (omega arith, omega arith)
