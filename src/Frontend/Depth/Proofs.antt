-- ===== src/Frontend/Depth/Proofs.antt =====
-- A fill stays within the budget and the book, and takes all of a book that the budget exceeds.
use native.Mathlib.Nat.{div-mul-le_self, le-div_iff_mul-le, div-le_of_le-mul}
use optara.Common.{
  ℕ, ◌+◌, ◌*◌, ◌/◌, ◌≤◌, ◌<◌, ◌≡◌, ◌↔◌, ◌⊎◌, inl, inr, refl, ap, ◌∙◌, true, ◌&&◌, ◌||◌, List, [],
  ◌∷◌, ltb, leb, ◌==◌, ==_iff, arith, Bool-cases, leb→le, leb_false→lt,
}
use optara.Frontend.Depth.{
  wad, AskLevel, Walk, level_cost, count_depth, take_level, take_part, walk_level, walk, start,
  fill_of, fill_from_asks,
}
use optara.Frontend.Depth.Book.{for_sale, book_cost, fill_counts}

-- What a part of a level costs is within the rest of the budget.
part_cost-le : (left price : ℕ) → left * wad / price * price / wad ≤ left
part_cost-le left price =
    div-le_of_le-mul wad {n = left} (omega (arith, div-mul-le_self (left * wad) price))

-- The rest of the budget that does not pay the level buys no more than the level.
part-le : (left price size : ℕ) → left < size * price / wad → left * wad / price ≤ size
part-le left price size lt =
    let paid =
      (le-div_iff_mul-le {k = wad} {x = left + 1} {y = size * price} (omega arith)).0
        (omega arith) in
    div-le_of_le-mul price {n = size} (omega (arith, paid))

-- And it costs no more than the level.
part_cost-lt :
    (left price size : ℕ)
    → left < size * price / wad
    → left * wad / price * price / wad ≤ size * price / wad
part_cost-lt left price size lt = omega (arith, part_cost-le left price)

-- Within the budget and the book; and either everything so far is bought, or the budget is spent on a
-- book that costs at least as much.
pub record IsWalk (budget : ℕ) (w : Walk) : Type 0 where
  pub spent : w.left + w.cost ≤ budget
  pub bought : w.qty ≤ w.depth_qty
  pub paid : w.cost ≤ w.depth_cost
  pub whole :
      ((w.qty ≡ w.depth_qty) × (w.cost ≡ w.depth_cost) × (w.left + w.depth_cost ≡ budget))
      ⊎ ((w.left ≡ 0) × (budget ≤ w.depth_cost))

count_depth-spent :
    (budget : ℕ) (l : AskLevel) (w : Walk)
    → (w.left == 0) ≡ true
    → IsWalk budget w
    → IsWalk budget (count_depth l w)
unfolding count_depth
count_depth-spent budget l w gone h = record {
  spent = h.spent;
  bought = omega (arith, h.bought);
  paid = omega (arith, h.paid);
  whole = elim h.whole [
    | inl (q, c, b) ↦ inr ((==_iff w.left 0).0 gone, omega (arith, (==_iff w.left 0).0 gone))
    | inr (z, b) ↦ inr (z, omega arith)
  ];
}

take_level-IsWalk :
    (budget : ℕ) (l : AskLevel) (w : Walk)
    → level_cost l ≤ w.left
    → IsWalk budget w
    → IsWalk budget (take_level l (count_depth l w))
unfolding count_depth take_level
take_level-IsWalk budget l w le h = record {
  spent = omega (arith, h.spent);
  bought = omega (arith, h.bought);
  paid = omega (arith, h.paid);
  whole = elim h.whole [
    | inl (q, c, b) ↦ inl (ap (λ n. n + l.size) q, ap (λ n. n + level_cost l) c, omega arith)
    | inr (z, b) ↦ inr (omega arith, omega arith)
  ];
}

take_part-IsWalk :
    (budget : ℕ) (l : AskLevel) (w : Walk)
    → w.left < level_cost l
    → IsWalk budget w
    → IsWalk budget (take_part l (count_depth l w))
unfolding count_depth take_part
take_part-IsWalk budget l w lt h = record {
  spent = omega (arith, h.spent, part_cost-le w.left l.price);
  bought = omega (arith, h.bought, part-le w.left l.price l.size lt);
  paid = omega (arith, h.paid, part_cost-lt w.left l.price l.size lt);
  whole = inr (refl, elim h.whole [ inl (q, c, b) ↦ omega arith | inr (z, b) ↦ omega arith ]);
}

walk_level-IsWalk :
    (budget : ℕ) (l : AskLevel) (w : Walk) → IsWalk budget w → IsWalk budget (walk_level l w)
unfolding walk_level
walk_level-IsWalk budget l w h = elim (Bool-cases ((l.price == 0) || (l.size == 0))) [
  | inl skipped ↦ rw (skipped, walk_level) h
  | inr priced ↦ elim (Bool-cases (w.left == 0)) [
    | inl gone ↦ rw (priced, gone, walk_level) (count_depth-spent budget l w gone h)
    | inr some_left ↦ elim (Bool-cases (leb (level_cost l) w.left)) [
      | inl whole ↦
          rw (priced, some_left, whole, walk_level)
            (take_level-IsWalk budget l w (leb→le _ _ whole) h)
      | inr part ↦
          rw (priced, some_left, part, walk_level)
            (take_part-IsWalk budget l w (leb_false→lt _ _ part) h)
    ]
  ]
]

walk-IsWalk :
    (budget : ℕ) (asks : List AskLevel) (w : Walk) → IsWalk budget w → IsWalk budget (walk asks w)
unfolding walk
walk-IsWalk budget [] w h = h
walk-IsWalk budget (l ∷ asks) w h =
    walk-IsWalk budget asks (walk_level l w) (walk_level-IsWalk budget l w h)

start-IsWalk : (budget : ℕ) → IsWalk budget (start budget)
start-IsWalk budget = record {
  spent = omega arith;
  bought = omega arith;
  paid = omega arith;
  whole = inl (refl, refl, omega arith);
}

-- A fill costs no more than the budget, buys no more than the levels that have a price sell together, and
-- costs no more than all levels do, each rounded down; and the depth it reports is that amount and that
-- cost.
pub fill_from_asks_bounds :
    (asks : List AskLevel) (budget : ℕ)
    → let f = fill_from_asks asks budget in
      (f.cost ≤ budget)
      × (f.qty ≤ for_sale asks)
      × (f.cost ≤ book_cost asks)
      × (f.depth_qty ≡ for_sale asks)
      × (f.depth_cost ≡ book_cost asks)
unfolding fill_from_asks fill_of
fill_from_asks_bounds asks budget =
    let h = walk-IsWalk budget asks (start budget) (start-IsWalk budget) in
    let (qty, cost) = fill_counts asks budget in
    (omega (arith, h.spent), omega (arith, h.bought), omega (arith, h.paid), qty, cost)

abbrev ExhaustedIff : (qty depth_qty cost depth_cost budget : ℕ) → Type 0
ExhaustedIff qty depth_qty cost depth_cost budget =
    (((ltb 0 depth_qty && (qty == depth_qty) && ltb depth_cost budget) ≡ true)
      ↔ ((0 < depth_qty) × (depth_cost < budget)))
    × ((ltb 0 depth_qty && (qty == depth_qty) && ltb depth_cost budget) ≡ true
        → (qty ≡ depth_qty) × (cost ≡ depth_cost))

whole_book :
    (qty depth_qty cost depth_cost budget : ℕ)
    → qty ≡ depth_qty
    → cost ≡ depth_cost
    → ExhaustedIff qty depth_qty cost depth_cost budget
whole_book qty depth_qty cost depth_cost budget q c = (ground arith, λ h. (q, c))

spent_budget :
    (qty depth_qty cost depth_cost budget : ℕ)
    → budget ≤ depth_cost
    → ExhaustedIff qty depth_qty cost depth_cost budget
spent_budget qty depth_qty cost depth_cost budget le =
    (ground arith, λ h. (ground arith, ground arith))

-- A fill is marked exhausted exactly where the levels that have a price sell something and the budget is more
-- than all levels cost, each rounded down; and it then buys all that they sell, at that cost.
pub fill_from_asks-exhausted :
    (asks : List AskLevel) (budget : ℕ)
    → let f = fill_from_asks asks budget in
      ((f.exhausted ≡ true) ↔ ((0 < for_sale asks) × (book_cost asks < budget)))
      × ((f.exhausted ≡ true) → (f.qty ≡ for_sale asks) × (f.cost ≡ book_cost asks))
unfolding fill_from_asks fill_of
fill_from_asks-exhausted asks budget =
    let w = walk asks (start budget) in
    let h = walk-IsWalk budget asks (start budget) (start-IsWalk budget) in
    let (qty, cost) = fill_counts asks budget in
    let iff : ExhaustedIff w.qty w.depth_qty w.cost w.depth_cost budget = elim h.whole [
      | inl (q, c, b) ↦ whole_book w.qty w.depth_qty w.cost w.depth_cost budget q c
      | inr (z, b) ↦ spent_budget w.qty w.depth_qty w.cost w.depth_cost budget b
    ] in
    (
      (
        λ e. let (sold, paid) = iff.0.0 e in (omega arith, omega arith),
        λ (sold, paid). iff.0.1 (omega arith, omega arith),
      ),
      λ e. let (q, c) = iff.1 e in (q ∙ qty, c ∙ cost),
    )
