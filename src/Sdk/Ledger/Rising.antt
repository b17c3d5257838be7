-- ===== src/Sdk/Ledger/Rising.antt =====
-- Sorted lists without repetition: they are equal where they have the same elements.
use optara.Common.{
  ℕ, ◌<◌, true, false, ◌||◌, List, [], ◌∷◌, ◌++◌, elem, add_to, ltb, ltb→lt, ◌==◌, ==_iff, ◌≡◌,
  refl, sym, ap, ap₂, ◌∙◌, subst, inl, inr, arith, Bool-cases, true≢false,
}
use optara.Common.Elem.{or_none, elem-append}
use optara.Sdk.Ledger.{insert, sort}
use optara.Sdk.Ledger.Proofs.{elem-sort}

-- Each number after the first is above the one before.
abbrev pub IsRising : List ℕ → Type 0
IsRising [] = Unit
IsRising (a ∷ []) = Unit
IsRising (a ∷ b ∷ xs) = (a < b) × IsRising (b ∷ xs)

-- No number is in the list twice.
abbrev pub IsDistinct : List ℕ → Type 0
IsDistinct [] = Unit
IsDistinct (a ∷ xs) = (elem a xs ≡ false) × IsDistinct xs

append-IsDistinct :
    (a : ℕ) (xs : List ℕ) → IsDistinct xs → elem a xs ≡ false → IsDistinct (xs ++ a ∷ [])
append-IsDistinct a [] d new = (refl, tt)
append-IsDistinct a (x ∷ xs) (absent, d) new =
    let parts = or_none (x == a) (elem a xs) new in
    let other : (a == x) ≡ false = ground (arith, parts.0) in
    (elem-append x xs (a ∷ []) ∙ rw (absent, other) refl, append-IsDistinct a xs d parts.1)

pub add_to-IsDistinct : (a : ℕ) (out : List ℕ) → IsDistinct out → IsDistinct (add_to a out)
add_to-IsDistinct a out d = elim (Bool-cases (elem a out)) [
  | inl old ↦ rw old d
  | inr new ↦ rw new (append-IsDistinct a out d new)
]

put_before :
    (x a : ℕ) (xs : List ℕ)
    → x < a
    → IsRising (x ∷ xs)
    → IsRising (insert a xs)
    → IsRising (x ∷ insert a xs)
unfolding insert
put_before x a [] lt r s = (lt, tt)
put_before x a (y ∷ xs) lt r s = elim (Bool-cases (ltb a y)) [
  | inl before ↦ rw before (lt, rw before at s)
  | inr after ↦ rw after (r.0, rw after at s)
]

IsRising-tail : (x : ℕ) (xs : List ℕ) → IsRising (x ∷ xs) → IsRising xs
IsRising-tail x [] r = tt
IsRising-tail x (y ∷ xs) r = r.1

insert-IsRising : (a : ℕ) (xs : List ℕ) → IsRising xs → elem a xs ≡ false → IsRising (insert a xs)
unfolding insert
insert-IsRising a [] r new = tt
insert-IsRising a (x ∷ xs) r new =
    let parts = or_none (x == a) (elem a xs) new in
    elim (Bool-cases (ltb a x)) [
      | inl before ↦ rw before (ltb→lt a x before, r)
      | inr after ↦
          let lt : x < a = ground (arith, parts.0) in
          rw after (put_before x a xs lt r (insert-IsRising a xs (IsRising-tail x xs r) parts.1))
    ]

pub sort-IsRising : (xs : List ℕ) → IsDistinct xs → IsRising (sort xs)
unfolding sort
sort-IsRising [] d = tt
sort-IsRising (x ∷ xs) (absent, d) =
    insert-IsRising x (sort xs) (sort-IsRising xs d) (elem-sort x xs ∙ absent)

above_head : (x a : ℕ) (xs : List ℕ) → IsRising (x ∷ xs) → elem a xs ≡ true → x < a
above_head x a [] r h = absurd (true≢false (sym h))
above_head x a (y ∷ xs) r h = elim (Bool-cases (y == a)) [
  | inl here ↦ let same = (==_iff y a).0 here in omega (arith, r.0, same)
  | inr there ↦
      let later = above_head y a xs r.1 (sym (ap (λ b. b || elem a xs) there) ∙ h) in
      omega (arith, r.0, later)
]

self_elem : (x : ℕ) (xs : List ℕ) → elem x (x ∷ xs) ≡ true
self_elem x xs = ap (λ b. b || elem x xs) ((==_iff x x).1 refl)

heads_equal :
    (x y : ℕ) (xs ys : List ℕ)
    → IsRising (x ∷ xs)
    → IsRising (y ∷ ys)
    → ((a : ℕ) → elem a (x ∷ xs) ≡ elem a (y ∷ ys))
    → x ≡ y
heads_equal x y xs ys r s same = elim (Bool-cases (y == x)) [
  | inl here ↦ sym ((==_iff y x).0 here)
  | inr there ↦
      let in_ys : elem x ys ≡ true =
        sym (ap (λ b. b || elem x ys) there) ∙ sym (same x) ∙ self_elem x xs in
      let other : (x == y) ≡ false = ground (arith, there) in
      let in_xs : elem y xs ≡ true =
        sym (ap (λ b. b || elem y xs) other) ∙ same y ∙ self_elem y ys in
      let below = above_head y x ys s in_ys in
      let above = above_head x y xs r in_xs in absurd (omega (arith, below, above))
]

not_own_tail : (x : ℕ) (xs : List ℕ) → IsRising (x ∷ xs) → elem x xs ≡ false
not_own_tail x xs r = elim (Bool-cases (elem x xs)) [
  | inl there ↦ let lt = above_head x x xs r there in absurd (omega (arith, lt))
  | inr absent ↦ absent
]

tails_same :
    (x : ℕ) (xs ys : List ℕ)
    → IsRising (x ∷ xs)
    → IsRising (x ∷ ys)
    → ((a : ℕ) → elem a (x ∷ xs) ≡ elem a (x ∷ ys))
    → (a : ℕ) → elem a xs ≡ elem a ys
tails_same x xs ys r s same a = elim (Bool-cases (x == a)) [
  | inl here ↦
      let e = (==_iff x a).0 here in
      ap (λ n. elem n xs) (sym e)
      ∙ not_own_tail x xs r
      ∙ sym (not_own_tail x ys s)
      ∙ ap (λ n. elem n ys) e
  | inr there ↦ sym (ap (λ b. b || elem a xs) there) ∙ same a ∙ ap (λ b. b || elem a ys) there
]

pub IsRising-unique :
    (xs ys : List ℕ) → IsRising xs → IsRising ys → ((a : ℕ) → elem a xs ≡ elem a ys) → xs ≡ ys
IsRising-unique [] [] r s same = refl
IsRising-unique [] (y ∷ ys) r s same = absurd (true≢false (sym (self_elem y ys) ∙ sym (same y)))
IsRising-unique (x ∷ xs) [] r s same = absurd (true≢false (sym (self_elem x xs) ∙ same x))
IsRising-unique (x ∷ xs) (y ∷ ys) r s same =
    let e = heads_equal x y xs ys r s same in
    let s' : IsRising (x ∷ ys) = subst (λ n. IsRising (n ∷ ys)) (sym e) s in
    let same' : (a : ℕ) → elem a (x ∷ xs) ≡ elem a (x ∷ ys) =
      λ a. same a ∙ ap (λ n. elem a (n ∷ ys)) (sym e) in
    ap₂ (λ n t. n ∷ t) e
      (IsRising-unique xs ys (IsRising-tail x xs r) (IsRising-tail x ys s')
        (tails_same x xs ys r s' same'))
