-- ===== src/Common/Elem.antt =====
-- Membership of numbers in appended, filtered and deduplicated lists.
use Prim.Native.Nat.{ℕ}
use mathlib.Core.Path.{◌≡◌, refl, sym, ap, ◌∙◌}
use mathlib.Core.Logic.{inl, inr}
use mathlib.Core.Bool.{Bool, true, false, ◌||◌, ◌&&◌, or_assoc, or-false, and-false, true≢false}
use mathlib.Core.List.{List, [], ◌∷◌, ◌++◌}
use optara.Common.Tests.{◌==◌, ==_iff, Bool-cases}
use optara.Common.Lists.{keep_if}
use optara.Common.Maps.{elem, add_to}

pub elem-append : (n : ℕ) (xs ys : List ℕ) → elem n (xs ++ ys) ≡ (elem n xs || elem n ys)
elem-append n [] ys = refl
elem-append n (x ∷ xs) ys = rw (elem-append n xs ys, or_assoc (x == n) (elem n xs) (elem n ys)) refl

-- An element that is kept passes the test.
pub elem-keep_if : (q : ℕ → Bool) (n : ℕ) (xs : List ℕ) → elem n (keep_if q xs) ≡ (elem n xs && q n)
elem-keep_if q n [] = refl
elem-keep_if q n (x ∷ xs) = elim (Bool-cases (x == n)) [
  | inl here ↦
      let same : x ≡ n = (==_iff x n).0 here in
      elim (Bool-cases (q n)) [
        | inl holds ↦
            let at_x : q x ≡ true = ap q same ∙ holds in rw (here, at_x, holds) (rw here refl)
        | inr fails ↦
            let at_x : q x ≡ false = ap q same ∙ fails in
            let rest : elem n (keep_if q xs) ≡ false =
              elem-keep_if q n xs ∙ ap (λ b. elem n xs && b) fails ∙ and-false (elem n xs) in
            rw (here, at_x, fails, rest) refl
      ]
  | inr there ↦ elim (Bool-cases (q x)) [
    | inl holds ↦ rw (there, holds) (rw (there, elem-keep_if q n xs) refl)
    | inr fails ↦ rw (there, fails) (elem-keep_if q n xs)
  ]
]

pub elem-add_to : (n a : ℕ) (out : List ℕ) → elem n (add_to a out) ≡ (elem n out || (a == n))
elem-add_to n a out = elim (Bool-cases (elem a out)) [
  | inl old ↦ elim (Bool-cases (a == n)) [
    | inl here ↦
        let held : elem n out ≡ true = ap (λ m. elem m out) (sym ((==_iff a n).0 here)) ∙ old in
        rw (old, held) refl
    | inr there ↦ rw (old, there, or-false (elem n out)) refl
  ]
  | inr new ↦ rw (new, elem-append n out (a ∷ []), or-false (a == n)) refl
]

pub or_none : (a b : Bool) → (a || b) ≡ false → (a ≡ false) × (b ≡ false)
or_none false false h = (refl, refl)
or_none false true h = (refl, h)
or_none true b h = absurd (true≢false h)
