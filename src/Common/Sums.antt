-- ===== src/Common/Sums.antt =====
-- Sums of integers over a list of numbers, and what one changed entry does to them.
use Prim.Native.Nat.{ℕ}
use mathlib.Core.Path.{◌≡◌, refl, ap, ap₂}
use mathlib.Core.Logic.{◌≢◌, inl, inr}
use mathlib.Core.List.{List, [], ◌∷◌}
use optara.Common.Int.{ℤ, pos, pos_part, neg_part, ◌+ℤ◌, int_laws}
use optara.Common.Lists.{All}
use optara.Common.Tests.{◌==◌, if◌then◌else◌, Bool-cases, ==_iff}

unfoldable pub sum_over : (ℕ → ℤ) → List ℕ → ℤ
sum_over f [] = pos 0
sum_over f (a ∷ ks) = f a +ℤ sum_over f ks

-- `a` is in the list exactly once.
abbrev pub Single : ℕ → List ℕ → Type 0
Single a [] = ⊥
Single a (x ∷ xs) = if x == a then All (λ y. y ≢ a) xs else Single a xs

pub sum_over-absent :
    (f g : ℕ → ℤ) (a : ℕ) (ks : List ℕ)
    → ((x : ℕ) → x ≢ a → g x ≡ f x)
    → All (λ y. y ≢ a) ks
    → sum_over g ks ≡ sum_over f ks
unfolding sum_over
sum_over-absent f g a [] same h = refl
sum_over-absent f g a (x ∷ ks) same h = ap₂ ◌+ℤ◌ (same x h.0) (sum_over-absent f g a ks same h.1)

swap_ends : (a b c : ℤ) → a +ℤ b +ℤ c ≡ c +ℤ b +ℤ a
swap_ends a b c = omega int_laws

add_both : (x a b c d : ℤ) → a +ℤ b ≡ c +ℤ d → x +ℤ a +ℤ b ≡ x +ℤ c +ℤ d
add_both x a b c d h = omega (int_laws, ap (λ (z : ℤ). pos_part z) h, ap (λ (z : ℤ). neg_part z) h)

-- Where only the value at `a` changes, the sum changes by as much.
pub sum_over-update :
    (f g : ℕ → ℤ) (a : ℕ) (ks : List ℕ)
    → ((x : ℕ) → x ≢ a → g x ≡ f x)
    → Single a ks
    → sum_over g ks +ℤ f a ≡ sum_over f ks +ℤ g a
unfolding sum_over
sum_over-update f g a [] same h = absurd h
sum_over-update f g a (x ∷ ks) same h = elim (Bool-cases (x == a)) [
  | inl here ↦
      let e : x ≡ a = (==_iff x a).0 here in
      let rest = sum_over-absent f g a ks same (rw here at h) in
      rw (e, rest) (swap_ends (g a) (sum_over f ks) (f a))
  | inr there ↦
      let ne : x ≢ a = λ e. cc (there, (==_iff x a).1 e) in
      let rest = sum_over-update f g a ks same (rw there at h) in
      rw (same x ne) (add_both (f x) (sum_over g ks) (f a) (sum_over f ks) (g a) rest)
]
