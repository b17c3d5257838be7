-- ===== src/Common/Maps.antt =====
-- Maps with numbers for keys, as lists that keep the order in which keys were first set.
use Prim.Native.Nat.{ℕ}
use mathlib.Core.Path.{◌≡◌, refl}
use mathlib.Core.Logic.{inl, inr}
use mathlib.Core.Bool.{Bool, false, ◌||◌}
use mathlib.Core.Option.{Option, none, some}
use mathlib.Core.List.{List, [], ◌∷◌, ◌++◌}
use native.Mathlib.Omega.{arith}
use optara.Common.Tests.{◌==◌, ==_iff, if◌then◌else◌, Bool-cases}

module _ {V : Type 0} where
  unfoldable pub get_key : List (ℕ × V) → ℕ → Option V
  get_key [] k = none
  get_key ((j, v) ∷ t) k = let rest = get_key t k in if j == k then some v else rest

  unfoldable pub set_key : List (ℕ × V) → ℕ → V → List (ℕ × V)
  set_key [] k v = (k, v) ∷ []
  set_key ((j, w) ∷ t) k v =
      let rest = set_key t k v in if j == k then (j, v) ∷ t else (j, w) ∷ rest

  pub get_key-set_key :
      (t : List (ℕ × V)) (k : ℕ) (v : V) (j : ℕ)
      → get_key (set_key t k v) j ≡ (if k == j then some v else get_key t j)
  unfolding get_key set_key
  get_key-set_key [] k v j = refl
  get_key-set_key ((i, w) ∷ t) k v j = elim (Bool-cases (i == k)) [
    | inl here ↦
        let same : i ≡ k = (==_iff i k).0 here in
        elim (Bool-cases (k == j)) [
          | inl hit ↦ rw (here, hit, same) (rw hit refl)
          | inr miss ↦ rw (here, miss, same) (rw miss refl)
        ]
    | inr there ↦ elim (Bool-cases (i == j)) [
      | inl hit ↦ let other : (k == j) ≡ false = ground arith in rw (there, hit, other) refl
      | inr miss ↦ rw (there, miss) (get_key-set_key t k v j)
    ]
  ]

-- A set of numbers in the order of insertion.
abbrev pub elem : ℕ → List ℕ → Bool
elem a [] = false
elem a (x ∷ xs) = (x == a) || elem a xs

abbrev pub add_to : ℕ → List ℕ → List ℕ
add_to a out = if elem a out then out else out ++ a ∷ []
