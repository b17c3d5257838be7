-- ===== src/Common/Tables.antt =====
-- Tables from numbers to numbers that grow at their end, each key once.
use mathlib.Core.Path.{◌≡◌, refl, ap, ◌∙◌}
use mathlib.Core.Logic.{inl, inr}
use Prim.Native.Nat.{ℕ}
use mathlib.Core.Bool.{Bool, true, false}
use mathlib.Core.Option.{Option, none, some, some-injective}
use mathlib.Core.List.{List, [], ◌∷◌, ◌++◌}
use optara.Common.Tests.{◌==◌, ==_iff, if◌then◌else◌, Bool-cases}
use optara.Common.Maps.{get_key}
use optara.Common.Lists.{All-append, every, All}

abbrev pub is_empty {ℓ} : {A : Type ℓ} → List A → Bool
is_empty [] = true
is_empty (x ∷ xs) = false

pub empty-append {ℓ} : {A : Type ℓ} (xs : List A) (x : A) → is_empty (xs ++ x ∷ []) ≡ false
empty-append [] x = refl
empty-append (y ∷ xs) x = refl

-- An entry of the table is found under its key.
abbrev pub IsFoundIn : List (ℕ × ℕ) → ℕ × ℕ → Type 0
IsFoundIn t e = get_key t e.0 ≡ some e.1

abbrev pub or_else : Option ℕ → Option ℕ → Option ℕ
or_else none o = o
or_else (some v) o = some v

pub or_else-none : (o : Option ℕ) → or_else o none ≡ o
or_else-none none = refl
or_else-none (some v) = refl

pub get_key-append :
    (t : List (ℕ × ℕ)) (k v q : ℕ)
    → get_key (t ++ (k, v) ∷ []) q ≡ or_else (get_key t q) (if k == q then some v else none)
unfolding get_key
get_key-append [] k v q = refl
get_key-append ((j, w) ∷ t) k v q = elim (Bool-cases (j == q)) [
  | inl hit ↦ rw hit refl
  | inr miss ↦ rw miss (get_key-append t k v q)
]

found-append :
    (t : List (ℕ × ℕ)) (k v : ℕ) (entries : List (ℕ × ℕ))
    → All (IsFoundIn t) entries
    → All (IsFoundIn (t ++ (k, v) ∷ [])) entries
found-append t k v [] h = tt
found-append t k v (e ∷ entries) h = (
  get_key-append t k v e.0 ∙ ap (λ o. or_else o (if k == e.0 then some v else none)) h.0,
  found-append t k v entries h.1,
)

-- A key that is not in the table is added to it.
pub IsTable-append :
    (t : List (ℕ × ℕ)) (k v : ℕ)
    → All (IsFoundIn t) t
    → get_key t k ≡ none
    → All (IsFoundIn (t ++ (k, v) ∷ [])) (t ++ (k, v) ∷ [])
IsTable-append t k v h new =
    All-append (IsFoundIn (t ++ (k, v) ∷ [])) t ((k, v) ∷ []) (found-append t k v t h)
      (get_key-append t k v k ∙ rw new (rw ((==_iff k k).1 refl) refl), tt)

pub every-found :
    (f : ℕ → ℕ → Bool) (t : List (ℕ × ℕ)) (q v : ℕ)
    → every (λ (e : ℕ × ℕ). f e.0 e.1) t ≡ true
    → get_key t q ≡ some v
    → f q v ≡ true
unfolding get_key
every-found f [] q v = λ all h. cc h
every-found f ((j, w) ∷ t) q v = elim (Bool-cases (f j w)) [
  | inr bad ↦ rw bad (λ all h. cc all)
  | inl good ↦ elim (Bool-cases (j == q)) [
    | inl hit ↦ rw (good, hit) (λ all h. cc ((==_iff j q).0 hit, some-injective w v h, good))
    | inr miss ↦ rw (good, miss) (every-found f t q v)
  ]
]

pub found-every :
    (f : ℕ → ℕ → Bool) (t entries : List (ℕ × ℕ))
    → All (IsFoundIn t) entries
    → ((q v : ℕ) → get_key t q ≡ some v → f q v ≡ true)
    → every (λ (e : ℕ × ℕ). f e.0 e.1) entries ≡ true
found-every f t [] h g = refl
found-every f t (e ∷ entries) h g = rw (g e.0 e.1 h.0) (found-every f t entries h.1 g)

pub filled : (t : List (ℕ × ℕ)) (k v : ℕ) → get_key t k ≡ some v → is_empty t ≡ false
unfolding get_key
filled [] k v h = cc h
filled (e ∷ t) k v h = refl
