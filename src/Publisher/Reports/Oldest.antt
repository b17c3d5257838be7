-- ===== src/Publisher/Reports/Oldest.antt =====
-- publisher/src/publisher.ts: among sequences below a new one, the oldest are those that are dropped.
use optara.Common.{
  ℕ, zero, suc, ◌≤◌, ◌<◌, true, false, List, [], ◌∷◌, ◌++◌, length, ltb, ◌==◌, elem, All, set_key,
  ◌≡◌, refl, ap, ◌∙◌, inl, inr, arith, Bool-cases, lt→ltb,
}
use optara.Common.Elem.{or_none}
use optara.Sdk.Ledger.{insert, sort}
use optara.Publisher.Reports.{Signed, keys_of, take}

insert-last :
    (x seq : ℕ) (xs : List ℕ) → x < seq → insert x (xs ++ seq ∷ []) ≡ insert x xs ++ seq ∷ []
unfolding insert
insert-last x seq [] h = rw (lt→ltb x seq h) refl
insert-last x seq (y ∷ xs) h = elim (Bool-cases (ltb x y)) [
  | inl before ↦ rw before refl
  | inr after ↦ rw after (ap (λ t. y ∷ t) (insert-last x seq xs h))
]

abbrev pub Below : ℕ → List ℕ → Type 0
Below seq ks = All (λ k. k < seq) ks

pub sort-last : (ks : List ℕ) (seq : ℕ) → Below seq ks → sort (ks ++ seq ∷ []) ≡ sort ks ++ seq ∷ []
unfolding sort insert
sort-last [] seq h = refl
sort-last (k ∷ ks) seq h = ap (insert k) (sort-last ks seq h.1) ∙ insert-last k seq (sort ks) h.0

length-insert : (x : ℕ) (xs : List ℕ) → length (insert x xs) ≡ suc (length xs)
unfolding insert
length-insert x [] = refl
length-insert x (y ∷ xs) = elim (Bool-cases (ltb x y)) [
  | inl before ↦ rw before refl
  | inr after ↦ rw after (ap suc (length-insert x xs))
]

pub length-sort : (xs : List ℕ) → length (sort xs) ≡ length xs
unfolding sort
length-sort [] = refl
length-sort (x ∷ xs) = length-insert x (sort xs) ∙ ap suc (length-sort xs)

pub take-append : (n : ℕ) (xs ys : List ℕ) → n ≤ length xs → take n (xs ++ ys) ≡ take n xs
take-append zero xs ys h = refl
take-append (suc n) [] ys h = absurd (omega arith)
take-append (suc n) (x ∷ xs) ys h = ap (λ t. x ∷ t) (take-append n xs ys (omega arith))

pub elem-take : (y n : ℕ) (xs : List ℕ) → elem y xs ≡ false → elem y (take n xs) ≡ false
elem-take y zero xs h = refl
elem-take y (suc n) [] h = refl
elem-take y (suc n) (x ∷ xs) h =
    let parts = or_none (x == y) (elem y xs) h in rw (parts.0, elem-take y n xs parts.1) refl

pub Below-elem : (seq : ℕ) (ks : List ℕ) → Below seq ks → elem seq ks ≡ false
Below-elem seq [] h = refl
Below-elem seq (k ∷ ks) h =
    let other : (k == seq) ≡ false = ground arith in rw (other, Below-elem seq ks h.1) refl

pub keys_of-set_key :
    (m : List (ℕ × Signed)) (seq : ℕ) (s : Signed)
    → elem seq (keys_of m) ≡ false
    → keys_of (set_key m seq s) ≡ keys_of m ++ seq ∷ []
unfolding set_key
keys_of-set_key [] seq s h = refl
keys_of-set_key ((j, t) ∷ m) seq s h =
    let parts = or_none (j == seq) (elem seq (keys_of m)) h in
    rw parts.0 (ap (λ t. j ∷ t) (keys_of-set_key m seq s parts.1))

pub drop_second :
    (seq a b : ℕ) (ks : List ℕ)
    → All (λ k. k ≤ seq) (a ∷ b ∷ ks)
    → ltb b a ≡ true
    → elem seq (a ∷ b ∷ ks) ≡ true
    → elem seq (a ∷ ks) ≡ true
drop_second seq a b ks (la, (lb, le)) smaller h =
    let other : (b == seq) ≡ false = ground arith in rw other at h

pub drop_first :
    (seq a b : ℕ) (ks : List ℕ)
    → All (λ k. k ≤ seq) (a ∷ b ∷ ks)
    → ltb b a ≡ false
    → elem seq (a ∷ b ∷ ks) ≡ true
    → elem seq (b ∷ ks) ≡ true
drop_first seq a b ks (la, (lb, le)) larger h = elim (Bool-cases (b == seq)) [
  | inl here ↦ rw here refl
  | inr there ↦ let other : (a == seq) ≡ false = ground arith in rw other at h
]
