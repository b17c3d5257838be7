-- ===== src/Publisher/Reports/Memory.antt =====
-- publisher/src/publisher.ts, `remember`: at most sixteen reports of a product are kept, the newest among them.
use optara.Common.{
  ℕ, zero, suc, ◌+◌, ◌≤◌, Bool, true, false, not, ◌&&◌, List, [], ◌∷◌, length, ltb, ◌==◌, ==_iff,
  if◌then◌else◌, keep_if, elem, get_key, ◌≡◌, refl, sym, ap, ap₂, ◌∙◌, inl, inr, arith, Bool-cases,
  or-true,
}
use optara.Common.Elem.{or_none}
use optara.Sdk.Ledger.{insert, sort}
use optara.Publisher.Reports.{Signed, keys_of, delete_key, delete_keys, take}

-- Not among the keys that are deleted.
abbrev pub stays : List ℕ → ℕ → Bool
stays ks k = not (elem k ks)

keep_if-keep_if :
    (p q : ℕ → Bool) (xs : List ℕ) → keep_if p (keep_if q xs) ≡ keep_if (λ x. q x && p x) xs
keep_if-keep_if p q [] = refl
keep_if-keep_if p q (x ∷ xs) = elim (Bool-cases (q x)) [
  | inl good ↦ elim (Bool-cases (p x)) [
    | inl fine ↦ rw good (rw (fine, keep_if-keep_if p q xs) refl)
    | inr bad ↦ rw good (rw (bad, keep_if-keep_if p q xs) refl)
  ]
  | inr bad ↦ rw bad (keep_if-keep_if p q xs)
]

keep_if_same :
    (p q : ℕ → Bool) → ((x : ℕ) → p x ≡ q x) → (xs : List ℕ) → keep_if p xs ≡ keep_if q xs
keep_if_same p q same [] = refl
keep_if_same p q same (x ∷ xs) =
    ap₂ (λ b rest. if b then x ∷ rest else rest) (same x) (keep_if_same p q same xs)

keep_if_all : (xs : List ℕ) → keep_if (stays []) xs ≡ xs
keep_if_all [] = refl
keep_if_all (x ∷ xs) = ap (λ t. x ∷ t) (keep_if_all xs)

keys_of-delete_key :
    (k : ℕ) (m : List (ℕ × Signed))
    → keys_of (delete_key k m) ≡ keep_if (λ j. not (j == k)) (keys_of m)
keys_of-delete_key k [] = refl
keys_of-delete_key k ((j, s) ∷ m) = elim (Bool-cases (j == k)) [
  | inl gone ↦ rw gone (keys_of-delete_key k m)
  | inr kept ↦ rw kept (ap (λ t. j ∷ t) (keys_of-delete_key k m))
]

stays-cons : (k x : ℕ) (ks : List ℕ) → (not (x == k) && stays ks x) ≡ stays (k ∷ ks) x
stays-cons k x ks = elim (Bool-cases (x == k)) [
  | inl same ↦ let same' : (k == x) ≡ true = ground arith in rw (same, same') refl
  | inr other ↦ let other' : (k == x) ≡ false = ground arith in rw (other, other') refl
]

pub keys_of-delete_keys :
    (ks : List ℕ) (m : List (ℕ × Signed))
    → keys_of (delete_keys ks m) ≡ keep_if (stays ks) (keys_of m)
unfolding delete_keys
keys_of-delete_keys [] m = sym (keep_if_all (keys_of m))
keys_of-delete_keys (k ∷ ks) m =
    keys_of-delete_keys ks (delete_key k m)
    ∙ ap (keep_if (stays ks)) (keys_of-delete_key k m)
    ∙ keep_if-keep_if (stays ks) (λ j. not (j == k)) (keys_of m)
    ∙ keep_if_same (λ j. not (j == k) && stays ks j) (stays (k ∷ ks)) (λ x. stays-cons k x ks)
        (keys_of m)

get_key-delete_key :
    (j : ℕ) (m : List (ℕ × Signed)) (k : ℕ)
    → (j == k) ≡ false
    → get_key (delete_key j m) k ≡ get_key m k
unfolding get_key
get_key-delete_key j [] k h = refl
get_key-delete_key j ((i, s) ∷ m) k h = elim (Bool-cases (i == j)) [
  | inl gone ↦
      let other : (i == k) ≡ false = ground arith in rw gone (rw other (get_key-delete_key j m k h))
  | inr kept ↦ elim (Bool-cases (i == k)) [
    | inl here ↦ rw kept (rw here refl)
    | inr there ↦ rw kept (rw there (get_key-delete_key j m k h))
  ]
]

pub get_key-delete_keys :
    (ks : List ℕ) (m : List (ℕ × Signed)) (k : ℕ)
    → elem k ks ≡ false
    → get_key (delete_keys ks m) k ≡ get_key m k
unfolding delete_keys
get_key-delete_keys [] m k h = refl
get_key-delete_keys (j ∷ ks) m k h =
    let parts = or_none (j == k) (elem k ks) h in
    get_key-delete_keys ks (delete_key j m) k parts.1 ∙ get_key-delete_key j m k parts.0

count-cons :
    (p : ℕ → Bool) (x : ℕ) (xs ys : List ℕ)
    → length (keep_if p xs) ≡ length (keep_if p ys)
    → length (keep_if p (x ∷ xs)) ≡ length (keep_if p (x ∷ ys))
count-cons p x xs ys h = elim (Bool-cases (p x)) [
  | inl good ↦ rw good (ap suc h)
  | inr bad ↦ rw bad h
]

count-swap :
    (p : ℕ → Bool) (x y : ℕ) (xs : List ℕ)
    → length (keep_if p (x ∷ y ∷ xs)) ≡ length (keep_if p (y ∷ x ∷ xs))
count-swap p x y xs = elim (Bool-cases (p x)) [
  | inl good ↦ elim (Bool-cases (p y)) [
    | inl fine ↦ rw (good, fine) refl
    | inr bad ↦ rw (good, bad) refl
  ]
  | inr bad ↦ rw bad refl
]

count_le : (p : ℕ → Bool) (xs : List ℕ) → length (keep_if p xs) ≤ length xs
count_le p [] = omega arith
count_le p (x ∷ xs) =
    let rest = count_le p xs in
    elim (Bool-cases (p x)) [ inl good ↦ rw good (omega arith) | inr bad ↦ rw bad (omega arith) ]

-- How many pass a test does not depend on the order.
count-insert :
    (p : ℕ → Bool) (x : ℕ) (xs : List ℕ)
    → length (keep_if p (insert x xs)) ≡ length (keep_if p (x ∷ xs))
unfolding insert
count-insert p x [] = refl
count-insert p x (y ∷ xs) =
    let rest = count-insert p x xs in
    elim (Bool-cases (ltb x y)) [
      | inl before ↦ rw before refl
      | inr after ↦ rw after (count-cons p y (insert x xs) (x ∷ xs) rest ∙ count-swap p y x xs)
    ]

pub count-sort : (p : ℕ → Bool) (xs : List ℕ) → length (keep_if p (sort xs)) ≡ length (keep_if p xs)
unfolding sort
count-sort p [] = refl
count-sort p (x ∷ xs) = count-insert p x (sort xs) ∙ count-cons p x (sort xs) xs (count-sort p xs)

-- The first `n` are not kept.
pub count-take :
    (ks : List ℕ) (n : ℕ) (xs : List ℕ)
    → n ≤ length xs
    → ((x : ℕ) → elem x (take n xs) ≡ true → elem x ks ≡ true)
    → length (keep_if (stays ks) xs) + n ≤ length xs
count-take ks zero xs h inside = let rest = count_le (stays ks) xs in omega arith
count-take ks (suc n) [] h inside = absurd (omega arith)
count-take ks (suc n) (x ∷ xs) h inside =
    let here : elem x ks ≡ true = inside x (rw ((==_iff x x).1 refl) refl) in
    let rest : length (keep_if (stays ks) xs) + n ≤ length xs =
      count-take ks n xs (omega arith) (λ y e. inside y (rw e (or-true (x == y)))) in
    rw here (omega arith)
