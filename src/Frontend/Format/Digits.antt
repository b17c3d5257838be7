-- ===== src/Frontend/Format/Digits.antt =====
-- The digits of a number: their value, and how many they are.
use native.Mathlib.Nat.{pow-suc, pow-succ', mul_assoc}
use optara.Common.{
  ℕ, zero, suc, ◌+◌, ◌*◌, ◌/◌, ◌%◌, ◌^◌, ◌≤◌, ◌<◌, true, List, [], ◌∷◌, ◌++◌, length, ltb, ltb→lt,
  lt→ltb, subst, ◌≡◌, refl, sym, ap, ◌∙◌, inl, inr, arith, Bool-cases,
}
use optara.Frontend.Format.{digits_onto, digits, zeros, value_from}

value_from-digits_onto :
    (fuel n : ℕ) (rest : List ℕ)
    → n < fuel
    → value_from 0 (digits_onto fuel n rest) ≡ value_from n rest
unfolding value_from digits_onto
value_from-digits_onto zero n rest h = absurd (omega arith)
value_from-digits_onto (suc fuel) n rest h = elim (Bool-cases (ltb n 10)) [
  | inl small ↦ let lt = ltb→lt n 10 small in rw small (ap (λ m. value_from m rest) (omega arith))
  | inr large ↦
      let ge : 10 ≤ n = ground arith in
      rw large (
        value_from-digits_onto fuel (n / 10) (n % 10 ∷ rest) (omega arith)
        ∙ ap (λ m. value_from m rest) (omega arith))
]

pub value_from-digits : (n : ℕ) → value_from 0 (digits n) ≡ n
unfolding digits value_from
value_from-digits n = value_from-digits_onto (suc n) n [] (omega arith)

plus_zero : (n : ℕ) → n + 0 ≡ n
plus_zero n = omega arith

div_small : (n p : ℕ) → n < p * 10 → n / 10 < p
div_small n p h = omega arith

-- A number below 10 ^ (k + 1) has at most k + 1 digits.
length-digits_onto :
    (fuel n k : ℕ) (rest : List ℕ)
    → n < 10 ^ suc k
    → length (digits_onto fuel n rest) ≤ suc k + length rest
unfolding digits_onto
length-digits_onto zero n k rest h = omega arith
length-digits_onto (suc fuel) n zero rest h =
    let small : ltb n 10 ≡ true = lt→ltb n 10 h in rw small (omega arith)
length-digits_onto (suc fuel) n (suc k) rest h = elim (Bool-cases (ltb n 10)) [
  | inl small ↦ rw small (omega arith)
  | inr large ↦
      let less : n / 10 < 10 ^ suc k =
        div_small n (10 ^ suc k) (subst (λ m. n < m) (pow-suc 10 (suc k)) h) in
      let more = length-digits_onto fuel (n / 10) k (n % 10 ∷ rest) less in rw large (omega arith)
]

pub length-digits : (n k : ℕ) → n < 10 ^ suc k → length (digits n) ≤ suc k
unfolding digits
length-digits n k h = let most = length-digits_onto (suc n) n k [] h in omega arith

keeps_rest : (fuel n : ℕ) (rest : List ℕ) → length rest ≤ length (digits_onto fuel n rest)
unfolding digits_onto
keeps_rest zero n rest = omega arith
keeps_rest (suc fuel) n rest =
    let more = keeps_rest fuel (n / 10) (n % 10 ∷ rest) in
    elim (Bool-cases (ltb n 10)) [
      | inl small ↦ rw small (omega arith)
      | inr large ↦ rw large (omega arith)
    ]

pub digits_some : (n : ℕ) → 0 < length (digits n)
unfolding digits
digits_some n = elim (Bool-cases (ltb n 10)) [
  | inl small ↦ rw small (omega arith)
  | inr large ↦ let more = keeps_rest n (n / 10) (n % 10 ∷ []) in rw large (omega arith)
]

pub value_from-zeros : (k : ℕ) (ds : List ℕ) → value_from 0 (zeros k ++ ds) ≡ value_from 0 ds
unfolding value_from zeros
value_from-zeros zero ds = refl
value_from-zeros (suc k) ds = value_from-zeros k ds

pub length-zeros : (k : ℕ) → length (zeros k) ≡ k
unfolding zeros
length-zeros zero = refl
length-zeros (suc k) = ap suc (length-zeros k)

-- Digits followed by zeros.
pub value_from_shift :
    (n k : ℕ) (ds : List ℕ) → value_from n (ds ++ zeros k) ≡ value_from n ds * 10 ^ k
unfolding value_from zeros
value_from_shift n zero [] = omega arith
value_from_shift n (suc k) [] =
    value_from_shift (n * 10 + 0) k []
    ∙ ap (λ m. m * 10 ^ k) (plus_zero (n * 10))
    ∙ mul_assoc n 10 (10 ^ k)
    ∙ ap (λ m. n * m) (sym (pow-succ' 10 k))
value_from_shift n k (d ∷ ds) = value_from_shift (n * 10 + d) k ds
