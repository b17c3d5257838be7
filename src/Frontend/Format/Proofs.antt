-- ===== src/Frontend/Format/Proofs.antt =====
-- frontend/src/lib/optara/format.ts: what `fmtFixed` prints, `parseFixed` reads as the value that was rounded.
use native.Mathlib.Nat.{add-mul, mul-one, pow-suc, mul_assoc, mod-lt, div-add-mod', one-le-pow}
use optara.Common.{
  ℕ, zero, suc, ◌+◌, ◌-◌, ◌*◌, ◌/◌, ◌%◌, ◌^◌, ◌≤◌, ◌<◌, min, true, false, ◌&&◌, some, List, [], ◌∷◌,
  ◌++◌, map, length, length-append, All, ltb, ◌==◌, if◌then◌else◌, ◌≡◌, refl, sym, ap, ap₂, ◌∙◌,
  inl, inr, arith, Bool-cases, lt→ltb,
}
use optara.Common.Int.{pos}
use optara.Frontend.Format.{
  Glyph, digit, dot, digits, zeros, pad_start, group, shown_value, fraction, fmt_fixed, is_space,
  trim_start, put_unless_space, trim_end, strip_commas, all_digits, cons_digit, cons_whole,
  whole_and, split_point, value_from, number_of, parse_fixed,
}
use optara.Frontend.Format.Digits.{
  value_from-digits, length-digits, digits_some, value_from-zeros, length-zeros, value_from_shift,
}

abbrev AllPlain : List Glyph → Type 0
AllPlain s = All (λ c. is_space c ≡ false) s

plain_start : (s : List Glyph) → AllPlain s → trim_start s ≡ s
unfolding trim_start
plain_start [] h = refl
plain_start (c ∷ s) h = rw h.0 refl

put_plain : (c : Glyph) (s : List Glyph) → is_space c ≡ false → put_unless_space c s ≡ c ∷ s
put_plain c [] h = rw h refl
put_plain c (d ∷ s) h = refl

plain_end : (s : List Glyph) → AllPlain s → trim_end s ≡ s
unfolding trim_end
plain_end [] h = refl
plain_end (c ∷ s) h = ap (put_unless_space c) (plain_end s h.1) ∙ put_plain c s h.0

plain_append : (s t : List Glyph) → AllPlain s → AllPlain t → AllPlain (s ++ t)
plain_append [] t h k = k
plain_append (c ∷ s) t h k = (h.0, plain_append s t h.1 k)

plain_group : (ds : List ℕ) → AllPlain (group ds)
unfolding group
plain_group [] = tt
plain_group (d ∷ ds) =
    let rest = plain_group ds in
    elim (Bool-cases ((length ds % 3 == 0) && ltb 0 (length ds))) [
      | inl here ↦ rw here (refl, (refl, rest))
      | inr not_here ↦ rw not_here (refl, rest)
    ]

plain_digits : (ds : List ℕ) → AllPlain (map digit ds)
plain_digits [] = tt
plain_digits (d ∷ ds) = (refl, plain_digits ds)

strip-group :
    (ds : List ℕ) (t : List Glyph) → strip_commas (group ds ++ t) ≡ map digit ds ++ strip_commas t
unfolding group strip_commas
strip-group [] t = refl
strip-group (d ∷ ds) t =
    let rest = strip-group ds t in
    elim (Bool-cases ((length ds % 3 == 0) && ltb 0 (length ds))) [
      | inl here ↦ rw here (ap (λ s. digit d ∷ s) rest)
      | inr not_here ↦ rw not_here (ap (λ s. digit d ∷ s) rest)
    ]

strip-digits : (ds : List ℕ) → strip_commas (map digit ds) ≡ map digit ds
unfolding strip_commas
strip-digits [] = refl
strip-digits (d ∷ ds) = ap (λ s. digit d ∷ s) (strip-digits ds)

all_digits-map : (ds : List ℕ) → all_digits (map digit ds) ≡ some ds
unfolding all_digits
all_digits-map [] = refl
all_digits-map (d ∷ ds) = ap (cons_digit d) (all_digits-map ds)

split_whole : (ds : List ℕ) → split_point (map digit ds ++ []) ≡ some (ds, [])
unfolding split_point
split_whole [] = refl
split_whole (d ∷ ds) = ap (cons_whole d) (split_whole ds)

split_both : (ds fs : List ℕ) → split_point (map digit ds ++ dot ∷ map digit fs) ≡ some (ds, fs)
unfolding split_point
split_both [] fs = ap whole_and (all_digits-map fs)
split_both (d ∷ ds) fs = ap (cons_whole d) (split_both ds fs)

abbrev decimals_of : ℕ → ℕ → List ℕ
decimals_of shown part = if ltb 0 shown then pad_start shown (digits part) else []

read_plain :
    (whole : List ℕ) (t u : List Glyph)
    → AllPlain t
    → strip_commas t ≡ u
    → split_point (strip_commas (trim_end (trim_start (group whole ++ t))))
      ≡ split_point (map digit whole ++ u)
read_plain whole t u plain stripped =
    let s = group whole ++ t in
    let all = plain_append (group whole) t (plain_group whole) plain in
    ap (λ s. split_point (strip_commas (trim_end s))) (plain_start s all)
    ∙ ap (λ s. split_point (strip_commas s)) (plain_end s all)
    ∙ ap split_point (strip-group whole t ∙ ap (λ u. map digit whole ++ u) stripped)

-- The text of a whole part and a fraction is read as their digits.
read_back :
    (whole : List ℕ) (shown part : ℕ)
    → split_point (strip_commas (trim_end (trim_start (group whole ++ fraction shown part))))
      ≡ some (whole, decimals_of shown part)
unfolding strip_commas
read_back whole shown part =
    let fs = pad_start shown (digits part) in
    elim (Bool-cases (ltb 0 shown)) [
      | inl some_shown ↦ rw some_shown (
          read_plain whole (dot ∷ map digit fs) (dot ∷ map digit fs) (refl, plain_digits fs)
            (ap (λ t. dot ∷ t) (strip-digits fs))
          ∙ split_both whole fs)
      | inr none_shown ↦ rw none_shown (read_plain whole [] [] tt refl ∙ split_whole whole)
    ]

-- The fraction has as many digits as are shown, and they are worth the part.
decimals_facts :
    (shown part : ℕ)
    → part < 10 ^ shown
    → (length (decimals_of shown part) ≡ shown) × (value_from 0 (decimals_of shown part) ≡ part)
unfolding pad_start value_from
decimals_facts zero part h = (refl, omega (arith, h))
decimals_facts (suc k) part h =
    let ds = digits part in
    let few = length-digits part k h in
    let positive : ltb 0 (suc k) ≡ true = lt→ltb 0 (suc k) (omega arith) in
    rw positive (
      length-append (zeros (suc k - length ds)) ds
          ∙ ap (λ n. n + length ds) (length-zeros (suc k - length ds))
          ∙ omega arith,
      value_from-zeros (suc k - length ds) ds ∙ value_from-digits part,
    )

plus_zero : (n : ℕ) → n + 0 ≡ n
plus_zero n = omega arith

plus_suc : (a b : ℕ) → a + suc b ≡ suc (a + b)
plus_suc a b = omega arith

pow_sum : (a b : ℕ) → 10 ^ (a + b) ≡ 10 ^ a * 10 ^ b
pow_sum a zero = ap (λ n. 10 ^ n) (plus_zero a) ∙ sym (mul-one (10 ^ a))
pow_sum a (suc b) =
    ap (λ n. 10 ^ n) (plus_suc a b)
    ∙ pow-suc 10 (a + b)
    ∙ ap (λ n. n * 10) (pow_sum a b)
    ∙ mul_assoc (10 ^ a) (10 ^ b) 10
    ∙ ap (λ n. 10 ^ a * n) (sym (pow-suc 10 b))

-- The two parts of a value, each at its place, make the value.
parts_sum :
    (v shown rest : ℕ)
    → v / 10 ^ shown * 10 ^ (shown + rest) + v % 10 ^ shown * 10 ^ rest ≡ v * 10 ^ rest
parts_sum v shown rest =
    let unit = 10 ^ shown in
    ap (λ n. v / unit * n + v % unit * 10 ^ rest) (pow_sum shown rest)
    ∙ ap (λ n. n + v % unit * 10 ^ rest) (sym (mul_assoc (v / unit) unit (10 ^ rest)))
    ∙ sym (add-mul (v / unit * unit) (v % unit) (10 ^ rest))
    ∙ ap (λ n. n * 10 ^ rest) (div-add-mod' v unit)

split_decimals : (decimals shown : ℕ) → shown ≤ decimals → decimals ≡ shown + (decimals - shown)
split_decimals decimals shown h = omega arith

number_of-some :
    (decimals : ℕ) (whole fs : List ℕ)
    → 0 < length whole
    → length fs ≤ decimals
    → number_of decimals (some (whole, fs))
      ≡ some (value_from 0 whole * 10 ^ decimals + value_from 0 fs * 10 ^ (decimals - length fs))
number_of-some decimals whole fs h k =
    let some_whole : (length whole == 0) ≡ false = ground arith in
    let few : ltb decimals (length fs) ≡ false = ground arith in
    rw (some_whole, few)
      (ap (λ n. some (value_from 0 whole * 10 ^ decimals + n))
        (value_from_shift 0 (decimals - length fs) fs))

number_lem :
    (decimals shown v : ℕ)
    → shown ≤ decimals
    → number_of decimals (some (digits (v / 10 ^ shown), decimals_of shown (v % 10 ^ shown)))
      ≡ some (v * 10 ^ (decimals - shown))
number_lem decimals shown v h =
    let unit = 10 ^ shown in
    let whole = digits (v / unit) in
    let part = v % unit in
    let fs = decimals_of shown part in
    let positive : 0 < unit = one-le-pow shown 10 (omega arith) in
    let (size, worth) = decimals_facts shown part (mod-lt v positive) in
    let fits : length fs ≤ decimals = omega (arith, size, h) in
    let value : value_from 0 whole * 10 ^ decimals + value_from 0 fs * 10 ^ (decimals - length fs)
        ≡ v / unit * 10 ^ (shown + (decimals - shown)) + part * 10 ^ (decimals - shown) =
      ap₂ (λ a b. a + b)
        (ap₂ (λ a b. a * 10 ^ b) (value_from-digits (v / unit)) (split_decimals decimals shown h))
        (ap₂ (λ a b. a * 10 ^ (decimals - b)) worth size) in
    number_of-some decimals whole fs (digits_some (v / unit)) fits
    ∙ ap (λ n. some n) (value ∙ parts_sum v shown (decimals - shown))

-- What fmtFixed prints of a non-negative amount, at any number of decimals and of decimals
-- shown, with its commas, parseFixed reads as the amount rounded to what is shown.
pub parse_fixed-fmt_fixed :
    (x decimals dp : ℕ)
    → parse_fixed (fmt_fixed (pos x) decimals dp) decimals
      ≡ some (shown_value x decimals dp * 10 ^ (decimals - min dp decimals))
unfolding parse_fixed fmt_fixed
parse_fixed-fmt_fixed x decimals dp =
    let shown = min dp decimals in
    let v = shown_value (x + 0) decimals dp in
    ap (number_of decimals) (read_back (digits (v / 10 ^ shown)) shown (v % 10 ^ shown))
    ∙ number_lem decimals shown v (omega arith)
    ∙ ap (λ x. some (shown_value x decimals dp * 10 ^ (decimals - shown))) (plus_zero x)
