-- ===== src/Frontend/Format/Tests.antt =====
-- Amounts with two decimals, as they are printed and read.
use optara.Common.{◌*◌, ◌-◌, ◌^◌, min, none, some, [], ◌∷◌, ◌≡◌, refl}
use optara.Common.Int.{pos, negsuc}
use optara.Frontend.Format.{
  digit, comma, dot, minus, space, fmt_fixed, parse_fixed, parse_qty, shown_value,
}
use optara.Frontend.Format.Proofs.{parse_fixed-fmt_fixed}

-- 1234.56 is printed "1,234.6" with one decimal.
grouped :
    fmt_fixed (pos 123456) 2 1 ≡ digit 1 ∷ comma ∷ digit 2 ∷ digit 3 ∷ digit 4 ∷ dot ∷ digit 6 ∷ []
unfolding fmt_fixed
grouped = refl

-- -0.05 is printed "−0.1" with one decimal, and -0.04 "0.0".
negatives_left : fmt_fixed (negsuc 4) 2 1 ≡ minus ∷ digit 0 ∷ dot ∷ digit 1 ∷ []
unfolding fmt_fixed
negatives_left = refl

small_negative : fmt_fixed (negsuc 3) 2 1 ≡ digit 0 ∷ dot ∷ digit 0 ∷ []
unfolding fmt_fixed
small_negative = refl

two_points : parse_fixed (digit 1 ∷ dot ∷ digit 2 ∷ dot ∷ []) 2 ≡ none
unfolding parse_fixed
two_points = refl

too_fine : parse_fixed (digit 1 ∷ dot ∷ digit 2 ∷ digit 3 ∷ digit 4 ∷ []) 2 ≡ none
unfolding parse_fixed
too_fine = refl

trimmed : parse_fixed (space ∷ dot ∷ digit 5 ∷ space ∷ []) 2 ≡ some 50
unfolding parse_fixed
trimmed = refl

-- "0,03" is read with a decimal comma.
comma_read : parse_qty (digit 0 ∷ comma ∷ digit 0 ∷ digit 3 ∷ []) ≡ some (3 * 10 ^ 16)
unfolding parse_qty
comma_read = refl

parse_fixed-fmt_fixed_example :
    parse_fixed (fmt_fixed (pos 123456) 2 1) 2 ≡ some (shown_value 123456 2 1 * 10 ^ (2 - min 1 2))
parse_fixed-fmt_fixed_example = parse_fixed-fmt_fixed 123456 2 1
