-- ===== src/Frontend/Format.antt =====
-- frontend/src/lib/optara/format.ts: `fmtFixed`, `parseFixed`, `parseQty` and the quantity steps. A string is a
-- list of glyphs, a digit being a number below ten.
pub mod Digits
pub mod Proofs
mod Tests
use optara.Common.{
  ℕ, zero, suc, ◌+◌, ◌-◌, ◌*◌, ◌/◌, ◌%◌, ◌^◌, min, Bool, true, false, not, ◌&&◌, ◌||◌, Option, none,
  some, List, [], ◌∷◌, ◌++◌, map, length, ltb, leb, ◌==◌, if◌then◌else◌,
}
use optara.Common.Int.{ℤ, pos, negsuc, pos_part, neg_part}

pub data Glyph : Type 0 where
  digit : ℕ → Glyph
  comma dot minus space other : Glyph

-- `toString` of a number: its decimal digits, the last of them first put on `rest`. One more than the number
-- is fuel enough.
unfoldable pub digits_onto : ℕ → ℕ → List ℕ → List ℕ
digits_onto zero n rest = rest
digits_onto (suc fuel) n rest =
    let more = digits_onto fuel (n / 10) (n % 10 ∷ rest) in if ltb n 10 then n % 10 ∷ rest else more

unfoldable pub digits : ℕ → List ℕ
unfolding digits_onto
digits n = digits_onto (suc n) n []

unfoldable pub zeros : ℕ → List ℕ
zeros zero = []
zeros (suc n) = 0 ∷ zeros n

-- `padStart(shown, "0")`.
unfoldable pub pad_start : ℕ → List ℕ → List ℕ
unfolding zeros
pad_start shown ds = zeros (shown - length ds) ++ ds

-- A comma before every group of three digits that others precede.
unfoldable pub group : List ℕ → List Glyph
group [] = []
group (d ∷ ds) =
    let rest = group ds in
    if (length ds % 3 == 0) && ltb 0 (length ds) then digit d ∷ comma ∷ rest else digit d ∷ rest

-- The value with the decimals that are shown, rounded half away from zero.
unfoldable pub shown_value : ℕ → (decimals dp : ℕ) → ℕ
shown_value x decimals dp = let q = 10 ^ (decimals - min dp decimals) in (x + q / 2) / q

abbrev pub fraction : ℕ → ℕ → List Glyph
fraction shown part = if ltb 0 shown then dot ∷ map digit (pad_start shown (digits part)) else []

unfoldable pub fmt_fixed : ℤ → (decimals dp : ℕ) → List Glyph
unfolding shown_value digits pad_start group
fmt_fixed x decimals dp =
    let shown = min dp decimals in
    let v = shown_value (pos_part x + neg_part x) decimals dp in
    let unit = 10 ^ shown in
    (if ltb 0 (neg_part x) && ltb 0 v then minus ∷ [] else [])
    ++ group (digits (v / unit))
    ++ fraction shown (v % unit)

-- `trim`.
abbrev pub is_space : Glyph → Bool
is_space space = true
is_space _ = false

unfoldable pub trim_start : List Glyph → List Glyph
trim_start [] = []
trim_start (c ∷ s) = let rest = trim_start s in if is_space c then rest else c ∷ s

abbrev pub put_unless_space : Glyph → List Glyph → List Glyph
put_unless_space c [] = if is_space c then [] else c ∷ []
put_unless_space c (d ∷ s) = c ∷ d ∷ s

unfoldable pub trim_end : List Glyph → List Glyph
trim_end [] = []
trim_end (c ∷ s) = put_unless_space c (trim_end s)

unfoldable pub strip_commas : List Glyph → List Glyph
strip_commas [] = []
strip_commas (comma ∷ s) = strip_commas s
strip_commas (c ∷ s) = c ∷ strip_commas s

abbrev pub cons_digit : ℕ → Option (List ℕ) → Option (List ℕ)
cons_digit d none = none
cons_digit d (some ds) = some (d ∷ ds)

unfoldable pub all_digits : List Glyph → Option (List ℕ)
all_digits [] = some []
all_digits (digit d ∷ s) = cons_digit d (all_digits s)
all_digits (_ ∷ s) = none

abbrev pub cons_whole : ℕ → Option (List ℕ × List ℕ) → Option (List ℕ × List ℕ)
cons_whole d none = none
cons_whole d (some (i, f)) = some (d ∷ i, f)

abbrev pub whole_and : Option (List ℕ) → Option (List ℕ × List ℕ)
whole_and none = none
whole_and (some f) = some ([], f)

-- The digits before and after the point, where the text is digits with at most one point.
unfoldable pub split_point : List Glyph → Option (List ℕ × List ℕ)
unfolding all_digits
split_point [] = some ([], [])
split_point (digit d ∷ s) = cons_whole d (split_point s)
split_point (dot ∷ s) = whole_and (all_digits s)
split_point (_ ∷ s) = none

-- `BigInt` of a text of digits.
unfoldable pub value_from : ℕ → List ℕ → ℕ
value_from n [] = n
value_from n (d ∷ ds) = value_from (n * 10 + d) ds

-- The number of the two parts; `none` where both are empty or there are too many decimals.
abbrev pub number_of : ℕ → Option (List ℕ × List ℕ) → Option ℕ
number_of decimals none = none
number_of decimals (some (i, f)) =
    if (length i == 0) && (length f == 0)
    then none
    else if ltb decimals (length f)
    then none
    else some (value_from 0 i * 10 ^ decimals + value_from 0 (f ++ zeros (decimals - length f)))

unfoldable pub parse_fixed : List Glyph → (decimals : ℕ) → Option ℕ
unfolding trim_start trim_end strip_commas split_point value_from zeros
parse_fixed input decimals =
    number_of decimals (split_point (strip_commas (trim_end (trim_start input))))

-- `/^\d*,\d{1,2}$/`, with the comma replaced by a point.
unfoldable pub decimal_comma : List Glyph → Option (List Glyph)
decimal_comma [] = none
decimal_comma (digit d ∷ s) = elim (decimal_comma s) [ none ↦ none | some t ↦ some (digit d ∷ t) ]
decimal_comma (comma ∷ digit a ∷ []) = some (dot ∷ digit a ∷ [])
decimal_comma (comma ∷ digit a ∷ digit b ∷ []) = some (dot ∷ digit a ∷ digit b ∷ [])
decimal_comma _ = none

abbrev pub or_text : Option (List Glyph) → List Glyph → List Glyph
or_text none t = t
or_text (some s) t = s

unfoldable pub parse_qty : List Glyph → Option ℕ
unfolding decimal_comma parse_fixed
parse_qty input =
    let t = trim_end (trim_start input) in parse_fixed (or_text (decimal_comma t) t) 18

-- A step of 0.01 option.
abbrev pub qty_step : ℕ
qty_step = 10 ^ 16

pub has_step_error : Option ℕ → Bool
has_step_error none = false
has_step_error (some qty) = ltb 0 qty && not (qty % qty_step == 0)

pub round_down_qty : ℕ → ℕ
round_down_qty qty = qty - qty % qty_step
