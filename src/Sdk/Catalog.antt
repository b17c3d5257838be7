-- ===== src/Sdk/Catalog.antt =====
-- sdk/src/catalog.ts: the listed series, seeded from the indexer and followed from the registry's logs.
-- The indexer's answers are arguments, already converted to records.
pub mod Tests
use optara.Common.{
  ℕ, zero, ◌+◌, ◌-◌, ◌*◌, ◌/◌, ◌≤◌, ◌<◌, ◌≡◌, refl, Bool, true, false, ◌&&◌, Option, none, some,
  List, [], ◌∷◌, ◌++◌, map, length, get_elem?, get_or, ltb, leb, ◌==◌, if◌then◌else◌, get_key,
  set_key, add_to, elem, arith, lt→ltb,
}
use optara.Sdk.Scan.{Scanned, scan}
use optara.Sdk.Ledger.{insert, sort}

pub record ListedSeries : Type 0 where
  pub series_id : ℕ
  pub group_id : ℕ
  pub product_id : ℕ
  pub underlying : ℕ
  pub settlement_asset : ℕ
  pub settlement_oracle_config_id : ℕ
  pub wrapper : ℕ
  pub option_type : ℕ
  pub strike_wad : ℕ
  pub contract_size_wad : ℕ
  pub expiry : ℕ

-- `this.series`.
abbrev pub SeriesMap : Type 0
SeriesMap = List (ℕ × ListedSeries)

unfoldable pub put_series : ListedSeries → SeriesMap → SeriesMap
put_series s m = set_key m s.series_id s

unfoldable pub put_rows : List ListedSeries → SeriesMap → SeriesMap
unfolding put_series
put_rows [] m = m
put_rows (r ∷ rows) m = put_rows rows (put_series r m)

-- `none` where the source throws: the indexer has not processed any block yet.
unfoldable pub seed_from_indexer :
    List ListedSeries → ℕ → Scanned SeriesMap → Option (ℕ × Scanned SeriesMap)
unfolding put_rows
seed_from_indexer rows progress s =
    if progress == 0
    then none
    else some (
      length rows,
      record {
        next = if ltb s.next (progress + 1) then progress + 1 else s.next;
        state = put_rows rows s.state;
      },
    )

unfoldable pub sync_series :
    (get_logs : (from to : ℕ) → List ListedSeries) (fuel chunk head : ℕ)
    → Scanned SeriesMap
    → Option (Scanned SeriesMap)
unfolding scan put_series
sync_series get_logs fuel chunk head = scan get_logs put_series fuel chunk head

-- The groups' series, in the order of the groups' first series.
abbrev or_none : Option (List ListedSeries) → List ListedSeries
or_none none = []
or_none (some xs) = xs

unfoldable pub group_rows : SeriesMap → List (ℕ × List ListedSeries) → List (ℕ × List ListedSeries)
group_rows [] m = m
group_rows ((id, s) ∷ rest) m =
    group_rows rest (set_key m s.group_id (or_none (get_key m s.group_id) ++ s ∷ []))

pub record SeriesGroup : Type 0 where
  pub group_id : ℕ
  pub expiry : ℕ
  pub settlement_oracle_config_id : ℕ
  pub underlying : ℕ
  pub settlement_asset : ℕ
  pub series : List ListedSeries

-- A group has the terms of its first series, which there always is.
unfoldable pub groups_of : List (ℕ × List ListedSeries) → List SeriesGroup
groups_of [] = []
groups_of ((id, []) ∷ rest) = groups_of rest
groups_of ((id, s ∷ more) ∷ rest) =
    record {
      group_id = id;
      expiry = s.expiry;
      settlement_oracle_config_id = s.settlement_oracle_config_id;
      underlying = s.underlying;
      settlement_asset = s.settlement_asset;
      series = s ∷ more;
    }
    ∷ groups_of rest

unfoldable pub groups : SeriesMap → List SeriesGroup
unfolding group_rows groups_of
groups m = groups_of (group_rows m [])

unfoldable pub add_expiries : ℕ → ℕ → SeriesMap → List ℕ → List ℕ
add_expiries product_id after [] out = out
add_expiries product_id after ((id, s) ∷ rest) out =
    add_expiries product_id after rest
      (if (s.product_id == product_id) && ltb after s.expiry then add_to s.expiry out else out)

unfoldable pub expiries : ℕ → ℕ → SeriesMap → List ℕ
unfolding add_expiries sort
expiries product_id after m = sort (add_expiries product_id after m [])

-- `Math.round(last / 3)` and `Math.round((2 * last) / 3)`.
abbrev pub third : ℕ → ℕ
third last = (2 * last + 3) / 6

abbrev pub two_thirds : ℕ → ℕ
two_thirds last = (4 * last + 3) / 6

unfoldable pub tenor_picks : ℕ → List ℕ
unfolding sort
tenor_picks last = sort (add_to last (add_to (two_thirds last) (add_to (third last) (add_to 0 []))))

unfoldable pub choose_tenors : List ℕ → List ℕ
unfolding tenor_picks
choose_tenors es =
    if leb (length es) 4 then es else map (λ i. get_or es i 0) (tenor_picks (length es - 1))

distinct : (a b : ℕ) → a < b → (a == b) ≡ false
distinct a b h = ground arith

sorted_picks :
    (a b c : ℕ)
    → 0 < a
    → a < b
    → b < c
    → sort (add_to c (add_to b (add_to a (add_to 0 [])))) ≡ 0 ∷ a ∷ b ∷ c ∷ []
unfolding sort insert
sorted_picks a b c h k l =
    let f₁ = distinct 0 a h in
    let f₂ = distinct 0 b (omega arith) in
    let f₃ = distinct a b k in
    let f₄ = distinct 0 c (omega arith) in
    let f₅ = distinct a c (omega arith) in
    let f₆ = distinct b c l in
    rw f₁ (
      rw (f₂, f₃)
        (rw (f₄, f₅, f₆) (rw (lt→ltb _ _ l) (rw (lt→ltb _ _ k) (rw (lt→ltb _ _ h) refl)))))

-- Of five expiries or more, four are picked, in order: the first, one at a third, one at two thirds and the
-- last.
pub tenor_picks_lem :
    (last : ℕ)
    → 4 ≤ last
    → (tenor_picks last ≡ 0 ∷ third last ∷ two_thirds last ∷ last ∷ [])
      × (0 < third last)
      × (third last < two_thirds last)
      × (two_thirds last < last)
unfolding tenor_picks
tenor_picks_lem last le =
    let a : 0 < third last = omega arith in
    let b : third last < two_thirds last = omega arith in
    let c : two_thirds last < last = omega arith in
    (sorted_picks (third last) (two_thirds last) last a b c, a, b, c)
