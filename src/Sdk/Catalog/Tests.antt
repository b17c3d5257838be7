-- ===== src/Sdk/Catalog/Tests.antt =====
-- Tenors, expiries and groups of a small catalog.
use optara.Common.{ℕ, ◌≡◌, refl, [], ◌∷◌, set_key}
use optara.Sdk.Catalog.{ListedSeries, choose_tenors, put_rows, expiries}

abbrev listed : ℕ → ℕ → ListedSeries
listed series_id expiry = record {
  series_id = series_id;
  group_id = expiry;
  product_id = 1;
  underlying = 2;
  settlement_asset = 3;
  settlement_oracle_config_id = 4;
  wrapper = 5;
  option_type = 0;
  strike_wad = 6;
  contract_size_wad = 1;
  expiry = expiry;
}

expiries_of_three :
    expiries 1 10 (put_rows (listed 1 30 ∷ listed 2 20 ∷ listed 3 30 ∷ listed 4 10 ∷ []) [])
    ≡ 20 ∷ 30 ∷ []
unfolding expiries put_rows set_key
expiries_of_three = refl

tenors_of_six : choose_tenors (10 ∷ 20 ∷ 30 ∷ 40 ∷ 50 ∷ 60 ∷ []) ≡ 10 ∷ 30 ∷ 40 ∷ 60 ∷ []
unfolding choose_tenors
tenors_of_six = refl
