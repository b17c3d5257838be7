-- ===== src/Indexer/Registry.antt =====
-- indexer/src/handlers/Registry.ts: products, settlement groups and series as they are listed.
use Prim.Native.String.{String}
use optara.Common.{ℕ, Bool, true, false, Option, none, some, ◌∷◌}
use optara.Common.Int.{pos}
use optara.Indexer.Entities.{single, Log, Product, Series}
use optara.Indexer.Store.{EntityStore, Context, zero32}
use optara.Indexer.Governance.{update_product}

pub record ProductApproved : Type 0 where
  pub product_id : ℕ
  pub underlying : ℕ
  pub settlement_asset : ℕ
  pub underlying_symbol : String
  pub asset_symbol : String

-- `existing?.field ?? default`, for every field that an approval keeps.
pub approved : ProductApproved → Option Product → Product
approved p none = record {
  id = single p.product_id;
  underlying = p.underlying;
  settlement_asset = p.settlement_asset;
  underlying_symbol = p.underlying_symbol;
  asset_symbol = p.asset_symbol;
  enabled = true;
  close_only = false;
  emergency = false;
  spot_price_wad = 0;
  spot_publish_time = 0;
  surface_seq = 0;
  surface_valid_after = 0;
  surface_expires_at = 0;
  surface_low_confidence = false;
  short_cap_underlying_wad = 0;
  risk_parameter_set_id = zero32;
}
approved p (some existing) = record existing {
  id = single p.product_id;
  underlying = p.underlying;
  settlement_asset = p.settlement_asset;
  underlying_symbol = p.underlying_symbol;
  asset_symbol = p.asset_symbol;
  enabled = true;
}

pub record GroupCreated : Type 0 where
  pub group_id : ℕ
  pub underlying : ℕ
  pub settlement_asset : ℕ
  pub expiry : ℕ
  pub settlement_oracle_config_id : ℕ

pub record SeriesCreated : Type 0 where
  pub series_id : ℕ
  pub group_id : ℕ
  pub wrapper : ℕ
  pub vol_surface_product_id : ℕ
  pub underlying : ℕ
  pub settlement_asset : ℕ
  pub option_type : ℕ
  pub strike_wad : ℕ
  pub contract_size_wad : ℕ
  pub expiry : ℕ
  pub settlement_oracle_config_id : ℕ
  pub risk_parameter_set_id : ℕ

unfoldable pub new_series : SeriesCreated → Log → Series
new_series p event = record {
  id = single p.series_id;
  group_id = p.group_id;
  product_id = p.vol_surface_product_id;
  underlying = p.underlying;
  settlement_asset = p.settlement_asset;
  wrapper = p.wrapper;
  option_type = p.option_type;
  strike_wad = p.strike_wad;
  contract_size_wad = p.contract_size_wad;
  expiry = p.expiry;
  settlement_oracle_config_id = p.settlement_oracle_config_id;
  risk_parameter_set_id = p.risk_parameter_set_id;
  created_at = event.timestamp;
  wrapper_supply = pos 0;
  internal_long = pos 0;
  internal_short = pos 0;
}

module _ (e : EntityStore) where
  unfoldable pub product_approved : ProductApproved → Log → Context e → Context e
  unfolding approved
  product_approved p event c =
      let id = single p.product_id in
      record c { products = e.set c.products id (approved p (e.get c.products id)) }

  unfoldable pub product_enabled : (product_id : ℕ) → Bool → Log → Context e → Context e
  unfolding update_product
  product_enabled product_id enabled event =
      update_product e product_id λ p. record p { enabled = enabled }

  unfoldable pub group_created : GroupCreated → Log → Context e → Context e
  group_created p event c = record c {
    groups = e.set c.groups (single p.group_id) (record {
      id = single p.group_id;
      underlying = p.underlying;
      settlement_asset = p.settlement_asset;
      expiry = p.expiry;
      settlement_oracle_config_id = p.settlement_oracle_config_id;
      participants = 0;
      finalized = false;
      finalized_at = 0;
      price_wad = 0;
      observation_time = 0;
      participants_at_finalization = 0;
      stalled = false;
      ratio_set = false;
      ratio_wad = 0;
      gross_claim = 0;
      collected = 0;
      insurance = 0;
      dust_swept = 0;
    });
  }

  -- `contractRegister` of SeriesCreated, and its handler.
  unfoldable pub watch_wrapper : ℕ → Context e → Context e
  watch_wrapper wrapper c = record c {
    watched = record c.watched { wrappers = wrapper ∷ c.watched.wrappers };
  }

  unfoldable pub series_created : SeriesCreated → Log → Context e → Context e
  unfolding new_series
  series_created p event c = record c {
    series = e.set c.series (single p.series_id) (new_series p event);
  }
