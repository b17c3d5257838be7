-- ===== src/Indexer/Oracles.antt =====
-- indexer/src/handlers/Oracles.ts: spot prices, surfaces and the risk settings of a product.
use Prim.Native.String.{String}
use optara.Common.{ℕ, ◌+◌, Bool, Option, none, some, if◌then◌else◌}
use optara.Indexer.Entities.{
  Key, dash, Log, Surface, emergency_on, emergency_off, short_cap_set, vol_surface_oracle,
  portfolio_risk_manager,
}
use optara.Indexer.Store.{EntityStore, Context, once}
use optara.Indexer.Governance.{update_product, put_governance}

pub record SurfaceAccepted : Type 0 where
  pub product_id : ℕ
  pub surface_seq : ℕ
  pub surface_root : ℕ
  pub valid_after : ℕ
  pub expires_at : ℕ
  pub confidence_bps : ℕ
  pub low_confidence : Bool

-- `existing?.nodesProven ?? 0`.
abbrev pub nodes_of : Option Surface → ℕ
nodes_of none = 0
nodes_of (some s) = s.nodes_proven

module _ (e : EntityStore) where
  unfoldable pub spot_updated :
      (product_id price_wad publish_time : ℕ) → Log → Context e → Context e
  unfolding update_product
  spot_updated product_id price_wad publish_time event =
      update_product e product_id
        λ p. record p { spot_price_wad = price_wad; spot_publish_time = publish_time }

  unfoldable pub surface_accepted : SurfaceAccepted → Log → Context e → Context e
  unfolding update_product
  surface_accepted p event c =
      let id = dash p.product_id p.surface_seq in
      let stored = record c {
        surfaces = e.set c.surfaces id (record {
          id = id;
          product_id = p.product_id;
          seq = p.surface_seq;
          root = p.surface_root;
          valid_after = p.valid_after;
          expires_at = p.expires_at;
          confidence_bps = p.confidence_bps;
          low_confidence = p.low_confidence;
          accepted_at = event.timestamp;
          accepted_block = event.block;
          transaction = event.tx_hash;
          nodes_proven = nodes_of (e.get c.surfaces id);
        });
      } in
      update_product e p.product_id
        (λ q. record q {
          surface_seq = p.surface_seq;
          surface_valid_after = p.valid_after;
          surface_expires_at = p.expires_at;
          surface_low_confidence = p.low_confidence;
        })
        stored

  unfoldable pub count_node : Key → Context e → Context e
  count_node id c = elim (e.get c.surfaces id) [
    | none ↦ c
    | some s ↦ record c {
      surfaces = e.set c.surfaces s.id (record s { nodes_proven = s.nodes_proven + 1 });
    }
  ]

  unfoldable pub node_proven : (product_id surface_seq : ℕ) → Log → Context e → Context e
  unfolding once count_node
  node_proven product_id surface_seq event c =
      once e c event (count_node (dash product_id surface_seq))

  unfoldable pub emergency_mode_set : (product_id : ℕ) → Bool → String → Log → Context e → Context e
  unfolding update_product put_governance
  emergency_mode_set product_id enabled detail event c =
      put_governance e (if enabled then emergency_on else emergency_off) vol_surface_oracle detail
        event (update_product e product_id (λ p. record p { emergency = enabled }) c)

  unfoldable pub product_risk_set_assigned : (product_id set_id : ℕ) → Log → Context e → Context e
  unfolding update_product
  product_risk_set_assigned product_id set_id event =
      update_product e product_id λ p. record p { risk_parameter_set_id = set_id }

  unfoldable pub product_short_cap_set :
      (product_id cap_wad : ℕ) → String → Log → Context e → Context e
  unfolding update_product put_governance
  product_short_cap_set product_id cap_wad detail event c =
      put_governance e short_cap_set portfolio_risk_manager detail event
        (update_product e product_id (λ p. record p { short_cap_underlying_wad = cap_wad }) c)
