-- ===== src/Indexer/Entities.antt =====
-- The entities that the handlers of indexer/src/handlers write. Hashes, addresses and account ids are
-- numbers. An id, a string in the source, is a `Key`: one constructor for each form of template.
pub mod Keys
use Prim.Native.String.{String}
use optara.Common.{ℕ, ◌≡◌, ◌↔◌, Bool, true, false, ◌&&◌, ◌==◌, arith}
use optara.Common.Int.{ℤ}

-- `${a}`, `${a}-${b}` and `${block}_${logIndex}`.
pub data Key : Type 0 where
  single : ℕ → Key
  dash : ℕ → ℕ → Key
  at_log : ℕ → ℕ → Key

abbrev pub key_eq : Key → Key → Bool
key_eq (single a) (single b) = a == b
key_eq (dash a b) (dash c d) = (a == c) && (b == d)
key_eq (at_log a b) (at_log c d) = (a == c) && (b == d)
key_eq _ _ = false

-- What envio tells a handler of a log besides its parameters.
pub record Log : Type 0 where
  pub block : ℕ
  pub log_index : ℕ
  pub timestamp : ℕ
  pub src_address : ℕ
  pub tx_hash : ℕ

pub record Product : Type 0 where
  pub id : Key
  pub underlying : ℕ
  pub settlement_asset : ℕ
  pub underlying_symbol : String
  pub asset_symbol : String
  pub enabled : Bool
  pub close_only : Bool
  pub emergency : Bool
  pub spot_price_wad : ℕ
  pub spot_publish_time : ℕ
  pub surface_seq : ℕ
  pub surface_valid_after : ℕ
  pub surface_expires_at : ℕ
  pub surface_low_confidence : Bool
  pub short_cap_underlying_wad : ℕ
  pub risk_parameter_set_id : ℕ

pub record SettlementGroup : Type 0 where
  pub id : Key
  pub underlying : ℕ
  pub settlement_asset : ℕ
  pub expiry : ℕ
  pub settlement_oracle_config_id : ℕ
  pub participants : ℕ
  pub finalized : Bool
  pub finalized_at : ℕ
  pub price_wad : ℕ
  pub observation_time : ℕ
  pub participants_at_finalization : ℕ
  pub stalled : Bool
  pub ratio_set : Bool
  pub ratio_wad : ℕ
  pub gross_claim : ℕ
  pub collected : ℕ
  pub insurance : ℕ
  pub dust_swept : ℕ

pub record Series : Type 0 where
  pub id : Key
  pub group_id : ℕ
  pub product_id : ℕ
  pub underlying : ℕ
  pub settlement_asset : ℕ
  pub wrapper : ℕ
  pub option_type : ℕ
  pub strike_wad : ℕ
  pub contract_size_wad : ℕ
  pub expiry : ℕ
  pub settlement_oracle_config_id : ℕ
  pub risk_parameter_set_id : ℕ
  pub created_at : ℕ
  pub wrapper_supply : ℤ
  pub internal_long : ℤ
  pub internal_short : ℤ

pub record Account : Type 0 where
  pub id : Key
  pub account_id : ℕ
  pub owner : ℕ
  pub settlement_asset : ℕ
  pub cash : ℤ
  pub created_at : ℕ

pub record Operator : Type 0 where
  pub id : Key
  pub account : ℕ
  pub operator : ℕ
  pub approved : Bool

pub record Position : Type 0 where
  pub id : Key
  pub account_id : ℕ
  pub series_id : ℕ
  pub balance : ℤ
  pub updated_at : ℕ

pub record Mint : Type 0 where
  pub id : Key
  pub account_id : ℕ
  pub series_id : ℕ
  pub qty : ℕ
  pub recipient : ℕ
  pub fee : ℕ
  pub timestamp : ℕ

pub record BalanceChange : Type 0 where
  pub id : Key
  pub account_id : ℕ
  pub series_id : ℕ
  pub delta : ℤ
  pub balance : ℤ
  pub block : ℕ
  pub timestamp : ℕ

pub record WrapperBalance : Type 0 where
  pub id : Key
  pub series_id : Key
  pub holder : ℕ
  pub balance : ℤ

pub record Surface : Type 0 where
  pub id : Key
  pub product_id : ℕ
  pub seq : ℕ
  pub root : ℕ
  pub valid_after : ℕ
  pub expires_at : ℕ
  pub confidence_bps : ℕ
  pub low_confidence : Bool
  pub accepted_at : ℕ
  pub accepted_block : ℕ
  pub transaction : ℕ
  pub nodes_proven : ℕ

pub record Auction : Type 0 where
  pub id : Key
  pub account_id : ℕ
  pub underlying : ℕ
  pub active : Bool
  pub start_time : ℕ
  pub start_equity : ℤ
  pub start_maintenance_margin : ℕ
  pub slices : ℕ
  pub wrapper_liquidations : ℕ
  pub ended_at : ℕ
  pub end_reason : ℕ

pub data LiquidationKind : Type 0 where
  slice wrapper_slice bad_debt : LiquidationKind

pub record Liquidation : Type 0 where
  pub id : Key
  pub kind : LiquidationKind
  pub account_id : ℕ
  pub underlying : ℕ
  pub series_id : ℕ
  pub liquidator_account_id : ℕ
  pub slice_bps : ℕ
  pub qty : ℕ
  pub slice_mark : ℤ
  pub slice_mm : ℕ
  pub discount : ℕ
  pub penalty : ℕ
  pub cash_to_liquidator : ℤ
  pub insurance : ℕ
  pub unpaid : ℕ
  pub timestamp : ℕ

pub data FeeKind : Type 0 where
  seller buyer keeper_reward split : FeeKind

pub record Fee : Type 0 where
  pub id : Key
  pub kind : FeeKind
  pub asset : ℕ
  pub account_id : ℕ
  pub payer : ℕ
  pub series_id : ℕ
  pub amount : ℕ
  pub to_insurance : ℕ
  pub to_treasury : ℕ
  pub to_keeper : ℕ
  pub timestamp : ℕ

pub record Insurance : Type 0 where
  pub id : Key
  pub deposited : ℕ
  pub from_fees : ℕ
  pub paid : ℕ
  pub minimum_seed : ℕ
  pub minimum_keeper_reserve : ℕ

pub record ProcessedLog : Type 0 where
  pub id : Key

pub data SettlementKind : Type 0 where
  settled claimed redeemed : SettlementKind

pub record SettlementEvent : Type 0 where
  pub id : Key
  pub kind : SettlementKind
  pub group_id : ℕ
  pub account_id : ℕ
  pub series_id : ℕ
  pub holder : ℕ
  pub net_numerator : ℤ
  pub amount : ℕ
  pub unpaid : ℕ
  pub timestamp : ℕ

pub record Market : Type 0 where
  pub id : Key
  pub venue_id : ℕ
  pub series_id : ℕ
  pub market : ℕ
  pub status : ℕ

pub data OrderStatus : Type 0 where
  is_open is_partial is_filled is_cancelled : OrderStatus

pub record KuruOrder : Type 0 where
  pub id : Key
  pub market : ℕ
  pub series_id : ℕ
  pub order_id : ℕ
  pub owner : ℕ
  pub is_buy : Bool
  pub price_units : ℕ
  pub size_units : ℕ
  pub remaining_units : ℕ
  pub filled_units : ℕ
  pub status : OrderStatus
  pub created_block : ℕ
  pub updated_block : ℕ
  pub tx_hash : ℕ
  pub created_at : ℕ
  pub updated_at : ℕ

pub record Trade : Type 0 where
  pub id : Key
  pub venue_id : ℕ
  pub series_id : ℕ
  pub trader : ℕ
  pub recipient : ℕ
  pub is_buy : Bool
  pub qty : ℕ
  pub premium : ℕ
  pub buyer_fee : ℕ
  pub venue_fee : ℕ
  pub timestamp : ℕ

pub data GovernanceKind : Type 0 where
  close_only_set role_granted role_revoked paused unpaused : GovernanceKind
  upgrade_scheduled upgrade_executed upgrade_cancelled implementation_allowed : GovernanceKind
  governance_transferred emergency_on emergency_off short_cap_set : GovernanceKind
  publisher_added publisher_removed quorum_set : GovernanceKind

pub data Contract : Type 0 where
  protocol_control upgrade_admin vol_surface_oracle portfolio_risk_manager : Contract

pub record GovernanceEvent : Type 0 where
  pub id : Key
  pub kind : GovernanceKind
  pub contract : Contract
  pub detail : String
  pub timestamp : ℕ
