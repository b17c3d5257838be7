-- ===== src/Sdk/Choice.antt =====
-- The settlement proof of sdk/src/settlement.ts: the primary source where its observation is valid, else
-- the fallback. The oracle's preview of the data is an argument, feeds have at most 18 decimals, and the
-- ABI encoding is left out.
pub mod Proofs
mod Tests
use Prim.Native.String.{String}
use optara.Common.{ℕ, ◌-◌, ◌*◌, ◌^◌, Bool, true, not, ◌&&◌, List, [], ◌∷◌, ltb, ◌==◌, if◌then◌else◌}
use optara.Common.Int.{ℤ, pos, pos_part, ◌+ℤ◌, leb_ℤ}
use optara.Sdk.Rounds.{Feed, RoundProof, Result, ok, ◌>>=◌, find_round_in_force}

pub record FeedSource : Type 0 where
  pub kind : ℕ
  pub feed : ℕ
  pub feed_decimals : ℕ
  pub quote_feed : ℕ
  pub quote_feed_decimals : ℕ

abbrev pub kind_none : ℕ
kind_none = 0

abbrev pub kind_derived : ℕ
kind_derived = 2

abbrev pub uint256_max : ℕ
uint256_max = 2 ^ 256 - 1

pub record Config : Type 0 where
  pub observation_start_offset : ℤ
  pub observation_end_offset : ℤ
  pub primary : FeedSource
  pub fallback_source : FeedSource
  pub max_leg_skew : ℕ

pub record SettlementData : Type 0 where
  pub source_index : ℕ
  pub primary_proofs : List RoundProof
  pub fallback_proofs : List RoundProof

pub data Preview : Type 0 where
  priced : (price_wad observation_time : ℕ) → Preview
  reverts : String → Preview

pub record SettlementProof : Type 0 where
  pub settlement_data : SettlementData
  pub source_index : ℕ
  pub preview : Preview

abbrev pub clamp : ℤ → ℕ
clamp x = pos_part x

-- A positive answer, not before the start and of a normalized size.
unfoldable pub leg_valid : ℕ → ℕ → RoundProof → Bool
leg_valid start decimals p =
    not (leb_ℤ p.answer (pos 0))
    && not (ltb p.updated_at start)
    && not (ltb uint256_max (pos_part p.answer * 10 ^ (18 - decimals)))

abbrev pub skew_of : ℕ → ℕ → ℕ
skew_of u q = if ltb q u then u - q else q - u

-- The legs of a source are one proof, or two of a derived source.
unfoldable pub source_valid : FeedSource → ℕ → List RoundProof → ℕ → Bool
unfolding leg_valid
source_valid s skew [] start = true
source_valid s skew (u ∷ []) start = leg_valid start s.feed_decimals u
source_valid s skew (u ∷ q ∷ _) start =
    leg_valid start s.feed_decimals u
    && leg_valid start s.quote_feed_decimals q
    && not (ltb skew (skew_of u.updated_at q.updated_at))

module _ (feeds : ℕ → Feed) (verify : SettlementData → Preview) where
  unfoldable pub source_proofs : FeedSource → ℕ → Result (List RoundProof)
  source_proofs s end =
      if s.kind == kind_derived
      then (find_round_in_force (feeds s.feed) end >>= λ u.
          find_round_in_force (feeds s.quote_feed) end >>= λ q. ok (u ∷ q ∷ []))
      else (find_round_in_force (feeds s.feed) end >>= λ u. ok (u ∷ []))

  abbrev pub previewed : SettlementData → SettlementProof
  previewed d = record { settlement_data = d; source_index = d.source_index; preview = verify d }

  unfoldable pub choose_source : Config → (start end : ℕ) → List RoundProof → Result SettlementProof
  unfolding source_valid source_proofs
  choose_source cfg start end primary_proofs =
      if not (source_valid cfg.primary cfg.max_leg_skew primary_proofs start)
        && not (cfg.fallback_source.kind == kind_none)
      then (source_proofs cfg.fallback_source end >>= λ proofs. ok (
          previewed (record {
            source_index = 1;
            primary_proofs = primary_proofs;
            fallback_proofs = proofs;
          })))
      else ok (
          previewed
            (record { source_index = 0; primary_proofs = primary_proofs; fallback_proofs = [] }))

  unfoldable pub build_settlement_proof : Config → ℕ → Result SettlementProof
  unfolding choose_source ◌+ℤ◌
  build_settlement_proof cfg expiry =
      let start = clamp (pos expiry +ℤ cfg.observation_start_offset) in
      let end = clamp (pos expiry +ℤ cfg.observation_end_offset) in
      source_proofs cfg.primary end >>= choose_source cfg start end
