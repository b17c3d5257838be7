-- ===== src/Indexer/Settlement.antt =====
-- indexer/src/handlers/Settlement.ts: what happens to a settlement group after its expiry. A handler
-- whose group must exist (`getOrThrow`) returns `none` where that throws.
use optara.Common.{ℕ, true, Option, none, some}
use optara.Common.Int.{ℤ, pos}
use optara.Indexer.Entities.{
  single, Log, Series, SettlementGroup, SettlementEvent, SettlementKind, settled, claimed, redeemed,
}
use optara.Indexer.Store.{EntityStore, Context, log_id, zero32, zero_address}

pub record RecoveryRatioSet : Type 0 where
  pub group_id : ℕ
  pub ratio_wad : ℕ
  pub gross_claim : ℕ
  pub collected : ℕ
  pub insurance_contribution : ℕ

pub record AccountSettled : Type 0 where
  pub group_id : ℕ
  pub account_id : ℕ
  pub net_numerator : ℤ
  pub collected : ℕ
  pub unpaid : ℕ

-- `{ id: logId(event), kind, groupId, ...blank, timestamp }`.
pub blank_event : Log → SettlementKind → ℕ → SettlementEvent
blank_event event kind group_id = record {
  id = log_id event;
  kind = kind;
  group_id = group_id;
  account_id = 0;
  series_id = zero32;
  holder = zero_address;
  net_numerator = pos 0;
  amount = 0;
  unpaid = 0;
  timestamp = event.timestamp;
}

-- `series?.group_id ?? ZERO32`.
abbrev pub group_of : Option Series → ℕ
group_of none = zero32
group_of (some s) = s.group_id

module _ (e : EntityStore) where
  unfoldable pub update_group :
      ℕ → (SettlementGroup → SettlementGroup) → Context e → Option (Context e)
  update_group group_id change c = elim (e.get c.groups (single group_id)) [
    | none ↦ none
    | some g ↦ some (record c { groups = e.set c.groups g.id (change g) })
  ]

  pub put_settlement : Log → SettlementEvent → Context e → Context e
  put_settlement event s c = record c {
    settlement_events = e.set c.settlement_events (log_id event) s;
  }

  unfoldable pub group_finalized :
      (group_id price_wad observation_time participants : ℕ) → Log → Context e → Option (Context e)
  unfolding update_group
  group_finalized group_id price_wad observation_time participants event =
      update_group group_id λ g. record g {
        finalized = true;
        finalized_at = event.timestamp;
        price_wad = price_wad;
        observation_time = observation_time;
        participants_at_finalization = participants;
      }

  unfoldable pub oracle_stalled : (group_id : ℕ) → Log → Context e → Option (Context e)
  unfolding update_group
  oracle_stalled group_id event = update_group group_id λ g. record g { stalled = true }

  unfoldable pub recovery_ratio_set : RecoveryRatioSet → Log → Context e → Option (Context e)
  unfolding update_group
  recovery_ratio_set p event = update_group p.group_id λ g. record g {
    ratio_set = true;
    ratio_wad = p.ratio_wad;
    gross_claim = p.gross_claim;
    collected = p.collected;
    insurance = p.insurance_contribution;
  }

  unfoldable pub dust_swept : (group_id amount : ℕ) → Log → Context e → Option (Context e)
  unfolding update_group
  dust_swept group_id amount event = update_group group_id λ g. record g { dust_swept = amount }

  unfoldable pub account_settled : AccountSettled → Log → Context e → Context e
  unfolding blank_event put_settlement
  account_settled p event =
      let row = blank_event event settled p.group_id in
      put_settlement event (record row {
        account_id = p.account_id;
        net_numerator = p.net_numerator;
        amount = p.collected;
        unpaid = p.unpaid;
      })

  unfoldable pub settlement_claimed : (group_id account_id amount : ℕ) → Log → Context e → Context e
  unfolding blank_event put_settlement
  settlement_claimed group_id account_id amount event =
      let row = blank_event event claimed group_id in
      put_settlement event (record row { account_id = account_id; amount = amount })

  unfoldable pub wrapper_redeemed : (series_id holder qty payout : ℕ) → Log → Context e → Context e
  unfolding blank_event put_settlement
  wrapper_redeemed series_id holder qty payout event c =
      let row = blank_event event redeemed (group_of (e.get c.series (single series_id))) in
      put_settlement event
        (record row {
          series_id = series_id;
          holder = holder;
          amount = payout;
          net_numerator = pos qty;
        })
        c
