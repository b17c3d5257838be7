-- ===== src/Indexer/Fees.antt =====
-- indexer/src/handlers/Fees.ts: fees charged, and the insurance tallies of an asset.
pub mod Tally
use optara.Common.{ℕ, ◌+◌, Option, none, some}
use optara.Indexer.Entities.{
  Key, single, Log, Fee, FeeKind, seller, buyer, keeper_reward, split, Insurance,
}
use optara.Indexer.Store.{EntityStore, Context, log_id, zero32, once}

abbrev pub fresh : ℕ → Insurance
fresh asset = record {
  id = single asset;
  deposited = 0;
  from_fees = 0;
  paid = 0;
  minimum_seed = 0;
  minimum_keeper_reserve = 0;
}

-- `(await context.Insurance.get(asset)) ?? fresh(asset)`.
abbrev pub or_fresh : ℕ → Option Insurance → Insurance
or_fresh asset none = fresh asset
or_fresh asset (some i) = i

-- `fee`, whose missing parts are 0 and the zero word; the payer "" of a seller's fee is 0 here.
pub fee_of : Log → FeeKind → ℕ → ℕ → ℕ → ℕ → ℕ → Fee
fee_of event kind asset amount account_id payer series_id = record {
  id = log_id event;
  kind = kind;
  asset = asset;
  account_id = account_id;
  payer = payer;
  series_id = series_id;
  amount = amount;
  to_insurance = 0;
  to_treasury = 0;
  to_keeper = 0;
  timestamp = event.timestamp;
}

pub record FeeSplit : Type 0 where
  pub asset : ℕ
  pub fee : ℕ
  pub to_insurance : ℕ
  pub to_treasury : ℕ
  pub to_keeper : ℕ

module _ (e : EntityStore) where
  pub put_fee : Log → Fee → Context e → Context e
  put_fee event f c = record c { fees = e.set c.fees (log_id event) f }

  unfoldable pub seller_fee_charged :
      (account_id series_id asset fee : ℕ) → Log → Context e → Context e
  unfolding put_fee fee_of
  seller_fee_charged account_id series_id asset fee event =
      put_fee event (fee_of event seller asset fee account_id 0 series_id)

  unfoldable pub buyer_fee_charged : (payer series_id asset fee : ℕ) → Log → Context e → Context e
  unfolding put_fee fee_of
  buyer_fee_charged payer series_id asset fee event =
      put_fee event (fee_of event buyer asset fee 0 payer series_id)

  unfoldable pub keeper_reward_paid : (asset keeper amount : ℕ) → Log → Context e → Context e
  unfolding put_fee fee_of
  keeper_reward_paid asset keeper amount event =
      put_fee event (fee_of event keeper_reward asset amount 0 keeper zero32)

  pub insurance_of : Context e → ℕ → Insurance
  insurance_of c asset = or_fresh asset (e.get c.insurances (single asset))

  pub put_insurance : ℕ → Insurance → Context e → Context e
  put_insurance asset i c = record c { insurances = e.set c.insurances (single asset) i }

  pub add_from_fees : ℕ → ℕ → Context e → Context e
  unfolding put_insurance insurance_of
  add_from_fees asset amount c =
      let i = insurance_of c asset in
      put_insurance asset (record i { from_fees = i.from_fees + amount }) c

  pub add_deposited : ℕ → ℕ → Context e → Context e
  unfolding put_insurance insurance_of
  add_deposited asset amount c =
      let i = insurance_of c asset in
      put_insurance asset (record i { deposited = i.deposited + amount }) c

  pub add_paid : ℕ → ℕ → Context e → Context e
  unfolding put_insurance insurance_of
  add_paid asset amount c =
      let i = insurance_of c asset in put_insurance asset (record i { paid = i.paid + amount }) c

  unfoldable pub fee_split : FeeSplit → Log → Context e → Context e
  unfolding put_fee fee_of once add_from_fees
  fee_split p event c =
      let f = fee_of event split p.asset p.fee 0 0 zero32 in
      let row = record f {
        to_insurance = p.to_insurance;
        to_treasury = p.to_treasury;
        to_keeper = p.to_keeper;
      } in
      once e (put_fee event row c) event (add_from_fees p.asset p.to_insurance)

  unfoldable pub minimums_set :
      (asset minimum_seed minimum_reserve : ℕ) → Log → Context e → Context e
  unfolding put_insurance insurance_of
  minimums_set asset minimum_seed minimum_reserve event c =
      let i = insurance_of c asset in
      put_insurance asset
        (record i { minimum_seed = minimum_seed; minimum_keeper_reserve = minimum_reserve }) c

  unfoldable pub insurance_deposited : (asset amount : ℕ) → Log → Context e → Context e
  unfolding once add_deposited
  insurance_deposited asset amount event c = once e c event (add_deposited asset amount)

  unfoldable pub insurance_paid : (asset amount : ℕ) → Log → Context e → Context e
  unfolding once add_paid
  insurance_paid asset amount event c = once e c event (add_paid asset amount)
