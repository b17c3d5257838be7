-- ===== src/Indexer/Clearing.antt =====
-- indexer/src/handlers/Clearing.ts: every write of an option, kept as history.
use optara.Common.{ℕ}
use optara.Indexer.Entities.{Log}
use optara.Indexer.Store.{EntityStore, Context, log_id}

pub record ExternalLongMinted : Type 0 where
  pub account_id : ℕ
  pub series_id : ℕ
  pub qty : ℕ
  pub recipient : ℕ
  pub fee : ℕ

module _ (e : EntityStore) where
  unfoldable pub external_long_minted : ExternalLongMinted → Log → Context e → Context e
  external_long_minted p event c = record c {
    mints = e.set c.mints (log_id event) (record {
      id = log_id event;
      account_id = p.account_id;
      series_id = p.series_id;
      qty = p.qty;
      recipient = p.recipient;
      fee = p.fee;
      timestamp = event.timestamp;
    });
  }
