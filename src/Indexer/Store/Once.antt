-- ===== src/Indexer/Store/Once.antt =====
-- `once` at a log that was recorded, and at one that was not.
use optara.Common.{◌≡◌, none, some}
use optara.Indexer.Entities.{Log, ProcessedLog}
use optara.Indexer.Store.{EntityStore, Context, log_id, once}

module _ (e : EntityStore) where
  -- The context with the log recorded.
  abbrev pub record_log : Log → Context e → Context e
  record_log event c = record c {
    processed = e.set c.processed (log_id event) (record { id = log_id event });
  }

  pub once_runs :
      (c : Context e) (event : Log) (apply : Context e → Context e)
      → e.get c.processed (log_id event) ≡ none
      → once e c event apply ≡ apply (record_log event c)
  unfolding once
  once_runs c event apply h = rw (h, once)

  pub once_skips :
      (c : Context e) (event : Log) (apply : Context e → Context e) (p : ProcessedLog)
      → e.get c.processed (log_id event) ≡ some p
      → once e c event apply ≡ c
  unfolding once
  once_skips c event apply p h = rw (h, once)
