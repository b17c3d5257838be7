-- ===== src/Indexer/Monitor/Tests.antt =====
-- A reconciliation of an index that agrees with the chain, and of one that does not.
use optara.Common.{◌≡◌, refl, false, List, [], ◌∷◌, ◌==◌, if◌then◌else◌, get_key, set_key}
use optara.Common.Int.{pos, negsuc, ◌+ℤ◌}
use optara.Indexer.Monitor.{
  AlertKind, Severity, Subject, AccountRow, SeriesRow, GroupRow, Views, reconcile,
}
use optara.Indexer.Monitor.Reconcile.{Agrees, reconcile_clean}

abbrev accounts : List AccountRow
accounts =
    record { account_id = 1; settlement_asset = 12; cash = pos 30 }
    ∷ record { account_id = 2; settlement_asset = 12; cash = negsuc 4 }
    ∷ []

abbrev series : List SeriesRow
series =
    record {
      id = 5;
      wrapper = 77;
      internal_long = pos 4;
      internal_short = pos 4;
      wrapper_supply = pos 0;
    }
    ∷ []

abbrev groups : List GroupRow
groups =
    record { id = 2; settlement_asset = 12; participants = 2; finalized = false; finalized_at = 0 }
    ∷ []

abbrev views : Views
views = record {
  account_count = 2;
  cash_of = λ a. if a == 1 then pos 30 else negsuc 4;
  totals = λ id. (pos 4, pos 4);
  total_supply = λ wrapper. pos 0;
  participants = λ id. 2;
  pool_of = λ id. pos 10;
  held_by_clearing = λ token. pos 35;
}

agreed : reconcile views accounts series groups ≡ []
unfolding reconcile get_key set_key ◌+ℤ◌
agreed = refl

one_off :
    reconcile (record views { participants = λ id. 3 }) accounts series groups
    ≡ record {
      kind = AlertKind.index_mismatch;
      severity = Severity.critical;
      subject = Subject.participants 2;
    }
      ∷ []
unfolding reconcile get_key set_key ◌+ℤ◌
one_off = refl

reconcile_clean_example : Agrees views accounts series groups
reconcile_clean_example = reconcile_clean views accounts series groups agreed
