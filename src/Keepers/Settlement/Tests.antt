-- ===== src/Keepers/Settlement/Tests.antt =====
-- The settlement keeper on a chain with one group, whose world is the number of its participants: the
-- accounts below it are unsettled, and a batch settles as many as it lists.
use optara.Common.{
  ℕ, ◌-◌, ◌≡◌, refl, false, none, some, List, [], ◌∷◌, length, ltb, if◌then◌else◌, arith,
}
use optara.Keepers.Settlement.{
  Chain, GroupState, Group, Call, settle_accounts_group, ok, ProofResult, Batches, Pass, pending_of,
  settle_all, tick,
}
use optara.Keepers.Settlement.Proofs.{IsSettled, IsBatch, settle_all-IsSettled, pending_of-IsBatch}

abbrev sent : ℕ → Call → ℕ
sent w (settle_accounts_group pending group_id) = w - length pending
sent w _ = w

abbrev one_group : Chain
one_group = record {
  World = ℕ;
  now = λ w. 100;
  group_state = λ w group_id. if ltb 0 w then GroupState.finalized else GroupState.all_settled;
  stalled_flagged = λ w group_id. false;
  earliest_finalization = λ w config expiry. expiry;
  build_settlement_proof = λ w config expiry. ProofResult.proven 1;
  participants = λ w group_id. w;
  series_count = λ w a group_id. if ltb a w then 1 else 0;
  send = λ w call. (sent w call, ok);
  Directory = List ℕ;
  sync = λ w directory. directory;
  holders = λ directory series. directory;
}

abbrev accounts : List ℕ
accounts = 0 ∷ 1 ∷ 2 ∷ []

abbrev at_start : Batches one_group
at_start = record { world = 3; accounts = 0; batches = 0 }

abbrev group : Group
group = record { group_id = 7; expiry = 50; settlement_oracle_config_id = 1; series = 5 ∷ [] }

abbrev pass : Pass one_group
pass = record {
  world = 3;
  directory = accounts;
  done = [];
  report = record { finalized = []; flagged_stalled = []; settled = []; ratios = []; errors = [] };
}

-- Three participants in batches of two, then the recovery ratio, and the group is done.
tick_once :
    tick one_group 5 2 (group ∷ []) pass
    ≡ some (record {
      world = 0;
      directory = accounts;
      done = 7 ∷ [];
      report = record {
        finalized = [];
        flagged_stalled = [];
        settled = (7, 3, 2) ∷ [];
        ratios = 7 ∷ [];
        errors = [];
      };
    })
unfolding tick settle_all pending_of
tick_once = refl

settle_all-IsSettled_example :
    IsSettled one_group 7 at_start (settle_all one_group 5 7 2 accounts none at_start)
settle_all-IsSettled_example =
    settle_all-IsSettled one_group 7 2 accounts at_start λ w pending. omega arith

pending_of-IsBatch_example : IsBatch one_group 3 7 2 (pending_of one_group 3 7 2 accounts [])
pending_of-IsBatch_example = pending_of-IsBatch one_group 3 7 2 accounts (omega arith)
