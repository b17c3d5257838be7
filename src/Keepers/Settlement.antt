-- ===== src/Keepers/Settlement.antt =====
-- keepers/src/settlementKeeper.ts: a pass over the settlement groups. Group, series, account and config ids
-- are numbers, the log lines are left out, and a transaction is a step of the chain that may fail.
pub mod Proofs
pub mod Tests
use Prim.Native.String.{String}
use optara.Common.{
  ℕ, zero, suc, ◌+◌, Bool, true, false, ◌||◌, Option, none, some, List, [], ◌∷◌, ◌++◌, ltb, ◌==◌,
  if◌then◌else◌, length,
}

pub data GroupState : Type 0 where
  active expired oracle_stalled finalized all_settled redeemable : GroupState

pub record Group : Type 0 where
  pub group_id : ℕ
  pub expiry : ℕ
  pub settlement_oracle_config_id : ℕ
  pub series : List ℕ

-- The transactions that the keeper sends.
pub data Call : Type 0 where
  flag_oracle_stalled : ℕ → Call
  finalize_group : (group_id settlement_data : ℕ) → Call
  settle_accounts_group : List ℕ → ℕ → Call
  compute_recovery_ratio : ℕ → Call

pub data SendResult : Type 0 where
  ok : SendResult
  failed : String → SendResult

-- What `buildSettlementProof` returns: the data to send, or why there is no provable price yet.
pub data ProofResult : Type 0 where
  proven : ℕ → ProofResult
  no_price : String → ProofResult

-- The contracts as the keeper reads and calls them, and its list of accounts.
pub record Chain : Type 1 where
  pub World : Type 0
  pub now : World → ℕ
  pub group_state : World → ℕ → GroupState
  pub stalled_flagged : World → ℕ → Bool
  pub earliest_finalization : World → (config_id expiry : ℕ) → ℕ
  pub build_settlement_proof : World → (config_id expiry : ℕ) → ProofResult
  pub participants : World → ℕ → ℕ
  pub series_count : World → (account group_id : ℕ) → ℕ
  pub send : World → Call → World × SendResult
  pub Directory : Type 0
  pub sync : World → Directory → Directory
  pub holders : Directory → List ℕ → List ℕ

pub data KeeperError : Type 0 where
  no_provable_price finalize_failed settle_failed ratio_failed : String → KeeperError
  settled_nobody unknown_participants : ℕ → KeeperError

pub record TickReport : Type 0 where
  pub finalized : List ℕ
  pub flagged_stalled : List ℕ
  pub settled : List (ℕ × ℕ × ℕ)
  pub ratios : List ℕ
  pub errors : List (ℕ × KeeperError)

abbrev empty_report : TickReport
empty_report = record {
  finalized = [];
  flagged_stalled = [];
  settled = [];
  ratios = [];
  errors = [];
}

module _ (n : Chain) where
  pub record Pass : Type 0 where
    pub world : n.World
    pub directory : n.Directory
    pub done : List ℕ
    pub report : TickReport

  abbrev pub add_error : ℕ → KeeperError → Pass → Pass
  add_error group_id err s = record s {
    report = record s.report { errors = s.report.errors ++ (group_id, err) ∷ [] };
  }

  -- The accounts of a batch: holders that the ledger still counts in the group, until it is full.
  unfoldable pub pending_of : n.World → ℕ → ℕ → List ℕ → List ℕ → List ℕ
  pending_of w group_id batch [] pending = pending
  pending_of w group_id batch (a ∷ holders) pending =
      let pending' = if ltb 0 (n.series_count w a group_id) then pending ++ a ∷ [] else pending in
      let rest = pending_of w group_id batch holders pending' in
      if length pending' == batch then pending' else rest

  -- The loop's state: the world, and the accounts and batches so far.
  pub record Batches : Type 0 where
    pub world : n.World
    pub accounts : ℕ
    pub batches : ℕ

  -- `left === before`, where `before` is -1 at first.
  abbrev pub same_as : ℕ → Option ℕ → Bool
  same_as left none = false
  same_as left (some before) = left == before

  abbrev pub settle_batch :
      ℕ
      → List ℕ
      → Batches
      → (Batches → Option (Batches × Option KeeperError))
      → Option (Batches × Option KeeperError)
  settle_batch group_id pending s again =
      let (w, r) = n.send s.world (settle_accounts_group pending group_id) in
      elim r [
        | failed err ↦ some (record s { world = w }, some (settle_failed err))
        | ok ↦
            again (record {
              world = w;
              accounts = s.accounts + length pending;
              batches = suc s.batches;
            })
      ]

  -- `for (;;)`: the batches until no participant is left, with the error that ends the loop early. It is
  -- `none` only where the fuel runs out.
  unfoldable pub settle_all :
      ℕ → ℕ → ℕ → List ℕ → Option ℕ → Batches → Option (Batches × Option KeeperError)
  settle_all zero group_id batch holders before s = none
  settle_all (suc fuel) group_id batch holders before s =
      let left = n.participants s.world group_id in
      elim (left == 0) [
        | true ↦ some (s, none)
        | false ↦ elim (same_as left before) [
          | true ↦ some (s, some (settled_nobody left))
          | false ↦ elim (pending_of s.world group_id batch holders []) [
            | [] ↦ some (s, some (unknown_participants left))
            | a ∷ others ↦
                settle_batch group_id (a ∷ others) s
                  (settle_all fuel group_id batch holders (some left))
          ]
        ]
      ]

  -- The flag of a stalled oracle, sent where it is not up yet.
  unfoldable pub flag_stalled : GroupState → Group → Pass → Pass
  flag_stalled oracle_stalled g s = elim (n.stalled_flagged s.world g.group_id) [
    | true ↦ s
    | false ↦
        let (w, r) = n.send s.world (flag_oracle_stalled g.group_id) in
        elim r [
          | failed err ↦ record s { world = w }
          | ok ↦ record s {
            world = w;
            report = record s.report {
              flagged_stalled = s.report.flagged_stalled ++ g.group_id ∷ [];
            };
          }
        ]
  ]
  flag_stalled _ g s = s

  -- The price of the group is fixed with the round-in-force proof. The state is `none` where the pass goes
  -- on with the next group (`continue`).
  unfoldable pub finalize_with : Group → ProofResult → Pass → Option GroupState × Pass
  finalize_with g (no_price err) s = (none, add_error g.group_id (no_provable_price err) s)
  finalize_with g (proven settlement_data) s =
      let (w, r) = n.send s.world (finalize_group g.group_id settlement_data) in
      let sent = record s { world = w } in
      elim r [
        | failed err ↦ (none, add_error g.group_id (finalize_failed err) sent)
        | ok ↦ (
          some finalized,
          record sent {
            report = record s.report { finalized = s.report.finalized ++ g.group_id ∷ [] };
          },
        )
      ]

  unfoldable pub finalize_due : ℕ → GroupState → Group → Pass → Option GroupState × Pass
  unfolding flag_stalled finalize_with
  finalize_due now state g s =
      let flagged = flag_stalled state g s in
      let config = g.settlement_oracle_config_id in
      if ltb now (n.earliest_finalization flagged.world config g.expiry)
      then (none, flagged)
      else finalize_with g (n.build_settlement_proof flagged.world config g.expiry) flagged

  unfoldable pub finalize_stage : ℕ → GroupState → Group → Pass → Option GroupState × Pass
  unfolding finalize_due
  finalize_stage now expired g s = finalize_due now expired g s
  finalize_stage now oracle_stalled g s = finalize_due now oracle_stalled g s
  finalize_stage now state g s = (some state, s)

  abbrev add_settled : ℕ → Batches → TickReport → TickReport
  add_settled group_id b r =
      if ltb 0 b.batches
      then record r { settled = r.settled ++ (group_id, b.accounts, b.batches) ∷ [] }
      else r

  abbrev add_error? : ℕ → Option KeeperError → Pass → Pass
  add_error? group_id none s = s
  add_error? group_id (some err) s = add_error group_id err s

  -- After the batches the group's state is read again.
  unfoldable pub settle_stage : ℕ → ℕ → GroupState → Group → Pass → Option (GroupState × Pass)
  unfolding settle_all
  settle_stage fuel batch finalized g s =
      let directory = n.sync s.world s.directory in
      elim (settle_all fuel g.group_id batch (n.holders directory g.series) none
        (record { world = s.world; accounts = 0; batches = 0 })) [
          | none ↦ none
          | some (b, err) ↦
              let settled =
                add_error? g.group_id err (record s { world = b.world; directory = directory }) in
              some (
                n.group_state b.world g.group_id,
                record settled { report = add_settled g.group_id b settled.report },
              )
        ]
  settle_stage fuel batch state g s = some (state, s)

  unfoldable pub ratio_stage : GroupState → Group → Pass → GroupState × Pass
  ratio_stage all_settled g s =
      let (w, r) = n.send s.world (compute_recovery_ratio g.group_id) in
      let sent = record s { world = w } in
      elim r [
        | failed err ↦ (all_settled, add_error g.group_id (ratio_failed err) sent)
        | ok ↦ (
          redeemable,
          record sent { report = record s.report { ratios = s.report.ratios ++ g.group_id ∷ [] } },
        )
      ]
  ratio_stage state g s = (state, s)

  unfoldable pub mark_done : GroupState → Group → Pass → Pass
  mark_done redeemable g s = record s { done = g.group_id ∷ s.done }
  mark_done _ g s = s

  abbrev pub is_done : ℕ → List ℕ → Bool
  is_done group_id [] = false
  is_done group_id (x ∷ xs) = (x == group_id) || is_done group_id xs

  -- The settlement, the ratio and the end of a group whose state after the first stage is known.
  unfoldable pub after_finalize : ℕ → ℕ → Group → Option GroupState × Pass → Option Pass
  unfolding settle_stage ratio_stage mark_done
  after_finalize fuel batch g (none, s) = some s
  after_finalize fuel batch g (some state, s) = elim (settle_stage fuel batch state g s) [
    | none ↦ none
    | some (state', s') ↦
        let (state'', s'') = ratio_stage state' g s' in some (mark_done state'' g s'')
  ]

  unfoldable pub tick_group : ℕ → ℕ → ℕ → Group → Pass → Option Pass
  unfolding finalize_stage after_finalize
  tick_group now fuel batch g s =
      if ltb now g.expiry || is_done g.group_id s.done
      then some s
      else after_finalize fuel batch g (finalize_stage now (n.group_state s.world g.group_id) g s)

  unfoldable pub tick_groups : ℕ → ℕ → ℕ → List Group → Pass → Option Pass
  unfolding tick_group
  tick_groups now fuel batch [] s = some s
  tick_groups now fuel batch (g ∷ gs) s = elim (tick_group now fuel batch g s) [
    | none ↦ none
    | some s' ↦ tick_groups now fuel batch gs s'
  ]

  -- A pass over the catalog's groups, with an empty report, at the time of its start.
  unfoldable pub tick : ℕ → ℕ → List Group → Pass → Option Pass
  unfolding tick_groups
  tick fuel batch groups s =
      tick_groups (n.now s.world) fuel batch groups (record s { report = empty_report })
