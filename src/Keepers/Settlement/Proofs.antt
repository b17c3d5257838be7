-- ===== src/Keepers/Settlement/Proofs.antt =====
-- The batches of a settlement end, and say whether everyone is settled.
use optara.Common.{
  ℕ, zero, suc, ◌+◌, ◌≤◌, ◌<◌, ◌≡◌, false, Option, none, some, List, [], ◌∷◌, ◌++◌, length,
  length-append, All, ltb, ltb→lt, ◌==◌, ==_iff, if◌then◌else◌, arith, Bool-cases, inl, inr,
}
use optara.Keepers.Settlement.{
  Chain, settle_accounts_group, ok, failed, KeeperError, settle_failed, unknown_participants,
  Batches, pending_of, same_as, settle_batch, settle_all,
}

different-lt : (a b : ℕ) → a ≤ b → (a == b) ≡ false → a < b
different-lt a b le ne = ground arith

plus_two : (a : ℕ) → suc (suc a) ≡ a + 2
plus_two a = omega arith

module _ (n : Chain) where
  -- Settling accounts of a group adds no participant to it.
  abbrev pub OnlyLeave : ℕ → Type 0
  OnlyLeave group_id =
      (w : n.World) (pending : List ℕ)
      → n.participants (n.send w (settle_accounts_group pending group_id)).0 group_id
        ≤ n.participants w group_id

  -- The loop has ended, and without an error no participant is left.
  abbrev pub IsSettled : ℕ → Batches n → Option (Batches n × Option KeeperError) → Type 0
  IsSettled group_id s none = ⊥
  IsSettled group_id s (some (b, err)) =
      ((err ≡ none) → n.participants b.world group_id ≡ 0)
      × (n.participants b.world group_id ≤ n.participants s.world group_id)
      × (s.batches ≤ b.batches)

  -- An error ends the loop with the batches so far.
  ended_by :
      (group_id : ℕ) (s b : Batches n) (err : KeeperError)
      → n.participants b.world group_id ≤ n.participants s.world group_id
      → s.batches ≤ b.batches
      → IsSettled group_id s (some (b, some err))
  ended_by group_id s b err le grown = (λ h. cc h, le, grown)

  -- A run from a later state, with fewer participants, is one from here.
  later :
      (group_id : ℕ) (s b : Batches n) (r : Option (Batches n × Option KeeperError))
      → n.participants b.world group_id ≤ n.participants s.world group_id
      → s.batches ≤ b.batches
      → IsSettled group_id b r
      → IsSettled group_id s r
  later group_id s b none le grown h = h
  later group_id s b (some (c, err)) le grown h = (h.0, omega arith, omega arith)

  batch-IsSettled :
      (group_id : ℕ) (pending : List ℕ) (s : Batches n)
      (again : Batches n → Option (Batches n × Option KeeperError))
      → OnlyLeave group_id
      → ((b : Batches n)
          → n.participants b.world group_id ≤ n.participants s.world group_id
          → IsSettled group_id b (again b))
      → IsSettled group_id s (settle_batch n group_id pending s again)
  batch-IsSettled group_id pending s again law h =
      let w = (n.send s.world (settle_accounts_group pending group_id)).0 in
      elim (n.send s.world (settle_accounts_group pending group_id)).1
        as (λ r. IsSettled group_id s (elim r as (λ _. Option (Batches n × Option KeeperError)) [
          | failed err ↦ some (record s { world = w }, some (settle_failed err))
          | ok ↦ again (record {
            world = w;
            accounts = s.accounts + length pending;
            batches = suc s.batches;
          })
        ])) [
          | failed err ↦
              ended_by group_id s (record s { world = w }) (settle_failed err) (law s.world pending)
                (omega arith)
          | ok ↦
              let b : Batches n = record {
                world = w;
                accounts = s.accounts + length pending;
                batches = suc s.batches;
              } in
              later group_id s b (again b) (law s.world pending) (omega arith)
                (h b (law s.world pending))
        ]

  iteration-IsSettled :
      (fuel group_id batch : ℕ) (holders : List ℕ) (before : Option ℕ) (s : Batches n)
      → OnlyLeave group_id
      → (same_as n (n.participants s.world group_id) before ≡ false
          → (b : Batches n) → n.participants b.world group_id ≤ n.participants s.world group_id
          → IsSettled group_id b
              (settle_all n fuel group_id batch holders (some (n.participants s.world group_id)) b))
      → IsSettled group_id s (settle_all n (suc fuel) group_id batch holders before s)
  unfolding settle_all
  iteration-IsSettled fuel group_id batch holders before s law again =
      let left = n.participants s.world group_id in
      elim (Bool-cases (left == 0)) [
        | inl gone ↦ rw (gone, settle_all) (λ h. (==_iff left 0).0 gone, omega arith, omega arith)
        | inr some_left ↦ elim (Bool-cases (same_as n left before)) [
          | inl stuck ↦
              rw (some_left, stuck, settle_all)
                (ended_by group_id s s _ (omega arith) (omega arith))
          | inr moving ↦
              let go = settle_all n fuel group_id batch holders (some left) in
              rw (some_left, moving, settle_all)
                (elim (pending_of n s.world group_id batch holders [])
                  as (λ ps.
                    IsSettled group_id s
                      (elim ps as (λ _. Option (Batches n × Option KeeperError)) [
                        | [] ↦ some (s, some (unknown_participants left))
                        | a ∷ others ↦ settle_batch n group_id (a ∷ others) s (λ b. go b)
                      ])) [
                        | [] ↦
                            ended_by group_id s s (unknown_participants left) (omega arith)
                              (omega arith)
                        | a ∷ others ↦
                            batch-IsSettled group_id (a ∷ others) s (λ b. go b) law (again moving)
                      ])
        ]
      ]

  settle_from :
      (fuel group_id batch : ℕ) (holders : List ℕ) (before : ℕ) (s : Batches n)
      → OnlyLeave group_id
      → n.participants s.world group_id ≤ before
      → before < fuel
      → IsSettled group_id s (settle_all n fuel group_id batch holders (some before) s)
  settle_from zero group_id batch holders before s law le lt = absurd (omega arith)
  settle_from (suc fuel) group_id batch holders before s law le lt =
      iteration-IsSettled fuel group_id batch holders (some before) s law λ moving b fewer.
        let less : n.participants s.world group_id < before =
          different-lt (n.participants s.world group_id) before le moving in
        settle_from fuel group_id batch holders (n.participants s.world group_id) b law fewer
          (omega arith)

  -- Where settling accounts of a group adds no participant to it, the loop of batches returns on a fuel of
  -- two more than the group's participants: it reports an error, or no participant is left; and it leaves
  -- no more participants, and counts no fewer batches, than it found.
  pub settle_all-IsSettled :
      (group_id batch : ℕ) (holders : List ℕ) (s : Batches n)
      → OnlyLeave group_id
      → IsSettled group_id s
          (settle_all n (n.participants s.world group_id + 2) group_id batch holders none s)
  settle_all-IsSettled group_id batch holders s law =
      let left = n.participants s.world group_id in
      rw (← plus_two left) (
        iteration-IsSettled (suc left) group_id batch holders none s law λ moving b fewer.
          settle_from (suc left) group_id batch holders left b law fewer (omega arith))

  -- Every account of the list is still counted in the group.
  abbrev pub AreCounted : n.World → ℕ → List ℕ → Type 0
  AreCounted w group_id accs = All (λ a. 0 < n.series_count w a group_id) accs

  AreCounted-append :
      (w : n.World) (group_id a : ℕ) (accs : List ℕ)
      → AreCounted w group_id accs
      → 0 < n.series_count w a group_id
      → AreCounted w group_id (accs ++ a ∷ [])
  AreCounted-append w group_id a [] h k = (k, tt)
  AreCounted-append w group_id a (x ∷ accs) h k = (h.0, AreCounted-append w group_id a accs h.1 k)

  abbrev pub IsBatch : n.World → ℕ → ℕ → List ℕ → Type 0
  IsBatch w group_id batch accs = (length accs ≤ batch) × AreCounted w group_id accs

  next-IsBatch :
      (w : n.World) (group_id batch a : ℕ) (pending : List ℕ)
      → length pending < batch
      → AreCounted w group_id pending
      → IsBatch w group_id batch
          (if ltb 0 (n.series_count w a group_id) then pending ++ a ∷ [] else pending)
  next-IsBatch w group_id batch a pending room h =
      elim (Bool-cases (ltb 0 (n.series_count w a group_id))) [
        | inl counted ↦ rw counted (
          omega (arith, length-append pending (a ∷ [])),
          AreCounted-append w group_id a pending h (ltb→lt _ _ counted),
        )
        | inr settled ↦ rw settled (omega arith, h)
      ]

  pending_of-from :
      (w : n.World) (group_id batch : ℕ) (holders pending : List ℕ)
      → length pending < batch
      → AreCounted w group_id pending
      → IsBatch w group_id batch (pending_of n w group_id batch holders pending)
  unfolding pending_of
  pending_of-from w group_id batch [] pending room h = (omega arith, h)
  pending_of-from w group_id batch (a ∷ holders) pending room h =
      let pending' = if ltb 0 (n.series_count w a group_id) then pending ++ a ∷ [] else pending in
      let (le, counted) = next-IsBatch w group_id batch a pending room h in
      elim (Bool-cases (length pending' == batch)) [
        | inl full ↦ rw full (le, counted)
        | inr more ↦ rw more (
            pending_of-from w group_id batch holders pending'
              (different-lt (length pending') batch le more) counted)
      ]

  -- Where the batch size is positive, a batch has at most that many accounts, each of which the ledger
  -- still counts in the group.
  pub pending_of-IsBatch :
      (w : n.World) (group_id batch : ℕ) (holders : List ℕ)
      → 0 < batch
      → IsBatch w group_id batch (pending_of n w group_id batch holders [])
  pending_of-IsBatch w group_id batch holders room =
      pending_of-from w group_id batch holders [] room tt
