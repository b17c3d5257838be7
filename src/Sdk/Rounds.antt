-- ===== src/Sdk/Rounds.antt =====
-- The search for the round in force of sdk/src/settlement.ts. A feed is what viem's readContract answers
-- for it: `get_round` is getRoundData, `none` when the call reverts, and `latest` is latestRoundData.
-- A thrown error is a value.
pub mod Search
pub mod Feeds
pub mod Proofs
pub mod Tests
use optara.Common.{
  ℕ, zero, suc, ◌+◌, ◌-◌, ◌*◌, ◌/◌, ◌%◌, ◌^◌, Bool, true, false, Option, none, some, ltb, leb, ◌==◌,
  if◌then◌else◌,
}
use optara.Common.Int.{ℤ}

pub record Round : Type 0 where
  pub round_id : ℕ
  pub answer : ℤ
  pub updated_at : ℕ

pub record Feed : Type 0 where
  pub get_round : ℕ → Option Round
  pub latest : Round

-- `next_round_id` is 0 when the round is the feed's latest.
pub record RoundProof : Type 0 where
  pub round_id : ℕ
  pub next_round_id : ℕ
  pub answer : ℤ
  pub updated_at : ℕ

-- `out_of_fuel` marks a loop that was cut off; the others are the source's errors.
pub data RoundError : Type 0 where
  reverted no_end no_round no_rounds_in_phase out_of_fuel : RoundError

pub data Result {ℓ} (A : Type ℓ) : Type ℓ where
  ok : A → Result A
  err : RoundError → Result A

infixl 5 ◌>>=◌
abbrev pub ◌>>=◌ {ℓ κ} : {A : Type ℓ} {B : Type κ} → Result A → (A → Result B) → Result B
ok a >>= f = f a
err e >>= f = err e

abbrev pub phase_size : ℕ
phase_size = 2 ^ 64

abbrev pub agg_mask : ℕ
agg_mask = 2 ^ 64 - 1

-- `(phase << 64) | agg`, for an `agg` of at most `agg_mask`.
pub round_id_of : ℕ → ℕ → ℕ
round_id_of phase agg = phase * phase_size + agg

-- A loop `while (hi - lo > 1)` that keeps `lo` where the test holds and `hi` where it does not.
pub bisect : ℕ → (ℕ → Result Bool) → ℕ → ℕ → Result (ℕ × ℕ)
bisect zero test lo hi = err out_of_fuel
bisect (suc fuel) test lo hi = elim (ltb 1 (hi - lo)) [
  | false ↦ ok (lo, hi)
  | true ↦ do
    low ← test ((lo + hi) / 2)
    elim low [
      | true ↦ bisect fuel test ((lo + hi) / 2) hi
      | false ↦ bisect fuel test lo ((lo + hi) / 2)
    ]
]

-- `first && first.updatedAt <= t`.
abbrev pub is_by : ℕ → Option Round → Bool
is_by t none = false
is_by t (some r) = leb r.updated_at t

module _ (feed : Feed) where
  pub round_at : ℕ → Result Round
  round_at id = elim (feed.get_round id) [ none ↦ err reverted | some r ↦ ok r ]

  pub try_round_at : ℕ → Option Round
  try_round_at id = elim (feed.get_round id) [
    | none ↦ none
    | some r ↦ if r.updated_at == 0 then none else some r
  ]

  pub has_round : ℕ → ℕ → Bool
  unfolding try_round_at round_id_of
  has_round phase agg = elim (try_round_at (round_id_of phase agg)) [ none ↦ false | some _ ↦ true ]

  -- `while (the phase has a round hi) { lo = hi; hi *= 2; ... }`.
  pub gallop : ℕ → ℕ → ℕ → ℕ → Result (ℕ × ℕ)
  unfolding has_round
  gallop zero phase lo hi = err out_of_fuel
  gallop (suc fuel) phase lo hi = elim (has_round phase hi) [
    | false ↦ ok (lo, hi)
    | true ↦ elim (ltb agg_mask (hi * 2)) [
      | true ↦ err no_end
      | false ↦ gallop fuel phase hi (hi * 2)
    ]
  ]

  -- The fuel: 64 doublings pass `agg_mask`, and 64 halvings of what lies below it leave nothing.
  pub last_round_of_phase : ℕ → Result ℕ
  unfolding gallop bisect
  last_round_of_phase phase = elim (has_round phase 1) [
    | false ↦ ok 0
    | true ↦ do
      (lo, hi) ← gallop 65 phase 1 2
      (last, _) ← bisect 65 (λ mid. ok (has_round phase mid)) lo hi
      ok last
  ]

  -- The second loop of `findRoundInForce`, in the phase whose first round is not after `t`.
  pub in_phase : ℕ → ℕ → ℕ → Result RoundProof
  unfolding bisect round_at round_id_of
  in_phase t phase hi = do
    (lo, next) ←
        bisect 65 (λ mid. round_at (round_id_of phase mid) >>= λ r. ok (leb r.updated_at t)) 1 hi
    r ← round_at (round_id_of phase lo)
    ok (record {
      round_id = r.round_id;
      next_round_id = round_id_of phase next;
      answer = r.answer;
      updated_at = r.updated_at;
    })

  -- The end of a round of the first loop, in phase `suc below` with `last` the last round of the phase
  -- before; `next` is the loop's next round.
  pub at_last : ℕ → ℕ → (ℕ → Result RoundProof) → ℕ → Result RoundProof
  unfolding round_at round_id_of
  at_last t below next last = elim (last == 0) [
    | true ↦ err no_rounds_in_phase
    | false ↦ do
      r ← round_at (round_id_of below last)
      elim (leb r.updated_at t) [
        | true ↦ ok (record {
          round_id = r.round_id;
          next_round_id = round_id_of (suc below) 1;
          answer = r.answer;
          updated_at = r.updated_at;
        })
        | false ↦ next last
      ]
  ]

  -- The first loop, which goes down the phases; `hi` is a round of the phase that is after `t`.
  pub descend : ℕ → ℕ → ℕ → Result RoundProof
  unfolding in_phase try_round_at last_round_of_phase at_last
  descend t zero hi =
      if is_by t (try_round_at (round_id_of 0 1)) then in_phase t 0 hi else err no_round
  descend t (suc below) hi = elim (is_by t (try_round_at (round_id_of (suc below) 1))) [
    | true ↦ in_phase t (suc below) hi
    | false ↦ elim (leb (suc below) 1) [
      | true ↦ err no_round
      | false ↦ last_round_of_phase below >>= at_last t below (descend t below)
    ]
  ]

  pub find_round_in_force : ℕ → Result RoundProof
  unfolding descend
  find_round_in_force t =
      if leb feed.latest.updated_at t
      then ok (record {
        round_id = feed.latest.round_id;
        next_round_id = 0;
        answer = feed.latest.answer;
        updated_at = feed.latest.updated_at;
      })
      else descend t (feed.latest.round_id / phase_size) (feed.latest.round_id % phase_size)
