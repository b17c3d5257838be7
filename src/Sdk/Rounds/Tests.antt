-- ===== src/Sdk/Rounds/Tests.antt =====
-- Rounds of a small feed: the search and its theorems at concrete inputs.
use optara.Common.{
  ◌-◌, ap₂, ◌∙◌, ℕ, ◌+◌, ◌*◌, ◌/◌, ◌%◌, ◌^◌, ◌<◌, ◌≡◌, refl, Option, none, some, inl, inr, ◌&&◌,
  leb, if◌then◌else◌, arith,
}
use optara.Common.Int.{pos}
use optara.Sdk.Rounds.{Round, Feed, ok, err, no_round, round_id_of, phase_size, find_round_in_force}
use optara.Sdk.Rounds.Feeds.{IsFeed}
use optara.Sdk.Rounds.Proofs.{
  IsOrdered, InForce, find_round_in_force-InForce, find_round_in_force-no_round,
}

-- Two phases of two rounds, at times 10, 20, 30 and 40.
abbrev pub example_round : ℕ → ℕ → Round
example_round p a = record {
  round_id = p * phase_size + a;
  answer = pos 5;
  updated_at = p * 20 + a * 10 - 20;
}

abbrev pub example_read : ℕ → ℕ → Option Round
example_read p a =
    if leb 1 p && leb p 2 && leb 1 a && leb a 2 then some (example_round p a) else none

read_id :
    (p a : ℕ)
    → a < 2 ^ 64
    → example_read (round_id_of p a / phase_size) (round_id_of p a % phase_size) ≡ example_read p a
unfolding round_id_of
read_id p a h =
    let phase : (p * phase_size + a) / phase_size ≡ p = omega arith in
    let agg : (p * phase_size + a) % phase_size ≡ a = omega arith in ap₂ example_read phase agg

abbrev pub example_feed : Feed
example_feed = record {
  get_round = λ id. example_read (id / phase_size) (id % phase_size);
  latest = example_round 2 2;
}

pub example_feed-IsFeed : IsFeed example_feed 2 (λ p. 2) example_round
unfolding round_id_of
example_feed-IsFeed = record {
  some_phase = omega arith;
  some_round = λ p l u. omega arith;
  few_rounds = λ p l u. omega arith;
  reads = λ p a w. read_id p a (omega arith) ∙ ground arith;
  ids = λ p a w. refl;
  stamped = λ p a w. omega arith;
  ends = λ p a l u h small. read_id p a small ∙ ground arith;
  latest_round = refl;
}

pub example_feed-IsOrdered : IsOrdered example_feed 2 (λ p. 2) example_round
example_feed-IsOrdered p a q b v w (inl h) = omega arith
example_feed-IsOrdered p a q b v w (inr (e, h)) = omega arith

find_at_35 :
    find_round_in_force example_feed 35
    ≡ ok (record {
      round_id = round_id_of 2 1;
      next_round_id = round_id_of 2 2;
      answer = pos 5;
      updated_at = 30;
    })
unfolding find_round_in_force
find_at_35 = refl

find_at_25 :
    find_round_in_force example_feed 25
    ≡ ok (record {
      round_id = round_id_of 1 2;
      next_round_id = round_id_of 2 1;
      answer = pos 5;
      updated_at = 20;
    })
unfolding find_round_in_force
find_at_25 = refl

find_round_in_force-InForce_example :
    (q : ℕ) × (b : ℕ) × InForce example_feed 2
      (λ p. 2)
      example_round
      35
      q
      b
      (find_round_in_force example_feed 35)
find_round_in_force-InForce_example =
    find_round_in_force-InForce example_feed 2 (λ p. 2) example_round example_feed-IsFeed
      example_feed-IsOrdered 35 (omega arith)

find_round_in_force-no_round_example : find_round_in_force example_feed 5 ≡ err no_round
find_round_in_force-no_round_example =
    find_round_in_force-no_round example_feed 2 (λ p. 2) example_round example_feed-IsFeed 5
      (λ p a w. omega arith)
