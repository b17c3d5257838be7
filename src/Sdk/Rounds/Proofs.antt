-- ===== src/Sdk/Rounds/Proofs.antt =====
-- What `findRoundInForce` returns, on a feed whose rounds are in order of time.
use mathlib.Core.Path.{subst₂}
use optara.Common.{
  sym, ◌-◌, ap₂, ℕ, suc, ◌+◌, ◌*◌, ◌/◌, ◌%◌, ◌<◌, ◌≤◌, ◌≡◌, refl, ◌∙◌, ap, ◌⊎◌, inl, inr, leb,
  arith, leb→le, le→leb, lt→leb_false, leb_false→lt, Bool-cases,
}
use optara.Sdk.Rounds.{
  Round, Feed, RoundProof, Result, ok, err, no_round, round_id_of, phase_size, descend,
  find_round_in_force,
}
use optara.Sdk.Rounds.Feeds.{IsFeed, Within, time, Found, descend-Found, descend-no_round}

module _ (feed : Feed) (phases : ℕ) (count : ℕ → ℕ) (round : ℕ → ℕ → Round) where
  abbrev pub IsWithin : ℕ → ℕ → Type 0
  IsWithin = Within feed phases count round

  abbrev pub time_of : ℕ → ℕ → ℕ
  time_of = time feed phases count round

  abbrev pub IsFeedOf : Type 0
  IsFeedOf = IsFeed feed phases count round

  -- (q, b) comes after (p, a) in the feed.
  abbrev pub Later : ℕ → ℕ → ℕ → ℕ → Type 0
  Later p a q b = (p < q) ⊎ ((p ≡ q) × (a < b))

  -- Later rounds have later times, or the same.
  abbrev pub IsOrdered : Type 0
  IsOrdered =
      (p a q b : ℕ) → IsWithin p a → IsWithin q b → Later p a q b → time_of p a ≤ time_of q b

  -- `next` is what proves that nothing follows (q, b) before `t`: the id of its immediate successor, or
  -- 0 where it is the feed's last round.
  abbrev pub Successor : ℕ → ℕ → ℕ → Type 0
  Successor q b next =
      ((next ≡ 0) × (q ≡ phases) × (b ≡ count phases))
      ⊎ ((next ≡ round_id_of q (b + 1)) × (b < count q))
      ⊎ ((next ≡ round_id_of (q + 1) 1) × (b ≡ count q) × (q < phases))

  -- (q, b) is the last round that is not after `t`, and `r` is its proof.
  pub record InForce (t q b : ℕ) (r : Result RoundProof) : Type 0 where
    pub within : IsWithin q b
    pub by_t : time_of q b ≤ t
    pub last : (p a : ℕ) → IsWithin p a → Later q b p a → t < time_of p a
    pub next : ℕ
    pub successor : Successor q b next
    pub result :
        r
        ≡ ok (record {
          round_id = round_id_of q b;
          next_round_id = next;
          answer = (round q b).answer;
          updated_at = time_of q b;
        })

  latest_id :
      IsFeedOf
      → (feed.latest.round_id / phase_size ≡ phases)
        × (feed.latest.round_id % phase_size ≡ count phases)
  unfolding round_id_of
  latest_id f =
      let top : IsWithin phases (count phases) =
        omega (arith, f.some_phase, f.some_round phases f.some_phase (omega arith)) in
      let id : feed.latest.round_id ≡ phases * phase_size + count phases =
        ap (λ (r : Round). r.round_id) f.latest_round ∙ f.ids phases (count phases) top in
      let few = f.few_rounds phases f.some_phase (omega arith) in omega arith

  find-latest :
      (t : ℕ)
      → feed.latest.updated_at ≤ t
      → find_round_in_force feed t
        ≡ ok (record {
          round_id = feed.latest.round_id;
          next_round_id = 0;
          answer = feed.latest.answer;
          updated_at = feed.latest.updated_at;
        })
  unfolding find_round_in_force
  find-latest t h = rw (le→leb feed.latest.updated_at t h, find_round_in_force)

  find-descend :
      (t : ℕ)
      → t < feed.latest.updated_at
      → find_round_in_force feed t
        ≡ descend feed t (feed.latest.round_id / phase_size) (feed.latest.round_id % phase_size)
  unfolding find_round_in_force
  find-descend t h = rw (lt→leb_false feed.latest.updated_at t h, find_round_in_force)

  top-IsWithin : IsFeedOf → IsWithin phases (count phases)
  top-IsWithin f = omega (arith, f.some_phase, f.some_round phases f.some_phase (omega arith))

  latest_time : IsFeedOf → feed.latest.updated_at ≡ time_of phases (count phases)
  latest_time f = ap (λ (r : Round). r.updated_at) f.latest_round

  -- No round comes after the feed's last.
  top_last : (p a : ℕ) → IsWithin p a → Later phases (count phases) p a → ⊥
  top_last p a w (inl h) = omega arith
  top_last p a w (inr (e, h)) = omega (arith, ap count e)

  -- A round after (q, b) is its immediate successor or comes after that.
  Later-cases :
      (q b q' b' p a : ℕ)
      → ((q' ≡ q) × (b' ≡ b + 1)) ⊎ ((q' ≡ q + 1) × (b ≡ count q) × (b' ≡ 1))
      → IsWithin p a
      → Later q b p a
      → ((q' ≡ p) × (b' ≡ a)) ⊎ Later q' b' p a
  Later-cases q b q' b' p a (inl (e, n)) w (inl h) = inr (inl (omega arith))
  Later-cases q b q' b' p a (inl (e, n)) w (inr (k, h)) = grind arith
  Later-cases q b q' b' p a (inr (e, c, n)) w (inl h) = grind arith
  Later-cases q b q' b' p a (inr (e, c, n)) w (inr (k, h)) = absurd (omega (arith, ap count k))

  Found-InForce :
      (f : IsFeedOf)
      → IsOrdered
      → (t : ℕ) (r : Result RoundProof) → Found feed phases count round f t r
      → (q : ℕ) × (b : ℕ) × InForce t q b r
  Found-InForce f ordered t r (q, b, q', b', step, brackets) = (
    q,
    b,
    record {
      within = brackets.within;
      by_t = brackets.by_t;
      last = λ p a w later. elim (Later-cases q b q' b' p a step w later) [
        | inl (e, k) ↦ subst₂ (λ x y. t < time_of x y) e k brackets.after_t
        | inr further ↦
            omega (arith, brackets.after_t, ordered q' b' p a brackets.next_within w further)
      ];
      next = round_id_of q' b';
      successor = elim step [
        | inl (e, k) ↦
            inr (inl (ap₂ round_id_of e k, omega (arith, brackets.next_within, ap count e)))
        | inr (e, c, k) ↦ inr (inr (ap₂ round_id_of e k, c, omega (arith, brackets.next_within)))
      ];
      result = brackets.result;
    },
  )

  -- The descent starts at the feed's last round.
  find-top :
      IsFeedOf
      → (t p : ℕ) → suc p ≡ phases
      → t < feed.latest.updated_at
      → find_round_in_force feed t ≡ descend feed t (suc p) (count phases)
  find-top f t p e after_t =
      let (is_phase, is_round) = latest_id f in
      find-descend t after_t ∙ ap₂ (descend feed t) (is_phase ∙ sym e) is_round

  find-Found :
      (f : IsFeedOf) (t p : ℕ)
      → suc p ≡ phases
      → t < feed.latest.updated_at
      → time_of 1 1 ≤ t
      → Found feed phases count round f t (find_round_in_force feed t)
  find-Found f t p e after_t first = rw (find-top f t p e after_t) (
      descend-Found feed phases count round f t p (count phases)
        (omega (arith, top-IsWithin f, ap count e))
        (omega (arith, latest_time f, ap (λ k. time_of k (count phases)) e)) first)

  -- `findRoundInForce` proves the round in force: on an ordered feed whose first round is not after `t`
  -- it returns a round that is not after `t` while every later round is, and with it 0 when the round is
  -- the feed's last, or the id of its immediate successor in its phase or at the start of the next.
  pub find_round_in_force-InForce :
      IsFeedOf
      → IsOrdered
      → (t : ℕ) → time_of 1 1 ≤ t
      → (q : ℕ) × (b : ℕ) × InForce t q b (find_round_in_force feed t)
  find_round_in_force-InForce f ordered t first = elim (Bool-cases (leb feed.latest.updated_at t)) [
    | inl by_latest ↦
        let by_t = leb→le feed.latest.updated_at t by_latest in
        (
          phases,
          count phases,
          record {
            within = top-IsWithin f;
            by_t = omega (arith, latest_time f);
            last = λ p a w later. absurd (top_last p a w later);
            next = 0;
            successor = inl (refl, refl, refl);
            result =
                find-latest t by_t
                ∙ rw (f.latest_round, f.ids phases (count phases) (top-IsWithin f)) refl;
          },
        )
    | inr before ↦
        let after_t = leb_false→lt feed.latest.updated_at t before in
        Found-InForce f ordered t _
          (find-Found f t (phases - 1) (omega (arith, f.some_phase)) after_t first)
  ]

  -- On a feed whose rounds are all after `t` the search fails with "no round is in force".
  pub find_round_in_force-no_round :
      IsFeedOf
      → (t : ℕ) → ((p a : ℕ) → IsWithin p a → t < time_of p a)
      → find_round_in_force feed t ≡ err no_round
  find_round_in_force-no_round f t all_after =
      find-top f t (phases - 1) (omega (arith, f.some_phase))
        (omega (arith, latest_time f, all_after phases (count phases) (top-IsWithin f)))
      ∙ descend-no_round feed phases count round f t (phases - 1) (count phases)
          (omega (arith, f.some_phase)) all_after
