-- ===== src/Sdk/Rounds/Feeds.antt =====
-- A Chainlink feed as the search of `Rounds` relies on it: phases from 1 on, each with its rounds from 1
-- to a count, in order of time; and one step of the search on such a feed.
use optara.Common.{
  pos→==_false, ◌⊎◌, ◌≢◌, ℕ, zero, suc, ◌+◌, ◌^◌, ◌<◌, ◌≤◌, ◌≡◌, refl, ◌∙◌, ap, true, false, none,
  some, leb, arith, leb→le, le→leb, lt→leb_false, leb_false→lt, Bool-cases, inl, inr,
}
use optara.Sdk.Rounds.{
  Round, Feed, RoundProof, Result, ok, err, ◌>>=◌, no_round, round_id_of, bisect, round_at,
  try_round_at, has_round, last_round_of_phase, in_phase, is_by, at_last, descend,
}
use optara.Sdk.Rounds.Search.{Counts, bisect-Border, last_round_of_phase_lem}

module _ (feed : Feed) (phases : ℕ) (count : ℕ → ℕ) (round : ℕ → ℕ → Round) where
  -- (p, a) is a round of the feed.
  abbrev pub Within : ℕ → ℕ → Type 0
  Within p a = (1 ≤ p) × (p ≤ phases) × (1 ≤ a) × (a ≤ count p)

  abbrev pub time : ℕ → ℕ → ℕ
  time p a = (round p a).updated_at

  -- What the search relies on, but for the order in time.
  pub record IsFeed : Type 0 where
    pub some_phase : 1 ≤ phases
    pub some_round : (p : ℕ) → 1 ≤ p → p ≤ phases → 1 ≤ count p
    pub few_rounds : (p : ℕ) → 1 ≤ p → p ≤ phases → count p < 2 ^ 63
    pub reads : (p a : ℕ) → Within p a → feed.get_round (round_id_of p a) ≡ some (round p a)
    pub ids : (p a : ℕ) → Within p a → (round p a).round_id ≡ round_id_of p a
    pub stamped : (p a : ℕ) → Within p a → 0 < time p a
    pub ends :
        (p a : ℕ)
        → 1 ≤ p
        → p ≤ phases
        → count p < a
        → a < 2 ^ 64
        → feed.get_round (round_id_of p a) ≡ none
    pub latest_round : feed.latest ≡ round phases (count phases)

  module _ (f : IsFeed) where
    pub round_at-Within : (p a : ℕ) → Within p a → round_at feed (round_id_of p a) ≡ ok (round p a)
    unfolding round_at
    round_at-Within p a w = rw (f.reads p a w, round_at)

    pub try_round_at-Within :
        (p a : ℕ) → Within p a → try_round_at feed (round_id_of p a) ≡ some (round p a)
    unfolding try_round_at
    try_round_at-Within p a w = rw (f.reads p a w, try_round_at) (ground (arith, f.stamped p a w))

    Counts-phase : (p : ℕ) → 1 ≤ p → p ≤ phases → Counts feed p (count p)
    unfolding has_round
    Counts-phase p l u a h small = elim (Bool-cases (leb a (count p))) [
      | inl is_in ↦
          rw (try_round_at-Within p a (l, u, h, leb→le a (count p) is_in), has_round, is_in)
      | inr is_out ↦
          unfold try_round_at in
          rw (
            f.ends p a l u (leb_false→lt a (count p) is_out) small,
            try_round_at,
            has_round,
            is_out,
          )
    ]

    pub last_round_of_phase-count :
        (p : ℕ) → 1 ≤ p → p ≤ phases → last_round_of_phase feed p ≡ ok (count p)
    last_round_of_phase-count p l u =
        last_round_of_phase_lem feed p (count p) (Counts-phase p l u) (f.few_rounds p l u)

    -- The round (q, b) with its immediate successor (q', b'), between which the time `t` falls.
    pub record Brackets (t q b q' b' : ℕ) (r : Result RoundProof) : Type 0 where
      pub within : Within q b
      pub next_within : Within q' b'
      pub by_t : time q b ≤ t
      pub after_t : t < time q' b'
      pub result :
          r
          ≡ ok (record {
            round_id = round_id_of q b;
            next_round_id = round_id_of q' b';
            answer = (round q b).answer;
            updated_at = time q b;
          })

    in_phase_found :
        (t p hi m : ℕ)
        → bisect 65 (λ mid. round_at feed (round_id_of p mid) >>= λ r. ok (leb r.updated_at t)) 1 hi
          ≡ ok (m, m + 1)
        → Within p m
        → in_phase feed t p hi
          ≡ ok (record {
            round_id = round_id_of p m;
            next_round_id = round_id_of p (m + 1);
            answer = (round p m).answer;
            updated_at = time p m;
          })
    unfolding in_phase
    in_phase_found t p hi m e w = rw (e, in_phase) (rw (round_at-Within p m w) (rw (f.ids p m w)))

    -- Within a phase the search finds the round at which the time falls.
    pub in_phase-Brackets :
        (t p hi : ℕ)
        → Within p hi
        → time p 1 ≤ t
        → t < time p hi
        → (m : ℕ) × Brackets t p m p (m + 1) (in_phase feed t p hi)
    in_phase-Brackets t p hi w first last =
        let ne : hi ≢ 1 = λ e. omega (arith, ap (time p) e) in
        let wide : hi < 2 ^ 63 = omega (arith, f.few_rounds p w.0 w.1) in
        let (m, found, l, u, is_in, is_out) =
          bisect-Border 64
            (λ mid. round_at feed (round_id_of p mid) >>= λ r. ok (leb r.updated_at t))
            (λ mid. leb (time p mid) t) 1 hi (omega arith) (omega arith)
            (λ a x y. rw (round_at-Within p a (omega arith))) (le→leb (time p 1) t first)
            (lt→leb_false (time p hi) t last) in
        let inside : Within p m = omega arith in
        (
          m,
          record {
            within = inside;
            next_within = omega arith;
            by_t = leb→le (time p m) t is_in;
            after_t = leb_false→lt (time p (m + 1)) t is_out;
            result = in_phase_found t p hi m found inside;
          },
        )

    is_by-Within :
        (t p a : ℕ) → Within p a → is_by t (try_round_at feed (round_id_of p a)) ≡ leb (time p a) t
    is_by-Within t p a w = rw (try_round_at-Within p a w)

    descend_here :
        (t p hi : ℕ)
        → Within (suc p) 1
        → time (suc p) 1 ≤ t
        → descend feed t (suc p) hi ≡ in_phase feed t (suc p) hi
    unfolding descend
    descend_here t p hi w first =
        rw (is_by-Within t (suc p) 1 w ∙ le→leb (time (suc p) 1) t first, descend)

    descend_bottom : (t hi : ℕ) → Within 1 1 → t < time 1 1 → descend feed t 1 hi ≡ err no_round
    unfolding descend
    descend_bottom t hi w first =
        rw (is_by-Within t 1 1 w ∙ lt→leb_false (time 1 1) t first, descend)

    at_last-Within :
        (t p last : ℕ) (next : ℕ → Result RoundProof)
        → Within (suc p) last
        → at_last feed t (suc p) next last ≡ elim (leb (time (suc p) last) t) [
          | true ↦ ok (record {
            round_id = (round (suc p) last).round_id;
            next_round_id = round_id_of (suc (suc p)) 1;
            answer = (round (suc p) last).answer;
            updated_at = time (suc p) last;
          })
          | false ↦ next last
        ]
    unfolding at_last
    at_last-Within t p last next inside =
        rw (pos→==_false last inside.2, at_last) (rw (round_at-Within (suc p) last inside))

    descend_below :
        (t p hi last : ℕ)
        → Within (suc (suc p)) 1
        → t < time (suc (suc p)) 1
        → last_round_of_phase feed (suc p) ≡ ok last
        → descend feed t (suc (suc p)) hi ≡ at_last feed t (suc p) (descend feed t (suc p)) last
    unfolding descend
    descend_below t p hi last w first e = rw (
      is_by-Within t (suc (suc p)) 1 w ∙ lt→leb_false (time (suc (suc p)) 1) t first,
      lt→leb_false (suc (suc p)) 1 (omega arith),
      e,
      descend,
    )

    -- What the search comes back with, when the feed's first round is not after `t`.
    abbrev pub Found : ℕ → Result RoundProof → Type 0
    Found t r =
        (q : ℕ) × (b : ℕ) × (q' : ℕ) × (b' : ℕ) × (((q' ≡ q) × (b' ≡ b + 1))
          ⊎ ((q' ≡ q + 1) × (b ≡ count q) × (b' ≡ 1)))
        × Brackets t q b q' b' r

    pub descend-Found :
        (t p hi : ℕ)
        → Within (suc p) hi
        → t < time (suc p) hi
        → time 1 1 ≤ t
        → Found t (descend feed t (suc p) hi)
    descend-Found t zero hi w last first =
        let (m, b) = in_phase-Brackets t 1 hi w first last in
        (1, m, 1, m + 1, inl (refl, refl), rw (descend_here t 0 hi (omega arith) first) b)
    descend-Found t (suc p) hi w last first =
        let bottom : Within (suc (suc p)) 1 = omega arith in
        let below : count (suc p) < 2 ^ 63 = f.few_rounds (suc p) (omega arith) (omega arith) in
        elim (Bool-cases (leb (time (suc (suc p)) 1) t)) [
          | inl here ↦
              let by_t = leb→le (time (suc (suc p)) 1) t here in
              let (m, b) = in_phase-Brackets t (suc (suc p)) hi w by_t last in
              (
                suc (suc p),
                m,
                suc (suc p),
                m + 1,
                inl (refl, refl),
                rw (descend_here t (suc p) hi bottom by_t) b,
              )
          | inr down ↦
              let after_t = leb_false→lt (time (suc (suc p)) 1) t down in
              let c = count (suc p) in
              let inside : Within (suc p) c =
                omega (arith, f.some_round (suc p) (omega arith) (omega arith)) in
              let step =
                descend_below t p hi c bottom after_t
                  (last_round_of_phase-count (suc p) (omega arith) (omega arith))
                ∙ at_last-Within t p c (descend feed t (suc p)) inside in
              elim (Bool-cases (leb (time (suc p) c) t)) [
                | inl border ↦ (
                  suc p,
                  c,
                  suc (suc p),
                  1,
                  inr (omega arith, refl, refl),
                  record {
                    within = inside;
                    next_within = bottom;
                    by_t = leb→le (time (suc p) c) t border;
                    after_t = after_t;
                    result = step ∙ rw (border, f.ids (suc p) c inside) refl;
                  },
                )
                | inr further ↦
                    let found =
                      descend-Found t p c inside (leb_false→lt (time (suc p) c) t further) first in
                    rw (step, further) found
              ]
        ]

    -- Where even the first round is after `t` the search goes down to it and fails.
    pub descend-no_round :
        (t p hi : ℕ)
        → suc p ≤ phases
        → ((q b : ℕ) → Within q b → t < time q b)
        → descend feed t (suc p) hi ≡ err no_round
    descend-no_round t zero hi u after_t =
        descend_bottom t hi (omega (arith, f.some_round 1 (omega arith) (omega arith)))
          (after_t 1 1 (omega (arith, f.some_round 1 (omega arith) (omega arith))))
    descend-no_round t (suc p) hi u after_t =
        let c = count (suc p) in
        let bottom : Within (suc (suc p)) 1 =
          omega (arith, f.some_round (suc (suc p)) (omega arith) (omega arith)) in
        let inside : Within (suc p) c =
          omega (arith, f.some_round (suc p) (omega arith) (omega arith)) in
        descend_below t p hi c bottom (after_t (suc (suc p)) 1 bottom)
          (last_round_of_phase-count (suc p) (omega arith) (omega arith))
        ∙ at_last-Within t p c (descend feed t (suc p)) inside
        ∙ rw (lt→leb_false (time (suc p) c) t (after_t (suc p) c inside))
            (descend-no_round t p c (omega arith) after_t)
