-- ===== src/Sdk/Rounds/Search.antt =====
-- The loops of `Rounds` end with the fuel that they are given, at the border of what they test.
use native.Mathlib.Nat.{pow-suc}
use optara.Common.{
  leb→le, leb_false→lt, le→leb, lt→leb_false, leb, ◌*◌, ◌∙◌, ap, ℕ, zero, suc, ◌+◌, ◌-◌, ◌*◌, ◌/◌,
  ◌^◌, ◌<◌, ◌≤◌, ◌≡◌, Bool, true, false, ltb, arith, tests, ltb→lt, Bool-cases, inl, inr,
}
use optara.Sdk.Rounds.{Feed, last_round_of_phase, Result, ok, bisect, gallop, has_round, agg_mask}

module _ (test : ℕ → Result Bool) where
  bisect_stop : (n lo hi : ℕ) → ltb 1 (hi - lo) ≡ false → bisect (suc n) test lo hi ≡ ok (lo, hi)
  unfolding bisect
  bisect_stop n lo hi e = rw (e, bisect)

  bisect_low :
      (n lo hi : ℕ)
      → ltb 1 (hi - lo) ≡ true
      → test ((lo + hi) / 2) ≡ ok true
      → bisect (suc n) test lo hi ≡ bisect n test ((lo + hi) / 2) hi
  unfolding bisect
  bisect_low n lo hi e f = rw (e, f, bisect)

  bisect_high :
      (n lo hi : ℕ)
      → ltb 1 (hi - lo) ≡ true
      → test ((lo + hi) / 2) ≡ ok false
      → bisect (suc n) test lo hi ≡ bisect n test lo ((lo + hi) / 2)
  unfolding bisect
  bisect_high n lo hi e f = rw (e, f, bisect)

-- The search ended between two neighbours of [lo, hi] at which the test turns.
abbrev pub Border : (ℕ → Bool) → ℕ → ℕ → Result (ℕ × ℕ) → Type 0
Border good lo hi r =
    (m : ℕ) × (r ≡ ok (m, m + 1)) × (lo ≤ m) × (m < hi) × (good m ≡ true) × (good (m + 1) ≡ false)

Border-widen :
    (good : ℕ → Bool) (lo hi lo' hi' : ℕ) (r : Result (ℕ × ℕ))
    → lo' ≤ lo
    → hi ≤ hi'
    → Border good lo hi r
    → Border good lo' hi' r
Border-widen good lo hi lo' hi' r a b (m, e, l, h, gl, gh) =
    (m, e, omega arith, omega arith, gl, gh)

Border-adjacent :
    (good : ℕ → Bool) (lo hi : ℕ) (r : Result (ℕ × ℕ))
    → r ≡ ok (lo, hi)
    → hi ≡ lo + 1
    → good lo ≡ true
    → good hi ≡ false
    → Border good lo hi r
Border-adjacent good lo hi r e next gl gh =
    (lo, rw (← next) e, omega arith, omega arith, gl, rw (← next) gh)

-- Where the test holds at `lo` and not at `hi`, fuel for the halvings of their distance brings the
-- search to such a border.
pub bisect-Border :
    (n : ℕ) (test : ℕ → Result Bool) (good : ℕ → Bool) (lo hi : ℕ)
    → lo < hi
    → hi - lo ≤ 2 ^ n
    → ((a : ℕ) → lo ≤ a → a ≤ hi → test a ≡ ok (good a))
    → good lo ≡ true
    → good hi ≡ false
    → Border good lo hi (bisect (suc n) test lo hi)
bisect-Border zero test good lo hi h w runs gl gh =
    Border-adjacent good lo hi _ (bisect_stop test zero lo hi (ground arith)) (omega arith) gl gh
bisect-Border (suc n) test good lo hi h w runs gl gh = elim (Bool-cases (ltb 1 (hi - lo))) [
  | inr near ↦
      Border-adjacent good lo hi _ (bisect_stop test (suc n) lo hi near) (ground arith) gl gh
  | inl far ↦
      let apart : 1 < hi - lo = ltb→lt 1 (hi - lo) far in
      let mid = (lo + hi) / 2 in
      let wide : hi - lo ≤ 2 * 2 ^ n = omega (arith, pow-suc 2 n) in
      elim (Bool-cases (good mid)) [
        | inl low ↦
            rw
              (bisect_low test (suc n) lo hi far (runs mid (omega arith) (omega arith) ∙ ap ok low))
              (Border-widen good mid hi lo hi _ (omega arith) (omega arith) (
                bisect-Border n test good mid hi (omega arith) (omega arith)
                  (λ a l u. runs a (omega arith) u) low gh))
        | inr high ↦
            rw
              (bisect_high test (suc n) lo hi far
                (runs mid (omega arith) (omega arith) ∙ ap ok high))
              (Border-widen good lo mid lo hi _ (omega arith) (omega arith) (
                bisect-Border n test good lo mid (omega arith) (omega arith)
                  (λ a l u. runs a l (omega arith)) gl high))
      ]
]

module _ (feed : Feed) (phase count : ℕ) where
  -- The feed has the rounds 1 to `count` of the phase.
  abbrev pub Counts : Type 0
  Counts = (a : ℕ) → 1 ≤ a → a < 2 ^ 64 → has_round feed phase a ≡ leb a count

  -- The doubling ends between a round that is there and one that is not.
  gallop_ends :
      (n lo : ℕ)
      → Counts
      → count < 2 ^ 63
      → 1 ≤ lo
      → lo ≤ count
      → count < lo * 2 ^ n
      → (m : ℕ) × (gallop feed (suc n) phase lo (lo * 2) ≡ ok (m, m * 2))
        × (1 ≤ m)
        × (m ≤ count)
        × (count < m * 2)
  unfolding gallop
  gallop_ends zero lo counts small l h w = absurd (omega arith)
  gallop_ends (suc n) lo counts small l h w = elim (Bool-cases (leb (lo * 2) count)) [
    | inr past ↦ (
      lo,
      rw (counts (lo * 2) (omega arith) (omega arith) ∙ past, gallop),
      l,
      h,
      leb_false→lt (lo * 2) count past,
    )
    | inl more ↦
        let below = leb→le (lo * 2) count more in
        let fits : ltb agg_mask (lo * 2 * 2) ≡ false = ground arith in
        let (m, e, a, b, c) =
          gallop_ends n (lo * 2) counts small (omega arith) below
            (omega (arith, ap (λ (k : ℕ). lo * k) (pow-suc 2 n))) in
        (
          m,
          rw (counts (lo * 2) (omega arith) (omega arith) ∙ more, fits, gallop) e,
          omega arith,
          b,
          c,
        )
  ]

  last_round_of_phase_found :
      (lo hi last next : ℕ)
      → has_round feed phase 1 ≡ true
      → gallop feed 65 phase 1 2 ≡ ok (lo, hi)
      → bisect 65 (λ mid. ok (has_round feed phase mid)) lo hi ≡ ok (last, next)
      → last_round_of_phase feed phase ≡ ok last
  unfolding last_round_of_phase
  last_round_of_phase_found lo hi last next e f g = rw (e, f, g, last_round_of_phase)

  last_round_of_phase_none : has_round feed phase 1 ≡ false → last_round_of_phase feed phase ≡ ok 0
  unfolding last_round_of_phase
  last_round_of_phase_none e = rw (e, last_round_of_phase)

  -- `lastRoundOfPhase` finds the last round of a phase, and 0 for a phase with none.
  pub last_round_of_phase_lem : Counts → count < 2 ^ 63 → last_round_of_phase feed phase ≡ ok count
  last_round_of_phase_lem counts small = elim (Bool-cases (leb 1 count)) [
    | inr empty ↦
        last_round_of_phase_none (counts 1 (omega arith) (omega arith) ∙ empty)
        ∙ ap ok (omega (tests, leb_false→lt 1 count empty))
    | inl some_round ↦
        let (m, e, l, h, above) =
          gallop_ends 64 1 counts small (omega arith) (leb→le 1 count some_round) (omega arith) in
        let (last, found, _, _, is_in, is_out) =
          bisect-Border 64 (λ mid. ok (has_round feed phase mid)) (λ a. leb a count) m (m * 2)
            (omega arith) (omega arith) (λ a x y. ap ok (counts a (omega arith) (omega arith)))
            (le→leb m count h) (lt→leb_false (m * 2) count above) in
        let same : last ≡ count =
          omega (arith, leb→le last count is_in, leb_false→lt (last + 1) count is_out) in
        last_round_of_phase_found m (m * 2) last (last + 1)
          (counts 1 (omega arith) (omega arith) ∙ some_round) e found
        ∙ ap ok same
  ]
