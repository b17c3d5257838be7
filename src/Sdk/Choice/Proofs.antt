-- ===== src/Sdk/Choice/Proofs.antt =====
-- sdk/src/settlement.ts, `buildSettlementProof`: the legs that it proves and the source that it chooses.
use optara.Common.{
  ℕ, ◌+◌, ◌-◌, ◌*◌, ◌^◌, ◌<◌, ◌≤◌, Bool, true, false, not, ◌&&◌, List, [], ◌∷◌, ltb, ◌==◌, ==_iff,
  if◌then◌else◌, ◌≡◌, ◌≢◌, ◌⊎◌, ◌↔◌, refl, inl, inr, Bool-cases, arith,
}
use optara.Common.Int.{ℤ, pos, negsuc, pos_part, leb_ℤ, ◌+ℤ◌}
use optara.Sdk.Rounds.{Round, Feed, RoundProof, ok, find_round_in_force}
use optara.Sdk.Rounds.Proofs.{InForce, IsFeedOf, IsOrdered, time_of, find_round_in_force-InForce}
use optara.Sdk.Choice.{
  FeedSource, Config, SettlementData, Preview, kind_none, kind_derived, uint256_max, leg_valid,
  source_valid, skew_of, source_proofs, previewed, choose_source, build_settlement_proof, clamp,
}

-- A positive answer whose price at 18 decimals fits 256 bits.
abbrev pub IsPrice : ℤ → ℕ → Type 0
IsPrice (pos a) scale = (0 < a) × (a * scale ≤ uint256_max)
IsPrice (negsuc a) scale = ⊥

abbrev pub IsGoodLeg : ℕ → ℕ → RoundProof → Type 0
IsGoodLeg start decimals p = IsPrice p.answer (10 ^ (18 - decimals)) × (start ≤ p.updated_at)

-- The legs are good, and the two of a derived source at most `skew` apart.
abbrev pub IsUsable : FeedSource → ℕ → List RoundProof → ℕ → Type 0
IsUsable s skew [] start = Unit
IsUsable s skew (u ∷ []) start = IsGoodLeg start s.feed_decimals u
IsUsable s skew (u ∷ q ∷ _) start =
    IsGoodLeg start s.feed_decimals u
    × IsGoodLeg start s.quote_feed_decimals q
    × ((u.updated_at ≤ q.updated_at + skew) × (q.updated_at ≤ u.updated_at + skew))

positive_and_fits_iff :
    (a : ℤ) (scale start t : ℕ)
    → ((not (leb_ℤ a (pos 0)) && not (ltb t start) && not (ltb uint256_max (pos_part a * scale)))
        ≡ true)
      ↔ (IsPrice a scale × (start ≤ t))
positive_and_fits_iff (pos a) scale start t = ground arith
positive_and_fits_iff (negsuc a) scale start t = ground arith

leg_valid_iff :
    (start decimals : ℕ) (p : RoundProof)
    → (leg_valid start decimals p ≡ true) ↔ IsGoodLeg start decimals p
unfolding leg_valid
leg_valid_iff start decimals p =
    positive_and_fits_iff p.answer (10 ^ (18 - decimals)) start p.updated_at

three_iff :
    {A B C : Type 0} (a b c : Bool)
    → (a ≡ true) ↔ A
    → (b ≡ true) ↔ B
    → (c ≡ true) ↔ C
    → ((a && b && c) ≡ true) ↔ (A × B × C)
three_iff true true c f g k = (λ h. (f.0 refl, g.0 refl, k.0 h), λ h. k.1 h.2)
three_iff true false c f g k = (λ h. cc h, λ h. g.1 h.1)
three_iff false b c f g k = (λ h. cc h, λ h. f.1 h.0)

skew_iff :
    (skew u q : ℕ) → (not (ltb skew (skew_of u q)) ≡ true) ↔ ((u ≤ q + skew) × (q ≤ u + skew))
skew_iff skew u q = ground arith

source_valid_iff :
    (s : FeedSource) (skew : ℕ) (ps : List RoundProof) (start : ℕ)
    → (source_valid s skew ps start ≡ true) ↔ IsUsable s skew ps start
unfolding source_valid
source_valid_iff s skew [] start = (λ h. tt, λ h. refl)
source_valid_iff s skew (u ∷ []) start = leg_valid_iff start s.feed_decimals u
source_valid_iff s skew (u ∷ q ∷ ps) start =
    three_iff _ _ _ (leg_valid_iff start s.feed_decimals u)
      (leg_valid_iff start s.quote_feed_decimals q) (skew_iff skew u.updated_at q.updated_at)

abbrev pub legs_of : FeedSource → List ℕ
legs_of s = if s.kind == kind_derived then s.feed ∷ s.quote_feed ∷ [] else s.feed ∷ []

module _ (feeds : ℕ → Feed) (phases : ℕ → ℕ) (count : ℕ → ℕ → ℕ) (round : ℕ → ℕ → ℕ → Round) where
  -- The leg is the feed's round in force at `t`, with the proof of that.
  abbrev pub IsLegAt : ℕ → ℕ → RoundProof → Type 0
  IsLegAt t f p = (q : ℕ) × (b : ℕ) × InForce (feeds f) (phases f) (count f) (round f) t q b (ok p)

  abbrev pub AreLegsAt : ℕ → List ℕ → List RoundProof → Type 0
  AreLegsAt t [] [] = Unit
  AreLegsAt t [] (p ∷ ps) = ⊥
  AreLegsAt t (f ∷ fs) [] = ⊥
  AreLegsAt t (f ∷ fs) (p ∷ ps) = IsLegAt t f p × AreLegsAt t fs ps

  -- The primary source where it is usable or there is no fallback, else the fallback.
  abbrev pub IsChosen : Config → ℕ → ℕ → SettlementData → Type 0
  IsChosen cfg start end d =
      AreLegsAt end (legs_of cfg.primary) d.primary_proofs
      × (((d.source_index ≡ 0)
            × (d.fallback_proofs ≡ [])
            × (IsUsable cfg.primary cfg.max_leg_skew d.primary_proofs start
                ⊎ (cfg.fallback_source.kind ≡ kind_none)))
          ⊎ ((d.source_index ≡ 1)
              × (IsUsable cfg.primary cfg.max_leg_skew d.primary_proofs start → ⊥)
              × (cfg.fallback_source.kind ≢ kind_none)
              × AreLegsAt end (legs_of cfg.fallback_source) d.fallback_proofs))

  module _ (feeds-IsFeed : (f : ℕ) → IsFeedOf (feeds f) (phases f) (count f) (round f))
      (ordered : (f : ℕ) → IsOrdered (feeds f) (phases f) (count f) (round f))
      (verify : SettlementData → Preview) where
    leg_total :
        (t f : ℕ)
        → time_of (feeds f) (phases f) (count f) (round f) 1 1 ≤ t
        → (p : RoundProof) × (find_round_in_force (feeds f) t ≡ ok p) × IsLegAt t f p
    leg_total t f first =
        let (q, b, h) =
          find_round_in_force-InForce (feeds f) (phases f) (count f) (round f) (feeds-IsFeed f)
            (ordered f) t first in
        (
          _,
          h.result,
          (
            q,
            b,
            record {
              within = h.within;
              by_t = h.by_t;
              last = h.last;
              next = h.next;
              successor = h.successor;
              result = refl;
            },
          ),
        )

    source_proofs_total :
        (t : ℕ) (s : FeedSource)
        → ((f : ℕ) → time_of (feeds f) (phases f) (count f) (round f) 1 1 ≤ t)
        → (ps : List RoundProof) × (source_proofs feeds verify s t ≡ ok ps)
          × AreLegsAt t (legs_of s) ps
    unfolding source_proofs
    source_proofs_total t s first = elim (Bool-cases (s.kind == kind_derived)) [
      | inr one ↦
          let (u, found, leg) = leg_total t s.feed (first s.feed) in
          rw one (u ∷ [], rw found refl, (leg, tt))
      | inl two ↦
          let (u, found, leg) = leg_total t s.feed (first s.feed) in
          let (q, found', leg') = leg_total t s.quote_feed (first s.quote_feed) in
          rw two (u ∷ q ∷ [], rw found (rw found' refl), (leg, (leg', tt)))
    ]

    choose_source_total :
        (cfg : Config) (start t : ℕ) (ps : List RoundProof)
        → ((f : ℕ) → time_of (feeds f) (phases f) (count f) (round f) 1 1 ≤ t)
        → AreLegsAt t (legs_of cfg.primary) ps
        → (d : SettlementData) × (choose_source feeds verify cfg start t ps
            ≡ ok (previewed feeds verify d))
          × IsChosen cfg start t d
    unfolding choose_source
    choose_source_total cfg start t ps first legs =
        let usable = source_valid_iff cfg.primary cfg.max_leg_skew ps start in
        elim (Bool-cases (source_valid cfg.primary cfg.max_leg_skew ps start)) [
          | inl valid ↦ rw valid (
            record { source_index = 0; primary_proofs = ps; fallback_proofs = [] },
            refl,
            (legs, inl (refl, refl, inl (usable.0 valid))),
          )
          | inr invalid ↦ elim (Bool-cases (cfg.fallback_source.kind == kind_none)) [
            | inl absent ↦
                rw (invalid, absent)
                  (
                    record { source_index = 0; primary_proofs = ps; fallback_proofs = [] },
                    refl,
                    (
                      legs,
                      inl (refl, refl, inr ((==_iff cfg.fallback_source.kind kind_none).0 absent)),
                    ),
                  )
            | inr there ↦
                let (qs, found, legs') = source_proofs_total t cfg.fallback_source first in
                rw (invalid, there, found)
                  (
                    record { source_index = 1; primary_proofs = ps; fallback_proofs = qs },
                    refl,
                    (legs, inr (refl, (λ h. cc (usable.1 h, invalid)), ground arith, legs')),
                  )
          ]
        ]

    -- Where every feed is a feed of phases of rounds in order of time whose first round is not
    -- after the end of the window, buildSettlementProof returns, with the preview of its data: the
    -- primary source's legs are its feeds' rounds in force at the end of the window, each with the
    -- proof of that, and either these are usable (positive answers that fit 256 bits at 18
    -- decimals, inside the window, and for a derived source at most the skew apart) or there is no
    -- fallback, and the primary source is taken alone, or they are not usable and there is a
    -- fallback, and the fallback's legs, in force at the end too, are taken with them.
    pub build_settlement_proof-IsChosen :
        (cfg : Config) (expiry : ℕ)
        → let start = clamp (pos expiry +ℤ cfg.observation_start_offset) in
          let end = clamp (pos expiry +ℤ cfg.observation_end_offset) in
          ((f : ℕ) → time_of (feeds f) (phases f) (count f) (round f) 1 1 ≤ end)
          → (d : SettlementData) × (build_settlement_proof feeds verify cfg expiry
              ≡ ok (previewed feeds verify d))
            × IsChosen cfg start end d
    unfolding build_settlement_proof
    build_settlement_proof-IsChosen cfg expiry first =
        let start = clamp (pos expiry +ℤ cfg.observation_start_offset) in
        let end = clamp (pos expiry +ℤ cfg.observation_end_offset) in
        let (ps, found, legs) = source_proofs_total end cfg.primary first in
        let (d, chosen, is_chosen) = choose_source_total cfg start end ps first legs in
        (d, rw found chosen, is_chosen)
