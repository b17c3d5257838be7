-- ===== src/Sdk/Spot/Packages/Proofs.antt =====
-- sdk/src/signedPrices.ts: what is picked for a feed is a quorum on its latest timestamp that has one.
use optara.Common.{
  ℕ, ◌≤◌, ◌<◌, Option, none, some, List, [], ◌∷◌, length, All, ltb, leb, leb→le, leb_false→lt,
  ltb→lt, ◌≡◌, ◌⊎◌, inl, inr, arith, Bool-cases, All-map, get_key, ◌==◌, ==_iff, subst, refl,
}
use optara.Sdk.Spot.Packages.{
  GatewayPackage, or_no_packages, by_timestamp, later_of, best_of, pick_from, pick,
}
use optara.Sdk.Spot.Packages.Signers.{IsAgreed, AllAgreed, by_timestamp-AllAgreed, take-IsAgreed}
use optara.Sdk.Spot.Packages.Input.{
  HasQuorum, IsFrom, AllIn, signers_counted, by_timestamp-IsFrom, take-All,
}

-- An entry that holds packages of distinct authorized signers on its timestamp, all of those given.
abbrev IsSound : List ℕ → List GatewayPackage → ℕ × List GatewayPackage → Type 0
IsSound authorized packages e = IsAgreed authorized e.0 e.1 × All (IsFrom packages) e.1

entries-IsSound :
    (authorized : List ℕ) (packages : List GatewayPackage)
    (entries : List (ℕ × List GatewayPackage))
    → AllAgreed authorized entries
    → All (AllIn (IsFrom packages)) entries
    → All (IsSound authorized packages) entries
entries-IsSound authorized packages [] h k = tt
entries-IsSound authorized packages (e ∷ entries) (h, hs) (k, ks) =
    ((h, k), entries-IsSound authorized packages entries hs ks)

-- The entry with enough signers whose timestamp is the latest, where there is one.
abbrev IsBest :
    (ℕ × List GatewayPackage → Type 0)
    → ℕ
    → List (ℕ × List GatewayPackage)
    → Option (ℕ × List GatewayPackage)
    → Type 0
IsBest Q n entries none = All (λ (e : ℕ × List GatewayPackage). length e.1 < n) entries
IsBest Q n entries (some best) =
    (n ≤ length best.1)
    × Q best
    × All (λ (e : ℕ × List GatewayPackage). (length e.1 < n) ⊎ (e.0 ≤ best.0)) entries

skip-IsBest :
    (Q : ℕ × List GatewayPackage → Type 0) (n : ℕ) (e : ℕ × List GatewayPackage)
    (entries : List (ℕ × List GatewayPackage)) (best : Option (ℕ × List GatewayPackage))
    → length e.1 < n
    → IsBest Q n entries best
    → IsBest Q n (e ∷ entries) best
skip-IsBest Q n e entries none short h = (short, h)
skip-IsBest Q n e entries (some best) short (size, sound, others) =
    (size, sound, (inl short, others))

lower_bound :
    (n t u : ℕ) (entries : List (ℕ × List GatewayPackage))
    → t ≤ u
    → All (λ (e : ℕ × List GatewayPackage). (length e.1 < n) ⊎ (e.0 ≤ t)) entries
    → All (λ (e : ℕ × List GatewayPackage). (length e.1 < n) ⊎ (e.0 ≤ u)) entries
lower_bound n t u [] le h = tt
lower_bound n t u (e ∷ entries) le (inl short, rest) =
    (inl short, lower_bound n t u entries le rest)
lower_bound n t u (e ∷ entries) le (inr early, rest) =
    (inr (omega arith), lower_bound n t u entries le rest)

all_short :
    (n u : ℕ) (entries : List (ℕ × List GatewayPackage))
    → All (λ (e : ℕ × List GatewayPackage). length e.1 < n) entries
    → All (λ (e : ℕ × List GatewayPackage). (length e.1 < n) ⊎ (e.0 ≤ u)) entries
all_short n u [] h = tt
all_short n u (e ∷ entries) h = (inl h.0, all_short n u entries h.1)

later_of-IsBest :
    (Q : ℕ × List GatewayPackage → Type 0) (authorized : List ℕ) (n : ℕ)
    (e : ℕ × List GatewayPackage) (entries : List (ℕ × List GatewayPackage))
    (best : Option (ℕ × List GatewayPackage))
    → n ≤ length e.1
    → Q e
    → IsBest Q n entries best
    → IsBest Q n (e ∷ entries) (later_of authorized n e best)
later_of-IsBest Q authorized n e entries none enough agreed h =
    (enough, agreed, (inr (omega arith), all_short n e.0 entries h))
later_of-IsBest Q authorized n e entries (some best) enough agreed (size, agreed', others) =
    elim (Bool-cases (ltb e.0 best.0)) [
      | inl earlier ↦
          rw earlier
            (size, agreed', (inr (let lt = ltb→lt e.0 best.0 earlier in omega arith), others))
      | inr later ↦
          let le : best.0 ≤ e.0 = ground arith in
          rw later (enough, agreed, (inr (omega arith), lower_bound n best.0 e.0 entries le others))
    ]

best_of-IsBest :
    (Q : ℕ × List GatewayPackage → Type 0) (authorized : List ℕ) (n : ℕ)
    (entries : List (ℕ × List GatewayPackage))
    → All Q entries
    → IsBest Q n entries (best_of authorized n entries)
unfolding best_of
best_of-IsBest Q authorized n [] h = tt
best_of-IsBest Q authorized n (e ∷ entries) h =
    let rest = best_of-IsBest Q authorized n entries h.1 in
    elim (Bool-cases (leb n (length e.1))) [
      | inl enough ↦ rw enough (
          later_of-IsBest Q authorized n e entries (best_of authorized n entries)
            (leb→le n (length e.1) enough) h.0 rest)
      | inr short ↦ rw short (
          skip-IsBest Q n e entries (best_of authorized n entries)
            (leb_false→lt n (length e.1) short) rest)
    ]

entry_bound :
    (P : ℕ → List GatewayPackage → Type 0) (entries : List (ℕ × List GatewayPackage)) (t : ℕ)
    → All (λ (e : ℕ × List GatewayPackage). P e.0 e.1) entries
    → P t []
    → P t (or_no_packages (get_key entries t))
unfolding get_key
entry_bound P [] t h base = base
entry_bound P ((u, l) ∷ entries) t (now, later) base = elim (Bool-cases (u == t)) [
  | inl here ↦ rw here (subst (λ u. P u l) ((==_iff u t).0 here) now)
  | inr there ↦ rw there (entry_bound P entries t later base)
]

-- The packages picked for a feed: as many as asked for of those given, of distinct authorized signers, all
-- on the latest timestamp that has so many; or no timestamp has them.
abbrev pub IsPicked : List ℕ → ℕ → List GatewayPackage → Option (List GatewayPackage) → Type 0
IsPicked authorized n packages none = (t : ℕ) → ¬ HasQuorum authorized n packages t
IsPicked authorized n packages (some l) =
    (t : ℕ) × IsAgreed authorized t l
    × All (IsFrom packages) l
    × (length l ≡ n)
    × ((u : ℕ) → HasQuorum authorized n packages u → u ≤ t)

module _ (authorized : List ℕ) (n : ℕ) (packages : List GatewayPackage) where
  abbrev entries : List (ℕ × List GatewayPackage)
  entries = by_timestamp authorized n packages []

  -- A timestamp with a quorum has an entry with as many packages.
  quorum-listed :
      (t : ℕ)
      → HasQuorum authorized n packages t
      → let l = or_no_packages (get_key entries t) in (0 < length l) × (n ≤ length l)
  quorum-listed t (some_signer, enough) =
      let count = signers_counted authorized n packages t in (omega arith, omega arith)

  no_quorum :
      All (λ (e : ℕ × List GatewayPackage). length e.1 < n) entries
      → (t : ℕ) → ¬ HasQuorum authorized n packages t
  no_quorum h t quorum =
      let (some_package, enough) = quorum-listed t quorum in
      elim (entry_bound (λ u l. (length l < n) ⊎ (length l ≡ 0)) entries t
        (All-map (λ e short. inl short) entries h) (inr refl)) [
          | inl short ↦ omega arith
          | inr empty ↦ omega arith
        ]

  latest_quorum :
      (t : ℕ)
      → All (λ (e : ℕ × List GatewayPackage). (length e.1 < n) ⊎ (e.0 ≤ t)) entries
      → (u : ℕ) → HasQuorum authorized n packages u
      → u ≤ t
  latest_quorum t h u quorum =
      let (some_package, enough) = quorum-listed u quorum in
      elim (entry_bound (λ v l. (length l ≡ 0) ⊎ ((length l < n) ⊎ (v ≤ t))) entries u
        (All-map (λ e bound. inr bound) entries h) (inl refl)) [
          | inl empty ↦ absurd (omega arith)
          | inr (inl short) ↦ absurd (omega arith)
          | inr (inr le) ↦ le
        ]

  pick_from-IsPicked :
      (best : Option (ℕ × List GatewayPackage))
      → IsBest (IsSound authorized packages) n entries best
      → IsPicked authorized n packages (pick_from authorized n best)
  unfolding pick_from
  pick_from-IsPicked none h = no_quorum h
  pick_from-IsPicked (some best) (size, (agreed, from), others) =
      let (picked, count) = take-IsAgreed authorized best.0 n best.1 agreed size in
      (best.0, picked, take-All (IsFrom packages) n best.1 from, count, latest_quorum best.0 others)

-- The packages picked for a feed are of those given, exactly as many as asked for, of distinct
-- authorized signers, all on one timestamp, and no later timestamp of the packages given has so
-- many distinct authorized signers; nothing is picked only where no timestamp of a package of an
-- authorized signer has so many.
pub pick-IsPicked :
    (authorized : List ℕ) (n : ℕ) (packages : List GatewayPackage)
    → IsPicked authorized n packages (pick authorized n packages)
unfolding pick
pick-IsPicked authorized n packages =
    let found = by_timestamp authorized n packages [] in
    pick_from-IsPicked authorized n packages (best_of authorized n found) (
      best_of-IsBest (IsSound authorized packages) authorized n found (
        entries-IsSound authorized packages found
          (by_timestamp-AllAgreed authorized n packages [] tt)
          (by_timestamp-IsFrom authorized n packages)))
