-- ===== src/Sdk/Brackets/Proofs.antt =====
-- sdk/src/math.ts: the tenors that are found are neighbours around the expiry.
use optara.Common.{
  ℕ, zero, suc, ◌+◌, ◌-◌, ◌≤◌, ◌<◌, true, false, Option, none, some, List, [], ◌∷◌, length, get_or,
  ltb, ◌==◌, ◌≡◌, ◌⊎◌, refl, ap₂, ◌∙◌, inl, inr, ltb→lt, Bool-cases, arith,
}
use optara.Sdk.Brackets.{count_tenors, tenors_from, find_tenors}

-- The search ends at the first tenor that is not before the expiry.
abbrev Stops : ℕ → List ℕ → ℕ → ℕ → Type 0
Stops i ts expiry d =
    (get_or ts d 0 ≡ expiry) × (tenors_from i ts expiry ≡ some (i + d, i + d))
    ⊎ (expiry < get_or ts d 0)
      × ((e : ℕ) → d ≡ suc e → get_or ts e 0 < expiry)
      × (tenors_from i ts expiry ≡ some (i + d - 1, i + d))

pub found : {a b c d : ℕ} → a ≡ c → b ≡ d → ◌≡◌ {A = Option (ℕ × ℕ)} (some (a, b)) (some (c, d))
found p q = ap₂ (λ x y. some (x, y)) p q

head-Stops : (i t : ℕ) (ts : List ℕ) (expiry : ℕ) → expiry ≤ t → Stops i (t ∷ ts) expiry 0
unfolding tenors_from
head-Stops i t ts expiry k = elim (Bool-cases (t == expiry)) [
  | inl same ↦ inl (ground arith, rw same (found (omega arith) (omega arith)))
  | inr other ↦
      let after : ltb expiry t ≡ true = ground arith in
      inr (
        ltb→lt expiry t after,
        λ e h. absurd (omega arith),
        rw (other, after) (found (omega arith) (omega arith)),
      )
]

earlier :
    (t : ℕ) (ts : List ℕ) (expiry d : ℕ)
    → t < expiry
    → ((e : ℕ) → d ≡ suc e → get_or ts e 0 < expiry)
    → (e : ℕ) → suc d ≡ suc e
    → get_or (t ∷ ts) e 0 < expiry
earlier t ts expiry d before prior zero h = before
earlier t ts expiry d before prior (suc e) h = prior e (omega arith)

tail-Stops :
    (i t : ℕ) (ts : List ℕ) (expiry d : ℕ)
    → t < expiry
    → Stops (suc i) ts expiry d
    → Stops i (t ∷ ts) expiry (suc d)
unfolding tenors_from
tail-Stops i t ts expiry d before stops =
    let other : (t == expiry) ≡ false = ground arith in
    let not_after : ltb expiry t ≡ false = ground arith in
    elim stops [
      | inl (at, end) ↦ inl (at, rw (other, not_after) (end ∙ found (omega arith) (omega arith)))
      | inr (after, prior, end) ↦ inr (
        after,
        earlier t ts expiry d before prior,
        rw (other, not_after) (end ∙ found (omega arith) (omega arith)),
      )
    ]

tenors_from-Stops :
    (i : ℕ) (ts : List ℕ) (expiry j : ℕ)
    → j < length ts
    → expiry ≤ get_or ts j 0
    → (d : ℕ) × (d ≤ j) × Stops i ts expiry d
tenors_from-Stops i [] expiry j h k = absurd (omega arith)
tenors_from-Stops i (t ∷ ts) expiry zero h k = (0, omega arith, head-Stops i t ts expiry k)
tenors_from-Stops i (t ∷ ts) expiry (suc j) h k = elim (Bool-cases (ltb t expiry)) [
  | inl before ↦
      let (d, le, stops) = tenors_from-Stops (suc i) ts expiry j (omega arith) k in
      (suc d, omega arith, tail-Stops i t ts expiry d (ltb→lt t expiry before) stops)
  | inr not_before ↦ (0, omega arith, head-Stops i t ts expiry (ground arith))
]

count_le : (r : ℕ) (ts : List ℕ) → count_tenors r ts ≤ length ts
unfolding count_tenors
count_le zero ts = omega arith
count_le (suc r) [] = omega arith
count_le (suc r) (t ∷ ts) = let rest = count_le r ts in ground arith

-- What the lookup answers: nothing for an expiry outside the tenors that are set, or else two tenors that are
-- equal or neighbours, with the expiry between them.
abbrev pub IsTenorPair : List ℕ → ℕ → Option (ℕ × ℕ) → Type 0
IsTenorPair ts expiry none =
    let n = count_tenors 4 ts in (n ≡ 0) ⊎ (expiry < get_or ts 0 0) ⊎ (get_or ts (n - 1) 0 < expiry)
IsTenorPair ts expiry (some (a, b)) =
    (b < count_tenors 4 ts) × (get_or ts b 0 ≡ expiry) × (a ≡ b)
    ⊎ (b < count_tenors 4 ts) × (b ≡ suc a) × (get_or ts a 0 < expiry) × (expiry < get_or ts b 0)

Stops-IsTenorPair :
    (ts : List ℕ) (expiry d : ℕ)
    → d < count_tenors 4 ts
    → ltb expiry (get_or ts 0 0) ≡ false
    → Stops 0 ts expiry d
    → IsTenorPair ts expiry (tenors_from 0 ts expiry)
Stops-IsTenorPair ts expiry d inside not_early (inl (at, end)) =
    rw (end ∙ found {c = d} {d = d} (omega arith) (omega arith)) (inl (omega arith, at, refl))
Stops-IsTenorPair ts expiry zero inside not_early (inr (after, prior, end)) = absurd (ground arith)
Stops-IsTenorPair ts expiry (suc e) inside not_early (inr (after, prior, end)) =
    rw (end ∙ found {c = e} {d = suc e} (omega arith) (omega arith))
      (inr (omega arith, refl, prior e refl, after))

-- For any tenors and expiry, findTenors answers nothing where no tenor is set or the expiry is
-- before the first or after the last, and otherwise one set tenor equal to the expiry, twice,
-- or two neighbours with the expiry strictly between them.
pub find_tenors-IsTenorPair :
    (ts : List ℕ) (expiry : ℕ) → IsTenorPair ts expiry (find_tenors ts expiry)
unfolding find_tenors
find_tenors-IsTenorPair ts expiry =
    let n = count_tenors 4 ts in
    let below = count_le 4 ts in
    elim (Bool-cases (n == 0)) [
      | inl empty ↦ rw empty (inl (ground arith))
      | inr some_tenor ↦ elim (Bool-cases (ltb expiry (get_or ts 0 0))) [
        | inl early ↦ rw (some_tenor, early) (inr (inl (ltb→lt expiry (get_or ts 0 0) early)))
        | inr not_early ↦ elim (Bool-cases (ltb (get_or ts (n - 1) 0) expiry)) [
          | inl late ↦
              rw (some_tenor, not_early, late)
                (inr (inr (ltb→lt (get_or ts (n - 1) 0) expiry late)))
          | inr not_late ↦
              let (d, le, stops) =
                tenors_from-Stops 0 ts expiry (n - 1) (ground arith) (ground arith) in
              rw (some_tenor, not_early, not_late)
                (Stops-IsTenorPair ts expiry d (ground arith) not_early stops)
        ]
      ]
    ]
