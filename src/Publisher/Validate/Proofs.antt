-- ===== src/Publisher/Validate/Proofs.antt =====
-- publisher/src/validate.ts: the reports without a violation.
use optara.Common.{
  ℕ, ◌+◌, ◌-◌, ◌≤◌, ◌<◌, Bool, true, false, not, ◌||◌, List, [], ◌∷◌, ◌++◌, length, get_or, ltb,
  leb, ◌==◌, ◌≡◌, ◌↔◌, ◌⊎◌, refl, arith,
}
use optara.Common.Int.{ℤ, leb_ℤ, ltb_ℤ}
use optara.Sdk.Surface.{SurfaceReport}
use optara.Publisher.Validate.{
  ViolationCode, ValidationContext, when, list_of, first_zero, check_domain, check_sequence,
  check_time, check_tenor, check_tenors, check_increasing, check_nodes, check_bounds, check_row,
  check_calendar, calendar, tenors, knodes,
}

pub append_none {ℓ} : {A : Type ℓ} (xs ys : List A) → ((xs ++ ys) ≡ []) ↔ ((xs ≡ []) × (ys ≡ []))
append_none [] ys = (λ h. (refl, h), λ h. h.1)
append_none (x ∷ xs) ys = (λ h. cc, λ h. cc)

when_none : (b : Bool) (code : ViolationCode) → (when b code ≡ []) ↔ (b ≡ false)
when_none true code = (λ h. cc, λ h. cc)
when_none false code = (λ h. refl, λ h. refl)

pub domain_none :
    (r : SurfaceReport) (ctx : ValidationContext)
    → (check_domain r ctx ≡ [])
      ↔ ((r.chain_id ≡ ctx.chain_id) × (r.verifying_contract ≡ ctx.surface))
unfolding check_domain
domain_none r ctx = ground arith

pub sequence_none :
    (r : SurfaceReport) (ctx : ValidationContext)
    → (check_sequence r ctx ≡ [])
      ↔ ((ctx.header.surface_seq < r.surface_seq) × (ctx.header.valid_after ≤ r.valid_after))
unfolding check_sequence
sequence_none r ctx = ground arith

pub time_none :
    (r : SurfaceReport) (ctx : ValidationContext)
    → (check_time r ctx ≡ []) ↔ (
        (r.valid_after ≤ ctx.now)
        × (ctx.now < r.expires_at)
        × (r.expires_at ≤ ctx.config.max_report_lifetime + r.valid_after))
unfolding check_time
time_none r ctx = ground arith

pub bounds_none :
    (r : SurfaceReport) (ctx : ValidationContext)
    → (check_bounds r ctx ≡ []) ↔ (
        (ctx.config.min_iv_bps ≤ r.surface_min_iv_bps)
        × (r.surface_min_iv_bps ≤ r.surface_max_iv_bps)
        × (r.surface_max_iv_bps ≤ ctx.config.max_iv_bps))
unfolding check_bounds
bounds_none r ctx = ground arith

-- Tenor `i`, of the `n` that are set: a positive variance, a later time than the tenor before, a variance
-- that is not below its; of the others: nothing.
abbrev pub IsTenor : ℕ → List ℕ → List ℕ → ℕ → Type 0
IsTenor n ts atm i =
    (i < n)
      × (0 < get_or atm i 0)
      × ((i ≡ 0) ⊎ (get_or ts (i - 1) 0 < get_or ts i 0) × (get_or atm (i - 1) 0 ≤ get_or atm i 0))
    ⊎ (n ≤ i) × (get_or ts i 0 ≡ 0) × (get_or atm i 0 ≡ 0)

IsTenor-none :
    (n : ℕ) (ts atm : List ℕ) (i : ℕ) → (check_tenor n ts atm i ≡ []) ↔ IsTenor n ts atm i
unfolding check_tenor
IsTenor-none n ts atm i = ground arith

abbrev pub IsTenorRow : SurfaceReport → Type 0
IsTenorRow r =
    let ts = list_of r.tenor_timestamps in
    let atm = list_of r.atm_total_variance_by_tenor in
    let n = first_zero ts in
    ((0 < n) × (r.valid_after < get_or ts 0 0))
    × IsTenor n ts atm 0
    × IsTenor n ts atm 1
    × IsTenor n ts atm 2
    × IsTenor n ts atm 3

abbrev pub IsIncreasing : List ℤ → Type 0
IsIncreasing [] = Unit
IsIncreasing (k ∷ []) = Unit
IsIncreasing (k ∷ next ∷ ks) = (ltb_ℤ k next ≡ true) × IsIncreasing (next ∷ ks)

IsIncreasing-none : (ks : List ℤ) → (check_increasing ks ≡ []) ↔ IsIncreasing ks
unfolding check_increasing
IsIncreasing-none [] = (λ h. tt, λ h. refl)
IsIncreasing-none (k ∷ []) = (λ h. tt, λ h. refl)
IsIncreasing-none (k ∷ next ∷ ks) =
    let rest = IsIncreasing-none (next ∷ ks) in
    let parts = append_none (when (leb_ℤ next k) knodes) (check_increasing (next ∷ ks)) in
    (λ h. (ground arith, rest.0 (parts.0 h).1), λ h. parts.1 (ground arith, rest.1 h.1))

abbrev pub IsRowAbove : List ℕ → List ℕ → Type 0
IsRowAbove before [] = Unit
IsRowAbove [] (w ∷ row) = Unit
IsRowAbove (v ∷ before) (w ∷ row) = (v ≤ w) × IsRowAbove before row

abbrev pub IsCalendar : List (List ℕ) → Type 0
IsCalendar [] = Unit
IsCalendar (row ∷ []) = Unit
IsCalendar (row ∷ next ∷ rows) = IsRowAbove row next × IsCalendar (next ∷ rows)

row_none : (before row : List ℕ) → (check_row before row ≡ []) ↔ IsRowAbove before row
unfolding check_row
row_none [] [] = (λ h. tt, λ h. refl)
row_none (v ∷ before) [] = (λ h. tt, λ h. refl)
row_none [] (w ∷ row) = (λ h. tt, λ h. refl)
row_none (v ∷ before) (w ∷ row) =
    let rest = row_none before row in
    let parts = append_none (when (ltb w v) calendar) (check_row before row) in
    (λ h. (ground arith, rest.0 (parts.0 h).1), λ h. parts.1 (ground arith, rest.1 h.1))

pub IsCalendar-none : (grid : List (List ℕ)) → (check_calendar grid ≡ []) ↔ IsCalendar grid
unfolding check_calendar
IsCalendar-none [] = (λ h. tt, λ h. refl)
IsCalendar-none (row ∷ []) = (λ h. tt, λ h. refl)
IsCalendar-none (row ∷ next ∷ rows) =
    let first = row_none row next in
    let rest = IsCalendar-none (next ∷ rows) in
    let parts = append_none (check_row row next) (check_calendar (next ∷ rows)) in
    (λ h. (first.0 (parts.0 h).0, rest.0 (parts.0 h).1), λ h. parts.1 (first.1 h.0, rest.1 h.1))

first_none :
    (n t after : ℕ) → (when ((n == 0) || leb t after) tenors ≡ []) ↔ ((0 < n) × (after < t))
first_none n t after = ground arith

pub tenors_none : (r : SurfaceReport) → (check_tenors r ≡ []) ↔ IsTenorRow r
unfolding check_tenors
tenors_none r =
    let ts = list_of r.tenor_timestamps in
    let atm = list_of r.atm_total_variance_by_tenor in
    let n = first_zero ts in
    let head = when ((n == 0) || leb (get_or ts 0 0) r.valid_after) tenors in
    let first : (head ≡ []) ↔ ((0 < n) × (r.valid_after < get_or ts 0 0)) =
      first_none n (get_or ts 0 0) r.valid_after in
    let c₀ = check_tenor n ts atm 0 in
    let c₁ = check_tenor n ts atm 1 in
    let c₂ = check_tenor n ts atm 2 in
    let c₃ = check_tenor n ts atm 3 in
    let p₃ = append_none (head ++ c₀ ++ c₁ ++ c₂) c₃ in
    let p₂ = append_none (head ++ c₀ ++ c₁) c₂ in
    let p₁ = append_none (head ++ c₀) c₁ in
    let p₀ = append_none head c₀ in
    let t₀ = IsTenor-none n ts atm 0 in
    let t₁ = IsTenor-none n ts atm 1 in
    let t₂ = IsTenor-none n ts atm 2 in
    let t₃ = IsTenor-none n ts atm 3 in
    (
      λ h.
          let h₃ = p₃.0 h in
          let h₂ = p₂.0 h₃.0 in
          let h₁ = p₁.0 h₂.0 in
          let h₀ = p₀.0 h₁.0 in (first.0 h₀.0, t₀.0 h₀.1, t₁.0 h₁.1, t₂.0 h₂.1, t₃.0 h₃.1),
      λ h. p₃.1 (p₂.1 (p₁.1 (p₀.1 (first.1 h.0, t₀.1 h.1), t₁.1 h.2), t₂.1 h.3), t₃.1 h.4),
    )

pub nodes_none :
    (ks : List ℤ) → (check_nodes ks ≡ []) ↔ (((0 < length ks) × (length ks ≤ 32)) × IsIncreasing ks)
unfolding check_nodes
nodes_none ks =
    let parts =
      append_none (when ((length ks == 0) || ltb 32 (length ks)) knodes) (check_increasing ks) in
    let rest = IsIncreasing-none ks in
    (
      λ h. let first = (parts.0 h).0 in ((ground arith, ground arith), rest.0 (parts.0 h).1),
      λ h. parts.1 (ground arith, rest.1 h.1),
    )

pub rows_none : (a b : ℕ) → (when (not (a == b)) tenors ≡ []) ↔ (a ≡ b)
rows_none a b = ground arith
