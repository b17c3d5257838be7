-- ===== src/Publisher/Validate/Accept.antt =====
-- publisher/src/validate.ts: a report has no violation exactly where its acceptance conditions hold.
use optara.Common.{
  ℕ, ◌+◌, ◌≤◌, ◌<◌, false, not, ◌&&◌, List, [], ◌++◌, length, ◌==◌, if◌then◌else◌, ◌≡◌, ◌↔◌, inl,
  inr, refl, arith, Bool-cases, true≢false,
}
use optara.Sdk.Surface.{SurfaceReport}
use optara.Publisher.Validate.{
  ValidationContext, FloatChecks, when, list_of, first_zero, check_domain, check_sequence,
  check_time, check_tenors, check_nodes, check_bounds, check_calendar, validate_report, tenors,
}
use optara.Publisher.Validate.Proofs.{
  append_none, domain_none, sequence_none, time_none, bounds_none, IsCalendar-none, tenors_none,
  nodes_none, rows_none, IsTenorRow, IsIncreasing, IsCalendar,
}

-- Twelve lists put together are empty where each of them li.
twelve_none {ℓ} :
    {A : Type ℓ} (la lb lc ld le lf lg lh li lj lk ll : List A)
    → ((la ++ lb ++ lc ++ ld ++ le ++ lf ++ lg ++ lh ++ li ++ lj ++ lk ++ ll) ≡ []) ↔ (
        (la ≡ [])
        × (lb ≡ [])
        × (lc ≡ [])
        × (ld ≡ [])
        × (le ≡ [])
        × (lf ≡ [])
        × (lg ≡ [])
        × (lh ≡ [])
        × (li ≡ [])
        × (lj ≡ [])
        × (lk ≡ [])
        × (ll ≡ []))
twelve_none la lb lc ld le lf lg lh li lj lk ll = (
  λ h.
      let p11 =
        (append_none (la ++ lb ++ lc ++ ld ++ le ++ lf ++ lg ++ lh ++ li ++ lj ++ lk) ll).0 h in
      let p10 =
        (append_none (la ++ lb ++ lc ++ ld ++ le ++ lf ++ lg ++ lh ++ li ++ lj) lk).0 p11.0 in
      let p9 = (append_none (la ++ lb ++ lc ++ ld ++ le ++ lf ++ lg ++ lh ++ li) lj).0 p10.0 in
      let p8 = (append_none (la ++ lb ++ lc ++ ld ++ le ++ lf ++ lg ++ lh) li).0 p9.0 in
      let p7 = (append_none (la ++ lb ++ lc ++ ld ++ le ++ lf ++ lg) lh).0 p8.0 in
      let p6 = (append_none (la ++ lb ++ lc ++ ld ++ le ++ lf) lg).0 p7.0 in
      let p5 = (append_none (la ++ lb ++ lc ++ ld ++ le) lf).0 p6.0 in
      let p4 = (append_none (la ++ lb ++ lc ++ ld) le).0 p5.0 in
      let p3 = (append_none (la ++ lb ++ lc) ld).0 p4.0 in
      let p2 = (append_none (la ++ lb) lc).0 p3.0 in
      let p1 = (append_none (la) lb).0 p2.0 in
      (p1.0, p1.1, p2.1, p3.1, p4.1, p5.1, p6.1, p7.1, p8.1, p9.1, p10.1, p11.1),
  λ h. rw (h.0, h.1, h.2, h.3, h.4, h.5, h.6, h.7, h.8, h.9, h.10, h.11) refl,
)

-- The acceptance conditions that are integer conditions.
pub record IsAcceptable (r : SurfaceReport) (grid : List (List ℕ)) (ctx : ValidationContext)
    : Type 0 where
  pub chain : r.chain_id ≡ ctx.chain_id
  pub oracle : r.verifying_contract ≡ ctx.surface
  pub newer : ctx.header.surface_seq < r.surface_seq
  pub not_earlier : ctx.header.valid_after ≤ r.valid_after
  pub started : r.valid_after ≤ ctx.now
  pub live : ctx.now < r.expires_at
  pub lifetime : r.expires_at ≤ ctx.config.max_report_lifetime + r.valid_after
  pub tenor_row : IsTenorRow r
  pub node_count : (0 < length r.k_nodes) × (length r.k_nodes ≤ 32)
  pub nodes : IsIncreasing r.k_nodes
  pub above_min : ctx.config.min_iv_bps ≤ r.surface_min_iv_bps
  pub ordered : r.surface_min_iv_bps ≤ r.surface_max_iv_bps
  pub below_max : r.surface_max_iv_bps ≤ ctx.config.max_iv_bps
  pub rows : length grid ≡ first_zero (list_of r.tenor_timestamps)
  pub no_calendar : IsCalendar grid

-- The floating-point checks find nothing; the move is checked against a stored surface only, outside an
-- emergency.
abbrev pub FloatsPass : FloatChecks → SurfaceReport → List (List ℕ) → ValidationContext → Type 0
FloatsPass floats r grid ctx =
    (floats.atm_iv r ctx ≡ [])
    × (floats.leaf_iv_of r grid ≡ [])
    × (floats.butterflies r grid ≡ [])
    × ((0 < ctx.header.surface_seq) → ctx.emergency ≡ false → floats.moves r ctx ≡ [])

moves_none :
    (floats : FloatChecks) (r : SurfaceReport) (ctx : ValidationContext)
    → ((if not (ctx.header.surface_seq == 0) && not ctx.emergency then floats.moves r ctx else [])
        ≡ [])
      ↔ ((0 < ctx.header.surface_seq) → ctx.emergency ≡ false → floats.moves r ctx ≡ [])
moves_none floats r ctx = elim (Bool-cases (ctx.header.surface_seq == 0)) [
  | inl zero_seq ↦ rw zero_seq (λ h p e. absurd (ground arith), λ h. refl)
  | inr stored ↦ elim (Bool-cases ctx.emergency) [
    | inl emergency ↦ rw (stored, emergency) (λ h p e. absurd (true≢false e), λ h. refl)
    | inr calm ↦ rw (stored, calm) (λ h p e. h, λ h. h (ground arith) refl)
  ]
]

-- A report has no violation exactly where its integer conditions hold, that is the domain, the
-- order of sequences, the times, the tenors with their variances, the nodes, the bounds, the
-- number of rows and the calendar at every node, and the floating-point checks find nothing,
-- the move being checked outside an emergency where a surface is stored.
pub validate_report_iff :
    (floats : FloatChecks) (r : SurfaceReport) (grid : List (List ℕ)) (ctx : ValidationContext)
    → (validate_report floats r grid ctx ≡ [])
      ↔ (IsAcceptable r grid ctx × FloatsPass floats r grid ctx)
unfolding validate_report
validate_report_iff floats r grid ctx =
    let moves =
      if not (ctx.header.surface_seq == 0) && not ctx.emergency then floats.moves r ctx else [] in
    let rows = when (not (length grid == first_zero (list_of r.tenor_timestamps))) tenors in
    let parts =
      twelve_none (check_domain r ctx) (check_sequence r ctx) (check_time r ctx) (check_tenors r)
        (check_nodes r.k_nodes) (check_bounds r ctx) (floats.atm_iv r ctx) rows
        (floats.leaf_iv_of r grid) (check_calendar grid) (floats.butterflies r grid) moves in
    let same = rows_none (length grid) (first_zero (list_of r.tenor_timestamps)) in
    (
      λ h.
          let p = parts.0 h in
          let domain = (domain_none r ctx).0 p.0 in
          let sequence = (sequence_none r ctx).0 p.1 in
          let time = (time_none r ctx).0 p.2 in
          let nodes = (nodes_none r.k_nodes).0 p.4 in
          let bounds = (bounds_none r ctx).0 p.5 in
          (
            record {
              chain = domain.0;
              oracle = domain.1;
              newer = sequence.0;
              not_earlier = sequence.1;
              started = time.0;
              live = time.1;
              lifetime = time.2;
              tenor_row = (tenors_none r).0 p.3;
              node_count = nodes.0;
              nodes = nodes.1;
              above_min = bounds.0;
              ordered = bounds.1;
              below_max = bounds.2;
              rows = same.0 p.7;
              no_calendar = (IsCalendar-none grid).0 p.9;
            },
            (p.6, p.8, p.10, (moves_none floats r ctx).0 p.11),
          ),
      λ h.
          let a = h.0 in
          let f = h.1 in
          parts.1 (
            (domain_none r ctx).1 (a.chain, a.oracle),
            (sequence_none r ctx).1 (a.newer, a.not_earlier),
            (time_none r ctx).1 (a.started, a.live, a.lifetime),
            (tenors_none r).1 a.tenor_row,
            (nodes_none r.k_nodes).1 (a.node_count, a.nodes),
            (bounds_none r ctx).1 (a.above_min, a.ordered, a.below_max),
            f.0,
            same.1 a.rows,
            f.1,
            (IsCalendar-none grid).1 a.no_calendar,
            f.2,
            (moves_none floats r ctx).1 f.3,
          ),
    )
