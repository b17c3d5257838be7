-- ===== src/Publisher/Validate.antt =====
-- publisher/src/validate.ts: the violations of a report, by their codes. The checks that compute implied
-- volatilities in floating point are a parameter; the integer checks are here, in the source's order.
pub mod Proofs
pub mod Accept
use optara.Common.{
  ℕ, zero, suc, ◌+◌, ◌-◌, Bool, true, false, not, ◌&&◌, ◌||◌, List, [], ◌∷◌, ◌++◌, length, get_or,
  ltb, leb, ◌==◌, if◌then◌else◌,
}
use optara.Common.Int.{ℤ, leb_ℤ}
use optara.Sdk.Surface.{Four, SurfaceReport}

pub data ViolationCode : Type 0 where
  domain sequence time tenors knodes iv_bounds leaf_iv calendar butterfly iv_move : ViolationCode

pub record SurfaceConfigView : Type 0 where
  pub max_report_lifetime : ℕ
  pub max_iv_move_bps : ℕ
  pub max_confidence_bps : ℕ
  pub min_iv_bps : ℕ
  pub max_iv_bps : ℕ

pub record HeaderView : Type 0 where
  pub surface_seq : ℕ
  pub valid_after : ℕ
  pub tenor_timestamps : Four
  pub atm_total_variance_by_tenor : Four

pub record ValidationContext : Type 0 where
  pub chain_id : ℕ
  pub surface : ℕ
  pub now : ℕ
  pub config : SurfaceConfigView
  pub header : HeaderView
  pub emergency : Bool

-- The checks of implied volatilities: the tenors' and the leaves' bounds, the butterflies and the move.
pub record FloatChecks : Type 0 where
  pub atm_iv : SurfaceReport → ValidationContext → List ViolationCode
  pub leaf_iv_of : SurfaceReport → List (List ℕ) → List ViolationCode
  pub butterflies : SurfaceReport → List (List ℕ) → List ViolationCode
  pub moves : SurfaceReport → ValidationContext → List ViolationCode

abbrev pub when : Bool → ViolationCode → List ViolationCode
when b code = if b then code ∷ [] else []

abbrev pub list_of : Four → List ℕ
list_of (a, b, c, d) = a ∷ b ∷ c ∷ d ∷ []

-- `findIndex((t) => t === 0n)`, or the length.
unfoldable pub first_zero : List ℕ → ℕ
first_zero [] = 0
first_zero (t ∷ ts) = let rest = first_zero ts in if t == 0 then 0 else suc rest

unfoldable pub check_domain : SurfaceReport → ValidationContext → List ViolationCode
check_domain r ctx =
    when (not (r.chain_id == ctx.chain_id) || not (r.verifying_contract == ctx.surface)) domain

unfoldable pub check_sequence : SurfaceReport → ValidationContext → List ViolationCode
check_sequence r ctx =
    when (leb r.surface_seq ctx.header.surface_seq || ltb r.valid_after ctx.header.valid_after)
      sequence

-- `expiresAt - validAfter` is signed.
unfoldable pub check_time : SurfaceReport → ValidationContext → List ViolationCode
check_time r ctx =
    when
      (ltb ctx.now r.valid_after
        || (leb r.expires_at ctx.now
            || ltb (ctx.config.max_report_lifetime + r.valid_after) r.expires_at))
      time

-- Tenor `i` of the first `n`, against the one before.
unfoldable pub check_tenor : ℕ → List ℕ → List ℕ → ℕ → List ViolationCode
check_tenor n ts atm i =
    let t = get_or ts i 0 in
    let w = get_or atm i 0 in
    if ltb i n
    then when (w == 0) tenors
      ++ when (ltb 0 i && leb t (get_or ts (i - 1) 0)) tenors
      ++ when (ltb 0 i && ltb w (get_or atm (i - 1) 0)) calendar
    else when (not (t == 0) || not (w == 0)) tenors

unfoldable pub check_tenors : SurfaceReport → List ViolationCode
unfolding first_zero check_tenor
check_tenors r =
    let ts = list_of r.tenor_timestamps in
    let atm = list_of r.atm_total_variance_by_tenor in
    let n = first_zero ts in
    when ((n == 0) || leb (get_or ts 0 0) r.valid_after) tenors
    ++ check_tenor n ts atm 0
    ++ check_tenor n ts atm 1
    ++ check_tenor n ts atm 2
    ++ check_tenor n ts atm 3

unfoldable pub check_increasing : List ℤ → List ViolationCode
check_increasing [] = []
check_increasing (k ∷ []) = []
check_increasing (k ∷ next ∷ ks) = when (leb_ℤ next k) knodes ++ check_increasing (next ∷ ks)

unfoldable pub check_nodes : List ℤ → List ViolationCode
unfolding check_increasing
check_nodes ks = when ((length ks == 0) || ltb 32 (length ks)) knodes ++ check_increasing ks

unfoldable pub check_bounds : SurfaceReport → ValidationContext → List ViolationCode
check_bounds r ctx =
    when
      (ltb r.surface_min_iv_bps ctx.config.min_iv_bps
        || (ltb ctx.config.max_iv_bps r.surface_max_iv_bps
            || ltb r.surface_max_iv_bps r.surface_min_iv_bps))
      iv_bounds

-- A row against the row before it; a node that the row before lacks compares as false.
unfoldable pub check_row : List ℕ → List ℕ → List ViolationCode
check_row before [] = []
check_row [] (w ∷ row) = []
check_row (v ∷ before) (w ∷ row) = when (ltb w v) calendar ++ check_row before row

unfoldable pub check_calendar : List (List ℕ) → List ViolationCode
unfolding check_row
check_calendar [] = []
check_calendar (row ∷ []) = []
check_calendar (row ∷ next ∷ rows) = check_row row next ++ check_calendar (next ∷ rows)

module _ (floats : FloatChecks) where
  unfoldable pub validate_report :
      SurfaceReport → List (List ℕ) → ValidationContext → List ViolationCode
  unfolding check_domain check_sequence check_time check_tenors check_nodes check_bounds
      check_calendar first_zero
  validate_report r grid ctx =
      check_domain r ctx
      ++ check_sequence r ctx
      ++ check_time r ctx
      ++ check_tenors r
      ++ check_nodes r.k_nodes
      ++ check_bounds r ctx
      ++ floats.atm_iv r ctx
      ++ when (not (length grid == first_zero (list_of r.tenor_timestamps))) tenors
      ++ floats.leaf_iv_of r grid
      ++ check_calendar grid
      ++ floats.butterflies r grid
      ++ (if not (ctx.header.surface_seq == 0) && not ctx.emergency then floats.moves r ctx else [])
