-- ===== src/Publisher/Tests.antt =====
-- A product with two tenors and two nodes: validation, a quorum of two, the memory and the leaves.
use optara.Common.{
  ℕ, ◌+◌, ◌*◌, ◌<◌, true, false, Option, none, some, List, [], ◌∷◌, ◌≡◌, ◌↔◌, refl, inl, ◌==◌, All,
  get_key,
}
use optara.Common.Int.{pos, negsuc}
use optara.Sdk.Surface.{SurfaceReport, SurfaceGrid, ReportInput}
use optara.Publisher.Validate.{
  FloatChecks, ValidationContext, validate_report, time, sequence, calendar, tenors,
}
use optara.Publisher.Validate.Accept.{validate_report_iff, IsAcceptable, FloatsPass}
use optara.Publisher.Reports.{
  Oracle, Signature, Signed, built, publish, remember, latest, next_seq, by_seq, keys_of,
  sort_signatures, not_independent, check_quorum,
}
use optara.Publisher.Reports.Quorum.{IsPublished, publish-IsPublished}
use optara.Publisher.Reports.Newest.{IsHeld, remember-IsHeld}

abbrev pub hash : ℕ → ℕ → ℕ
hash a b = (a + b) * (a + b) + a

abbrev pub leaf : ℕ → ℕ → ℕ → ℕ → ℕ → ℕ
leaf p s t j v = p + s + t * 100 + j * 10 + v

abbrev pub input : ReportInput
input = record {
  chain_id = 143;
  verifying_contract = 1;
  product_id = 7;
  underlying = 2;
  settlement_asset = 3;
  seq = 12;
  valid_after = 100;
  lifetime = 60;
  tenors = 1000 ∷ 2000 ∷ [];
  k_nodes = negsuc 4 ∷ pos 5 ∷ [];
  w = (11 ∷ 12 ∷ []) ∷ (21 ∷ 22 ∷ []) ∷ [];
  atm = 11 ∷ 21 ∷ [];
  surface_min_iv_bps = 100;
  surface_max_iv_bps = 9000;
  confidence_bps = 50;
  source_count = 2;
  liquidity_score = none;
  max_bid_ask_width_bps = none;
  last_calibration_time = none;
  spot_reference_id = none;
  risk_parameter_set_id = none;
}

abbrev report : SurfaceReport
report = record {
  chain_id = 143;
  verifying_contract = 1;
  product_id = 7;
  underlying = 2;
  settlement_asset = 3;
  surface_seq = 12;
  valid_after = 100;
  expires_at = 160;
  spot_reference_id = 0;
  surface_root = 5;
  tenor_timestamps = (1000, 2000, 0, 0);
  atm_total_variance_by_tenor = (11, 21, 0, 0);
  k_nodes = negsuc 4 ∷ pos 5 ∷ [];
  surface_min_iv_bps = 100;
  surface_max_iv_bps = 9000;
  confidence_bps = 50;
  source_count = 2;
  liquidity_score = 0;
  max_bid_ask_width_bps = 0;
  last_calibration_time = 100;
  risk_parameter_set_id = 0;
}

abbrev no_floats : FloatChecks
no_floats = record {
  atm_iv = λ r ctx. [];
  leaf_iv_of = λ r grid. [];
  butterflies = λ r grid. [];
  moves = λ r ctx. [];
}

abbrev context : ValidationContext
context = record {
  chain_id = 143;
  surface = 1;
  now = 110;
  config = record {
    max_report_lifetime = 60;
    max_iv_move_bps = 500;
    max_confidence_bps = 100;
    min_iv_bps = 50;
    max_iv_bps = 10000;
  };
  header = record {
    surface_seq = 11;
    valid_after = 40;
    tenor_timestamps = (1000, 2000, 0, 0);
    atm_total_variance_by_tenor = (10, 20, 0, 0);
  };
  emergency = false;
}

valid_report : validate_report no_floats report input.w context ≡ []
unfolding validate_report
valid_report = refl

-- Too late, an old sequence, and a second tenor before the first.
three_violations :
    validate_report no_floats
      (record report { surface_seq = 11; expires_at = 110; tenor_timestamps = (1000, 900, 0, 0) })
      input.w
      context
    ≡ sequence ∷ time ∷ tenors ∷ []
unfolding validate_report
three_violations = refl

falling_row :
    validate_report no_floats report ((11 ∷ 12 ∷ []) ∷ (10 ∷ 22 ∷ []) ∷ []) context ≡ calendar ∷ []
unfolding validate_report
falling_row = refl

validate_report_iff_example :
    (validate_report no_floats report input.w context ≡ [])
    ↔ (IsAcceptable report input.w context × FloatsPass no_floats report input.w context)
validate_report_iff_example = validate_report_iff no_floats report input.w context

-- Signatures are the signers' numbers; 2 is active and independent.
abbrev oracle : Oracle
oracle = record {
  quorum = 2;
  is_active = λ s. true;
  is_independent = λ s. s == 2;
  recover = λ r s. s;
}

abbrev grid : SurfaceGrid
grid = record { product_id = 7; seq = 12; w = input.w; leaves = []; tree = record { layers = [] } }

abbrev sign : ℕ → SurfaceReport → ℕ
sign key r = key

abbrev cosigner : SurfaceReport → List (List ℕ) → Option Signature
cosigner r w = some (record { signer = 2; signature = 2 })

in_order :
    sort_signatures
      (record { signer = 3; signature = 30 } ∷ record { signer = 2; signature = 20 } ∷ [])
    ≡ some (20 ∷ 30 ∷ [])
unfolding sort_signatures
in_order = refl

twice :
    sort_signatures
      (record { signer = 3; signature = 30 } ∷ record { signer = 3; signature = 20 } ∷ [])
    ≡ none
unfolding sort_signatures
twice = refl

alone :
    check_quorum oracle report
      (record { signer = 3; signature = 3 } ∷ record { signer = 4; signature = 4 } ∷ [])
    ≡ some not_independent
unfolding check_quorum
alone = refl

publish-IsPublished_example :
    IsPublished oracle sign
      (3 ∷ [])
      (cosigner ∷ [])
      (built report grid [])
      []
      (publish oracle sign (3 ∷ []) (cosigner ∷ []) (built report grid []) [])
publish-IsPublished_example =
    publish-IsPublished oracle sign (3 ∷ []) (cosigner ∷ []) (built report grid []) []

abbrev signed : Signed
signed = record { report = report; grid = grid; signatures = 2 ∷ 3 ∷ []; signers = 3 ∷ 2 ∷ [] }

nothing-IsHeld : IsHeld (by_seq [] 7)
unfolding get_key
nothing-IsHeld = inl refl

first_number : 12 ≡ next_seq (latest [] 7) 11
unfolding latest next_seq get_key
first_number = refl

remember-IsHeld_example :
    IsHeld (by_seq (remember signed []) 7)
    × (latest (remember signed []) 7 ≡ some signed)
    × (11 < 12)
    × All (λ k. k < 12) (keys_of (by_seq [] 7))
remember-IsHeld_example = remember-IsHeld signed [] 11 nothing-IsHeld first_number
