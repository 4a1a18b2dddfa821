-- ===== src/Tests/Risk.antt =====
-- Scores as CPython computes them.
use Prim.Native.Nat.{◌/◌, ◌^◌}
use agentic_enterprise.Base.{◌*◌, ◌≤◌, ◌<◌, ◌⊎◌, ◌≡◌, refl, true, false, arith, codes, ok}
use agentic_enterprise.Mcp.Risk.{
  nearest, spacing, double, one, times, round_2, finance, manufacturing, base_rate, multiplier,
  risk_score, high, standard, RiskReport, band_of, calculate_corporate_risk,
}
use agentic_enterprise.Mcp.Risk.Limits.{scores_are_bounded}
use agentic_enterprise.Mcp.Risk.Bands.{rank, more_exposure_is_no_safer}

-- 1_000_000 in Finance, regulated: 225000.0.
score_of_million : risk_score finance (1_000_000 * one) true ≡ 225_000 * one
unfolding risk_score times round_2 base_rate multiplier double nearest spacing one
score_of_million = refl

-- 0.15 is 0x3fc3333333333333: 5404319552844595 times 2 ** -55.
rate_of_finance : base_rate finance * 2 ^ 55 ≡ 5_404_319_552_844_595 * one
unfolding base_rate double nearest spacing one
rate_of_finance = refl

-- Half a dollar in Manufacturing, not regulated: 0.025 is a little above a tie, and rounds to 0.03.
score_of_half : risk_score manufacturing (one / 2) false ≡ double (3 * one) 100
unfolding risk_score times round_2 base_rate multiplier double nearest spacing one
score_of_half = refl

abbrev smaller : RiskReport
smaller = record {
  entity = codes "a";
  score = 75_000 * one;
  band = standard;
  logic_version = codes "2026.09.0";
}

abbrev larger : RiskReport
larger = record {
  entity = codes "b";
  score = 225_000 * one;
  band = high;
  logic_version = codes "2026.09.0";
}

smaller_is_reported :
    calculate_corporate_risk (codes "a") finance (500_000 * one) false ≡ ok smaller
unfolding calculate_corporate_risk risk_score band_of times round_2 base_rate multiplier double
    nearest spacing one
smaller_is_reported = refl

larger_is_reported : calculate_corporate_risk (codes "b") finance (1_000_000 * one) true ≡ ok larger
unfolding calculate_corporate_risk risk_score band_of times round_2 base_rate multiplier double
    nearest spacing one
larger_is_reported = refl

more_exposure_is_no_safer_example :
    (smaller.score ≤ larger.score) × (rank smaller.band ≤ rank larger.band)
unfolding one
more_exposure_is_no_safer_example =
    more_exposure_is_no_safer (codes "a") (codes "b") finance (500_000 * one) (1_000_000 * one)
      false true smaller larger (omega arith) (λ f. refl) smaller_is_reported larger_is_reported

scores_are_bounded_example :
    (larger.score ≤ 225_000_000 * one)
    × ((larger.band ≡ standard) ⊎ (444_444 * one < 1_000_000 * one))
    × ((larger.band ≡ high) ⊎ (1_000_000 * one < 2_000_001 * one))
scores_are_bounded_example =
    scores_are_bounded (codes "b") finance (1_000_000 * one) true larger larger_is_reported
