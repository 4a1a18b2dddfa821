-- ===== src/Mcp/Risk.antt =====
-- app/mcp/risk_server.py: calculate_corporate_risk on doubles. A double that is not negative is the number
-- of its smallest steps, 2 ** -1074 each.
pub mod Rounding
pub mod Bands
pub mod Limits
use Prim.Native.Nat.{◌/◌, ◌%◌, ◌^◌}
use agentic_enterprise.Base.{
  ℕ, zero, suc, ◌+◌, ◌*◌, Bool, ◌&&◌, ltb, leb, if◌then◌else◌, Text, codes, validation_error,
  Result, err, ok,
}

-- n / d to the nearest integer, to the even one of two; d is not 0.
unfoldable pub nearest : ℕ → ℕ → ℕ
nearest n d =
    let q = n / d in
    let r = n % d in if ltb (2 * r) d then q else if ltb d (2 * r) then q + 1 else q + q % 2

-- How far two doubles are apart at q steps: they have 53 bits. q is enough fuel.
unfoldable pub spacing : ℕ → ℕ → ℕ
spacing zero q = 1
spacing (suc fuel) q =
    let wider = spacing fuel (q / 2) in if ltb q 9_007_199_254_740_992 then 1 else 2 * wider

-- The double nearest to n / d steps.
unfoldable pub double : ℕ → ℕ → ℕ
unfolding nearest spacing
double n d = let s = spacing (n / d) (n / d) in nearest n (d * s) * s

-- The steps of 1.0.
unfoldable pub one : ℕ
one = 2 ^ 1074

-- x * y
unfoldable pub times : ℕ → ℕ → ℕ
unfolding double one
times x y = double (x * y) one

-- round(x, 2): the nearest number of hundredths, as a double.
unfoldable pub round_2 : ℕ → ℕ
unfolding nearest double one
round_2 x = double (nearest (x * 100) one * one) 100

pub data Industry : Type 0 where
  finance tech healthcare manufacturing : Industry

-- Hundredths of the base rates 0.15, 0.08, 0.12 and 0.05.
abbrev pub percent : Industry → ℕ
percent finance = 15
percent tech = 8
percent healthcare = 12
percent manufacturing = 5

unfoldable pub base_rate : Industry → ℕ
unfolding double one
base_rate industry = double (percent industry * one) 100

unfoldable pub multiplier : Bool → ℕ
unfolding one
multiplier is_regulated = if is_regulated then 3 * one / 2 else one

unfoldable pub risk_score : Industry → ℕ → Bool → ℕ
unfolding times round_2 base_rate multiplier
risk_score industry exposure_value is_regulated =
    round_2 (times (times exposure_value (base_rate industry)) (multiplier is_regulated))

pub data Band : Type 0 where
  high standard : Band

pub record RiskReport : Type 0 where
  pub entity : Text
  pub score : ℕ
  pub band : Band
  pub logic_version : Text

unfoldable pub band_of : ℕ → Band
unfolding one
band_of score = if ltb (100_000 * one) score then high else standard

unfoldable pub calculate_corporate_risk : Text → Industry → ℕ → Bool → Result RiskReport
unfolding risk_score band_of one
calculate_corporate_risk company_name industry exposure_value is_regulated =
    let score = risk_score industry exposure_value is_regulated in
    if ltb 0 exposure_value && leb exposure_value (1_000_000_000 * one)
    then ok (record {
      entity = company_name;
      score = score;
      band = band_of score;
      logic_version = codes "2026.09.0";
    })
    else err validation_error
