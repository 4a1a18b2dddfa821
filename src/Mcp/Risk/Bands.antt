-- ===== src/Mcp/Risk/Bands.antt =====
-- app/mcp/risk_server.py: the order of the scores and of the bands.
use native.Mathlib.Nat.{mul-le-mul, mul-le-mul_right}
use agentic_enterprise.Base.{
  ℕ, ◌*◌, ◌≤◌, ◌<◌, ◌≡◌, refl, inl, inr, Bool, true, false, ◌&&◌, arith, ltb, leb, Bool-cases, Text,
  ok,
}
use agentic_enterprise.Mcp.Risk.Rounding.{nearest_mono, double_mono}
use agentic_enterprise.Mcp.Risk.{
  nearest, one, times, round_2, Industry, base_rate, multiplier, risk_score, Band, high, standard,
  RiskReport, band_of, calculate_corporate_risk,
}

pub one_positive : 0 < one
unfolding one
one_positive = omega arith

pub times_mono : (x x' y y' : ℕ) → x ≤ x' → y ≤ y' → times x y ≤ times x' y'
unfolding times
times_mono x x' y y' h k = double_mono (x * y) (x' * y') one one_positive (mul-le-mul h k)

pub round_2_mono : (x y : ℕ) → x ≤ y → round_2 x ≤ round_2 y
unfolding round_2
round_2_mono x y h =
    double_mono (nearest (x * 100) one * one) (nearest (y * 100) one * one) 100 (omega arith)
      (mul-le-mul_right one (nearest_mono (x * 100) (y * 100) one one_positive (omega (arith, h))))

pub multiplier_mono : (r r' : Bool) → (r ≡ true → r' ≡ true) → multiplier r ≤ multiplier r'
unfolding multiplier
multiplier_mono false false h = omega arith
multiplier_mono false true h = omega arith
multiplier_mono true true h = omega arith
multiplier_mono true false h = ground (arith, h refl)

pub risk_score_mono :
    (industry : Industry) (e e' : ℕ) (r r' : Bool)
    → e ≤ e'
    → (r ≡ true → r' ≡ true)
    → risk_score industry e r ≤ risk_score industry e' r'
unfolding risk_score
risk_score_mono industry e e' r r' h k = round_2_mono _ _ (
    times_mono _ _ _ _ (times_mono e e' (base_rate industry) (base_rate industry) h (omega arith))
      (multiplier_mono r r' k))

-- The bands in their order.
abbrev pub rank : Band → ℕ
rank standard = 0
rank high = 1

band_mono : (s s' : ℕ) → s ≤ s' → rank (band_of s) ≤ rank (band_of s')
unfolding band_of
band_mono s s' h = ground arith

pub report_of :
    (name : Text) (industry : Industry) (e : ℕ) (r : Bool) (a : RiskReport)
    → calculate_corporate_risk name industry e r ≡ ok a
    → (a.score ≡ risk_score industry e r) × (a.band ≡ band_of (risk_score industry e r))
unfolding calculate_corporate_risk
report_of name industry e r a h = elim (Bool-cases (ltb 0 e && leb e (1_000_000_000 * one))) [
  | inl valid ↦ let g = rw valid at h in (cc, cc)
  | inr refused ↦ let g = rw refused at h in absurd (cc)
]

-- In one industry, a company with at least the exposure of another, and regulated if the other is, never
-- gets a lower score nor a lower band, whatever the rounding of the doubles does.
pub more_exposure_is_no_safer :
    (name name' : Text) (industry : Industry) (e e' : ℕ) (r r' : Bool) (a b : RiskReport)
    → e ≤ e'
    → (r ≡ true → r' ≡ true)
    → calculate_corporate_risk name industry e r ≡ ok a
    → calculate_corporate_risk name' industry e' r' ≡ ok b
    → (a.score ≤ b.score) × (rank a.band ≤ rank b.band)
more_exposure_is_no_safer name name' industry e e' r r' a b h k first second =
    let (score, band) = report_of name industry e r a first in
    let (score', band') = report_of name' industry e' r' b second in
    let order = risk_score_mono industry e e' r r' h k in
    (rw (score, score') order, rw (band, band') (band_mono _ _ order))
