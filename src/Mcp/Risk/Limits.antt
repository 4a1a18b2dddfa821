-- ===== src/Mcp/Risk/Limits.antt =====
-- app/mcp/risk_server.py: the largest score, and the exposures that decide the band by themselves.
use native.Mathlib.Nat.{mul-le-mul_right}
use agentic_enterprise.Base.{
  ℕ, ◌*◌, ◌≤◌, ◌<◌, ◌≡◌, refl, inl, inr, ◌⊎◌, Bool, true, false, ◌&&◌, arith, ltb, leb, Bool-cases,
  Text, ok,
}
use agentic_enterprise.Mcp.Risk.Rounding.{double_mono}
use agentic_enterprise.Mcp.Risk.Bands.{times_mono, round_2_mono, multiplier_mono, report_of}
use agentic_enterprise.Mcp.Risk.{
  nearest, spacing, double, one, times, round_2, Industry, finance, tech, healthcare, manufacturing,
  percent, base_rate, multiplier, risk_score, high, standard, RiskReport, band_of,
  calculate_corporate_risk,
}

percent_most : (industry : Industry) → percent industry ≤ percent finance
percent_most finance = omega arith
percent_most tech = omega arith
percent_most healthcare = omega arith
percent_most manufacturing = omega arith

percent_least : (industry : Industry) → percent manufacturing ≤ percent industry
percent_least finance = omega arith
percent_least tech = omega arith
percent_least healthcare = omega arith
percent_least manufacturing = omega arith

base_rate_mono : (i j : Industry) → percent i ≤ percent j → base_rate i ≤ base_rate j
unfolding base_rate
base_rate_mono i j h =
    double_mono (percent i * one) (percent j * one) 100 (omega arith) (mul-le-mul_right one h)

-- The riskiest industry under oversight has the highest score, the safest one without it the lowest.
score_most :
    (industry : Industry) (e e' : ℕ) (r : Bool)
    → e ≤ e'
    → risk_score industry e r ≤ risk_score finance e' true
unfolding risk_score
score_most industry e e' r h = round_2_mono _ _ (
    times_mono _ _ _ _
      (times_mono e e' _ _ h (base_rate_mono industry finance (percent_most industry)))
      (multiplier_mono r true (λ k. refl)))

score_least :
    (industry : Industry) (e e' : ℕ) (r : Bool)
    → e ≤ e'
    → risk_score manufacturing e false ≤ risk_score industry e' r
unfolding risk_score
score_least industry e e' r h = round_2_mono _ _ (
    times_mono _ _ _ _
      (times_mono e e' _ _ h (base_rate_mono manufacturing industry (percent_least industry)))
      (multiplier_mono false r (λ k. cc)))

highest_score : risk_score finance (1_000_000_000 * one) true ≡ 225_000_000 * one
unfolding risk_score times round_2 base_rate multiplier double nearest spacing one
highest_score = refl

still_standard : ltb (100_000 * one) (risk_score finance (444_444 * one) true) ≡ false
unfolding risk_score times round_2 base_rate multiplier double nearest spacing one
still_standard = refl

always_high : ltb (100_000 * one) (risk_score manufacturing (2_000_001 * one) false) ≡ true
unfolding risk_score times round_2 base_rate multiplier double nearest spacing one
always_high = refl

at_most : (e most : ℕ) → (ltb 0 e && leb e most) ≡ true → e ≤ most
at_most e most h = ground (arith, h)

accepted_exposure :
    (name : Text) (industry : Industry) (e : ℕ) (r : Bool) (a : RiskReport)
    → calculate_corporate_risk name industry e r ≡ ok a
    → e ≤ 1_000_000_000 * one
unfolding calculate_corporate_risk
accepted_exposure name industry e r a h =
    elim (Bool-cases (ltb 0 e && leb e (1_000_000_000 * one))) [
      | inl valid ↦ at_most e (1_000_000_000 * one) valid
      | inr refused ↦ let g = rw refused at h in absurd (cc)
    ]

-- Whatever is asked, a score is at most 225000000.0. Up to an exposure of 444444 the band is Standard in
-- each industry, regulated or not, and from 2000001 on it is High.
pub scores_are_bounded :
    (name : Text) (industry : Industry) (e : ℕ) (r : Bool) (a : RiskReport)
    → calculate_corporate_risk name industry e r ≡ ok a
    → (a.score ≤ 225_000_000 * one)
      × ((a.band ≡ standard) ⊎ (444_444 * one < e))
      × ((a.band ≡ high) ⊎ (e < 2_000_001 * one))
unfolding band_of
scores_are_bounded name industry e r a h =
    let (score, band) = report_of name industry e r a h in
    let most =
      score_most industry e (1_000_000_000 * one) r (accepted_exposure name industry e r a h) in
    (
      rw score (rw (← highest_score) most),
      elim (Bool-cases (leb e (444_444 * one))) [
        | inl small ↦
            let below = score_most industry e (444_444 * one) r (ground (arith, small)) in
            inl (rw band (ground (arith, still_standard, below)))
        | inr large ↦ inr (ground (arith, large))
      ],
      elim (Bool-cases (leb (2_000_001 * one) e)) [
        | inl large ↦
            let above = score_least industry (2_000_001 * one) e r (ground (arith, large)) in
            inl (rw band (ground (arith, always_high, above)))
        | inr small ↦ inr (ground (arith, small))
      ],
    )
