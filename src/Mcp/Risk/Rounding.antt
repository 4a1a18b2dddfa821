-- ===== src/Mcp/Risk/Rounding.antt =====
-- app/mcp/risk_server.py: rounding to doubles keeps the order.
use Prim.Native.Nat.{◌/◌, ◌%◌}
use native.Mathlib.Nat.{
  mul_comm, mul-pos, mul-mod_left, le-div_iff_mul-le, div-lt_iff_lt-mul, div-mul-le_self,
  mul-div_left, mul-le-mul_right, div-add-mod,
}
use agentic_enterprise.Base.{ℕ, zero, suc, ◌+◌, ◌*◌, ◌≤◌, ◌<◌, ◌≡◌, refl, ◌⊎◌, inl, inr, arith}
use agentic_enterprise.Mcp.Risk.{nearest, spacing, double}

div_mono : (m n d : ℕ) → 0 < d → m ≤ n → m / d ≤ n / d
div_mono m n d positive h = (le-div_iff_mul-le positive).1 (omega (arith, div-mul-le_self m d, h))

-- One more than the quotient at most.
nearest_bounds : (n d : ℕ) → (n / d ≤ nearest n d) × (nearest n d ≤ n / d + 1)
unfolding nearest
nearest_bounds n d = ground arith

same_quotient : (m n d : ℕ) → m / d ≡ n / d → m % d ≤ n % d → nearest m d ≤ nearest n d
unfolding nearest
same_quotient m n d q r = ground arith

remainder_mono : (m n d : ℕ) → m / d ≡ n / d → m ≤ n → m % d ≤ n % d
remainder_mono m n d same h =
    let whole : d * (n / d) + m % d ≡ m = rw (← same) (div-add-mod m d) in
    omega (arith, h, whole, div-add-mod n d)

Nat-cases : (a b : ℕ) → a ≤ b → (a ≡ b) ⊎ (a + 1 ≤ b)
Nat-cases a b h = ground arith

pub nearest_mono : (m n d : ℕ) → 0 < d → m ≤ n → nearest m d ≤ nearest n d
nearest_mono m n d positive h =
    let below = div_mono m n d positive h in
    elim (Nat-cases (m / d) (n / d) below) [
      | inl same ↦ same_quotient m n d same (remainder_mono m n d same h)
      | inr less ↦ omega (arith, less, nearest_bounds m d, nearest_bounds n d)
    ]

nearest_of_multiple : (k d : ℕ) → 0 < d → nearest (k * d) d ≡ k
unfolding nearest
nearest_of_multiple k d positive =
    rw (mul-div_left k positive, mul-mod_left k d) (ground (arith, positive))

spacing_positive : (fuel q : ℕ) → 1 ≤ spacing fuel q
unfolding spacing
spacing_positive zero q = omega arith
spacing_positive (suc fuel) q = ground (arith, spacing_positive fuel (q / 2))

-- With enough fuel, q steps are below 2 ** 53 spacings, and from 2 ** 52 of them on if the spacing is
-- more than one step.
spacing_fits : (fuel q : ℕ) → q ≤ fuel → q < 9_007_199_254_740_992 * spacing fuel q
unfolding spacing
spacing_fits zero q enough = omega arith
spacing_fits (suc fuel) q enough = ground (arith, spacing_fits fuel (q / 2))

spacing_least : (fuel q : ℕ) → 2 ≤ spacing fuel q → 4_503_599_627_370_496 * spacing fuel q ≤ q
unfolding spacing
spacing_least zero q wide = omega arith
spacing_least (suc fuel) q wide =
    ground (arith, spacing_least fuel (q / 2), spacing_positive fuel (q / 2))

spacing_order :
    (fuel fuel' p q : ℕ)
    → p ≤ fuel
    → q ≤ fuel'
    → p ≤ q
    → (spacing fuel p ≡ spacing fuel' q) ⊎ (2 * spacing fuel p ≤ spacing fuel' q)
unfolding spacing
spacing_order zero zero p q a b h = inl refl
spacing_order zero (suc fuel') p q a b h = ground (arith, spacing_positive fuel' (q / 2))
spacing_order (suc fuel) zero p q a b h = ground arith
spacing_order (suc fuel) (suc fuel') p q a b h =
    ground (arith, spacing_order fuel fuel' (p / 2) (q / 2), spacing_positive fuel' (q / 2))

below_binade :
    (m d s : ℕ)
    → 0 < d
    → 1 ≤ s
    → m / d < 9_007_199_254_740_992 * s
    → nearest m (d * s) ≤ 9_007_199_254_740_992
below_binade m d s positive h below =
    let limit : m < 9_007_199_254_740_992 * s * d = (div-lt_iff_lt-mul positive).0 below in
    let spread = mul-pos positive h in
    let within : m ≤ 9_007_199_254_740_992 * (d * s) = omega (arith, limit, mul_comm d s) in
    rw (← nearest_of_multiple 9_007_199_254_740_992 (d * s) spread)
      (nearest_mono m (9_007_199_254_740_992 * (d * s)) (d * s) spread within)

above_binade :
    (n d s : ℕ)
    → 0 < d
    → 1 ≤ s
    → 4_503_599_627_370_496 * s ≤ n / d
    → 4_503_599_627_370_496 ≤ nearest n (d * s)
above_binade n d s positive h above =
    let limit : 4_503_599_627_370_496 * s * d ≤ n = (le-div_iff_mul-le positive).0 above in
    let spread = mul-pos positive h in
    let within : 4_503_599_627_370_496 * (d * s) ≤ n = omega (arith, limit, mul_comm d s) in
    rw (← nearest_of_multiple 4_503_599_627_370_496 (d * s) spread)
      (nearest_mono (4_503_599_627_370_496 * (d * s)) n (d * s) spread within)

-- Rounded to the same spacing, or to a wider one.
same_spacing :
    (m n d s s' : ℕ)
    → 0 < d
    → m ≤ n
    → 1 ≤ s
    → s ≡ s'
    → nearest m (d * s) * s ≤ nearest n (d * s') * s'
same_spacing m n d s s' positive h one_step same =
    rw (← same) (mul-le-mul_right s (nearest_mono m n (d * s) (mul-pos positive one_step) h))

wider_spacing :
    (m n d s s' : ℕ)
    → 0 < d
    → 1 ≤ s
    → m / d < 9_007_199_254_740_992 * s
    → 4_503_599_627_370_496 * s' ≤ n / d
    → 2 * s ≤ s'
    → nearest m (d * s) * s ≤ nearest n (d * s') * s'
wider_spacing m n d s s' positive one_step below above wider =
    let low : nearest m (d * s) * s ≤ 9_007_199_254_740_992 * s =
      mul-le-mul_right s (below_binade m d s positive one_step below) in
    let high : 4_503_599_627_370_496 * s' ≤ nearest n (d * s') * s' =
      mul-le-mul_right s' (above_binade n d s' positive (omega (arith, one_step, wider)) above) in
    omega (arith, low, high, wider)

-- The double nearest to a smaller number is not greater.
pub double_mono : (m n d : ℕ) → 0 < d → m ≤ n → double m d ≤ double n d
unfolding double
double_mono m n d positive h =
    let p = m / d in
    let q = n / d in
    let one_step = spacing_positive p p in
    elim (spacing_order p q p q (omega arith) (omega arith) (div_mono m n d positive h)) [
      | inl same ↦ same_spacing m n d (spacing p p) (spacing q q) positive h one_step same
      | inr wider ↦
          wider_spacing m n d (spacing p p) (spacing q q) positive one_step
            (spacing_fits p p (omega arith)) (spacing_least q q (omega (arith, one_step, wider)))
            wider
    ]
