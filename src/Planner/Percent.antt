-- ===== src/Planner/Percent.antt =====
-- The share of a percent policy.
use native.Mathlib.Nat.{mul-le-mul_right}
use phoneborg.Shared.{ℕ, ◌+◌, ◌*◌, ◌/◌, ◌≤◌, ◌<◌, ◌≡◌, max, arith, ◌==◌, refl, ◌||◌, false}
use phoneborg.Planner.{percent_of}

-- The division rounds x / 10000 half up.
abbrev rounded : ℕ → ℕ
rounded x = (x * 100_000 + 500_000_001) / 1_000_000_000

rounded_bounds : (x : ℕ) → (10_000 * rounded x ≤ x + 5_000) × (x < 10_000 * rounded x + 5_000)
rounded_bounds x = (omega arith, omega arith)

percent_of-rounded : (p n : ℕ) → 0 < p → 0 < n → percent_of p n ≡ max 1 (rounded (p * n))
unfolding percent_of
percent_of-rounded p n h k = let e : (p == 0 || n == 0) ≡ false = ground (arith, h, k) in rw e refl

-- A percentage above 0 and at most 100 of at least one node is at least one node and at most all of
-- them, no more than half a node below the exact share, and no more than half a node above it unless
-- it is one.
pub percent_of-IsShare :
    (p n : ℕ)
    → 0 < p
    → p ≤ 10_000
    → 0 < n
    → (1 ≤ percent_of p n)
      × (percent_of p n ≤ n)
      × (p * n < 10_000 * percent_of p n + 5_000)
      × (10_000 * percent_of p n ≤ max 10_000 (p * n + 5_000))
percent_of-IsShare p n h k l =
    let (low, high) = rounded_bounds (p * n) in
    let most : p * n ≤ 10_000 * n = mul-le-mul_right n k in
    rw (percent_of-rounded p n h l)
      (omega arith, omega (arith, low, most, l), omega (arith, high), omega (arith, low))
