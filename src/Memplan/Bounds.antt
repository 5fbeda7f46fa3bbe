-- ===== src/Memplan/Bounds.antt =====
-- The arithmetic of a need: it grows with the context and the slots, and stays in range.
use native.Mathlib.Nat.{mul-le-mul, mul-le-mul_right}
use phoneborg.Shared.{ℕ, ◌≤◌, arith}
use phoneborg.Memplan.{Shape, Kv, need_bytes, bytes_per_token}

pub need_bytes_mono :
    (file_size resident_bytes : ℕ) (shape : Shape) (kv : Kv) (c c' s s' : ℕ)
    → c ≤ c'
    → s ≤ s'
    → need_bytes file_size resident_bytes c s shape kv
      ≤ need_bytes file_size resident_bytes c' s' shape kv
unfolding need_bytes
need_bytes_mono file_size resident_bytes shape kv c c' s s' h k = omega (
  arith,
  mul-le-mul_right (bytes_per_token shape kv)
      (mul-le-mul {n₁ = s} {m₁ = c} {n₂ = s'} {m₂ = c'} k h),
)
