-- ===== src/Base/Nat.antt =====
-- Laws of division on the native numbers.
use Prim.Native.Nat.{ℕ, zero, suc, ◌+◌, ◌/◌, ◌≤◌, ◌<◌}
use native.Mathlib.Omega.{arith}
use native.Mathlib.Nat.{le-div_iff_mul-le, div-zero, div-mul-le_self, le_trans}

pub div-le-div_right : (k : ℕ) {a b : ℕ} → a ≤ b → a / k ≤ b / k
div-le-div_right zero {a} {b} h = omega (arith, div-zero a, div-zero b)
div-le-div_right (suc k) {a} {b} h =
    (le-div_iff_mul-le (omega arith)).1 (le_trans (div-mul-le_self a (suc k)) h)

-- One divisor more is one more.
pub div-lt-div : (k a b : ℕ) → 1 ≤ k → a + k ≤ b → a / k < b / k
div-lt-div k a b h l = (le-div_iff_mul-le h).1 (omega (arith, div-mul-le_self a k))
