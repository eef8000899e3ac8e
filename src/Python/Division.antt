-- ===== src/Python/Division.antt =====
-- `a // b` on Python's `int`, which rounds down.
use rbg_planner.Prelude.{
  ℕ, zero, suc, ◌*◌, ◌≤◌, ◌<◌, le_or_gt, inl, inr, arith, ◌/◌, ℤ, pos, negsuc,
}
use native.Mathlib.Omega.{div_any}
use rbg_planner.Python.{Result, ok, err, zero_division}

unfoldable pub floor_div : ℤ → ℤ → Result ℤ
floor_div a (pos zero) = err zero_division
floor_div (pos a) (pos (suc b)) = ok (pos (a / suc b))
floor_div (negsuc a) (pos (suc b)) = ok (negsuc (a / suc b))
floor_div (pos zero) (negsuc b) = ok (pos 0)
floor_div (pos (suc a)) (negsuc b) = ok (negsuc (a / suc b))
floor_div (negsuc a) (negsuc b) = ok (pos (suc a / suc b))

pub le_times : (c x y : ℕ) → x ≤ y → c * x ≤ c * y
le_times zero x y h = omega arith
le_times (suc c) x y h = omega (arith, le_times c x y h)

pub times_quotient : (a b : ℕ) → b * (a / b) ≤ a
times_quotient a b = omega (arith, div_any a b)

-- What is at most a quotient is, times the divisor, at most the dividend.
pub times_le : (a b c : ℕ) → c ≤ a / b → c * b ≤ a
times_le a b c h = omega (arith, times_quotient a b, le_times b c (a / b) h)

pub mul_le : (a b c : ℕ) → a ≤ b → a * c ≤ b * c
mul_le a b c h = omega (arith, le_times c a b h)

-- What is, times the divisor, at most the dividend is at most the quotient.
pub le_div : (a b c : ℕ) → 0 < b → c * b ≤ a → c ≤ a / b
le_div a b c positive h = elim (le_or_gt c (a / b)) [
  | inl le ↦ le
  | inr gt ↦ absurd (omega (arith, div_any a b, mul_le (suc (a / b)) c b gt))
]
