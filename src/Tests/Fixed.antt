-- ===== src/Tests/Fixed.antt =====
-- Numbers with three decimals, and NaN: a concrete instance of the arithmetic, for the tests.
use rbg_planner.Prelude.{
  ℕ, zero, suc, ◌+◌, ◌*◌, ◌/◌, ◌≤◌, ℤ, pos, negsuc, ◌+ℤ◌, ◌-ℤ◌, ◌*ℤ◌, ◌≤ℤ◌, ltb_ℤ, eq_ℤ, Bool, true,
  false, not, Option, none, some, String, refl, sym, true-ne-false, arith, if◌then◌else◌,
}
use mathlib.Core.List.{foldl}
use text.Mathlib.Text.{◌==◌ as str_eq}
use rbg_planner.Python.Division.{le_times, times_quotient}
use rbg_planner.Python.Float.{Floating, IsOrdered}
use rbg_planner.Replicas.Budget.{IsNearest}
use rbg_planner.Interpolation.Range.{IsTruncation}
use rbg_planner.Interpolation.Covers.{IsLinear}

-- `fixed n` is n / 1000.
pub data Fixed : Type 0 where
  not_a_number : Fixed
  fixed : ℤ → Fixed

-- A whole number.
abbrev pub num : ℕ → Fixed
num n = fixed (pos (n * 1000))

abbrev pub thousand : ℤ → ℤ
thousand (pos n) = pos (n * 1000)
thousand (negsuc n) = negsuc (n * 1000 + 999)

abbrev pub minus : ℕ → ℤ
minus zero = pos 0
minus (suc n) = negsuc n

-- A quotient, towards zero.
abbrev pub quot_ℤ : ℤ → ℤ → ℤ
quot_ℤ (pos a) (pos b) = pos (a / b)
quot_ℤ (pos a) (negsuc b) = minus (a / suc b)
quot_ℤ (negsuc a) (pos b) = minus (suc a / b)
quot_ℤ (negsuc a) (negsuc b) = pos (suc a / suc b)

abbrev pub on_both : (ℤ → ℤ → ℤ) → Fixed → Fixed → Fixed
on_both f (fixed a) (fixed b) = fixed (f a b)
on_both f _ _ = not_a_number

abbrev pub compare : (ℤ → ℤ → Bool) → Fixed → Fixed → Bool
compare f (fixed a) (fixed b) = f a b
compare f _ _ = false

abbrev pub is_not_number : Fixed → Bool
is_not_number not_a_number = true
is_not_number (fixed n) = false

abbrev pub whole : (ℤ → ℤ) → Fixed → ℤ
whole f not_a_number = pos 0
whole f (fixed n) = f n

abbrev pub ceil_milli : ℤ → ℤ
ceil_milli (pos n) = pos ((n + 999) / 1000)
ceil_milli (negsuc n) = minus (suc n / 1000)

abbrev pub round_milli : ℤ → ℤ
round_milli (pos n) = pos ((n + 500) / 1000)
round_milli (negsuc n) = minus ((n + 500) / 1000)

abbrev pub parse_digit : String → Option Fixed
parse_digit text =
    if str_eq text "NaN"
    then some not_a_number
    else if str_eq text "1"
    then some (fixed (pos 1000))
    else if str_eq text "3"
    then some (fixed (pos 3000))
    else none

instance abbrev pub fixed_Floating : Floating Fixed
fixed_Floating = record {
  of_int = λ n. fixed (thousand n);
  quot_int = λ a b. fixed (quot_ℤ (thousand a) b);
  add = on_both (λ a b. a +ℤ b);
  sub = on_both (λ a b. a -ℤ b);
  mul = on_both (λ a b. quot_ℤ (a *ℤ b) (pos 1000));
  quot = on_both (λ a b. quot_ℤ (thousand a) b);
  lt = compare ltb_ℤ;
  le = compare (λ a b. not (ltb_ℤ b a));
  eq = compare eq_ℤ;
  is_nan = is_not_number;
  is_inf = λ x. false;
  ceil_int = whole ceil_milli;
  round_int = whole round_milli;
  trunc_int = whole (λ n. quot_ℤ n (pos 1000));
  round_to = λ digits x. x;
  sum = foldl (on_both (λ a b. a +ℤ b)) (fixed (pos 0));
  parse = parse_digit;
}

pub fixed-IsOrdered : IsOrdered Fixed
fixed-IsOrdered = record {
  lt_irrefl = elim [ not_a_number ↦ refl | fixed n ↦ ground arith ];
  lt_asymm = λ x y h. ground arith;
  le_of_not_lt = λ x y h k l. ground arith;
  lt_nan = λ x y h. ground arith;
}

pub fixed-IsLinear : IsLinear Fixed
fixed-IsLinear = record {
  not_lt_trans = λ x y z h k l m n. ground arith;
  eq_of_not_lt = λ x y h k m n. ground arith;
}

-- The nearest whole number `r` of the quotient `q` of 1000 * a and `b`.
half_unit : (a b q r : ℕ) → b * q ≤ a * 1000 → r * 1000 ≤ q + 500 → 2 * (r * b) ≤ 2 * a + b
half_unit a b q r below near = omega (arith, le_times b (r * 1000) (q + 500) near)

minus-nonpos : (n : ℕ) → minus n ≤ℤ pos 0
minus-nonpos zero = omega arith
minus-nonpos (suc n) = omega arith

round_minus-nonpos : (n : ℕ) → round_milli (minus n) ≤ℤ pos 0
round_minus-nonpos zero = omega arith
round_minus-nonpos (suc n) = minus-nonpos _

pub fixed-IsNearest : IsNearest Fixed
fixed-IsNearest = record {
  near = λ a b h small.
      half_unit a b (a * 1000 / b) ((a * 1000 / b + 500) / 1000) (times_quotient (a * 1000) b)
        (omega arith);
  negative = λ a b h. round_minus-nonpos (suc (a * 1000 + 999) / b);
}

pub fixed-IsTruncation : IsTruncation Fixed
fixed-IsTruncation not_a_number a b h small lo hi = absurd (true-ne-false (sym lo))
fixed-IsTruncation (fixed (pos n)) a b h small lo hi = (ground arith, ground arith)
fixed-IsTruncation (fixed (negsuc n)) a b h small lo hi = absurd (ground arith)
