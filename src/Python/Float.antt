-- ===== src/Python/Float.antt =====
-- Python's `float`, as the arithmetic that the planner's modules do with it. The numbers themselves
-- are a parameter: a type with the operations below, of which single theorems suppose single laws.
-- Integers that are turned into floats are supposed to stay below 2 ^ 1024.
use rbg_planner.Prelude.{
  ℕ, ℤ, pos, Bool, true, false, Option, List, String, ◌≡◌, if◌then◌else◌, ◌||◌, eq_ℤ, arith,
}
use rbg_planner.Python.{Result, ok, err, zero_division, value_error, overflow_error}

pub record Floating (F : Type 0) : Type 0 where
  -- An `int` as a float, and the quotient of two of them.
  pub of_int : ℤ → F
  pub quot_int : ℤ → ℤ → F
  pub add : F → F → F
  pub sub : F → F → F
  pub mul : F → F → F
  pub quot : F → F → F
  pub lt : F → F → Bool
  pub le : F → F → Bool
  pub eq : F → F → Bool
  pub is_nan : F → Bool
  pub is_inf : F → Bool
  -- `math.ceil`, `round` and `int`, of a finite float.
  pub ceil_int : F → ℤ
  pub round_int : F → ℤ
  pub trunc_int : F → ℤ
  -- `round(x, digits)`, which leaves a float
  pub round_to : ℕ → F → F
  -- `sum(values)`, which recent versions compute with a compensation
  pub sum : List F → F
  -- `float(text)`: `none` is a `ValueError`.
  pub parse : String → Option F

module _ {F : Type 0} ⦃d : Floating F⦄ where
  open d use {of_int, quot_int, quot, lt, eq, is_nan, is_inf, ceil_int, round_int, trunc_int}

  -- `x / y` on floats
  abbrev pub div : F → F → Result F
  div x y = if eq y (of_int (pos 0)) then err zero_division else ok (quot x y)

  -- `a / b` on ints
  abbrev pub div_int : ℤ → ℤ → Result F
  div_int a b = if eq_ℤ b (pos 0) then err zero_division else ok (quot_int a b)

  pub div_int-eq-ok : (a b : ℤ) {x : F} → div_int a b ≡ ok x → quot_int a b ≡ x
  div_int-eq-ok a b e = ground arith

  -- A conversion to `int` refuses what is no finite number.
  abbrev pub to_int : (F → ℤ) → F → Result ℤ
  to_int f x =
      if is_nan x then err value_error else if is_inf x then err overflow_error else ok (f x)

  pub to_int-eq-ok :
      (f : F → ℤ) (x : F) {i : ℤ} → to_int f x ≡ ok i → (is_nan x ≡ false) × (f x ≡ i)
  to_int-eq-ok f x e = ground arith

  abbrev pub ceil : F → Result ℤ
  ceil = to_int ceil_int

  abbrev pub round : F → Result ℤ
  round = to_int round_int

  abbrev pub int : F → Result ℤ
  int = to_int trunc_int

  -- `min(a, b)` and `max(a, b)`: the first argument stays unless the second is strictly better,
  -- which it never is when one of them is NaN.
  unfoldable pub min_float : F → F → F
  min_float a b = if lt b a then b else a

  unfoldable pub max_float : F → F → F
  max_float a b = if lt a b then b else a

-- The order of floats. NaN compares to nothing.
pub record IsOrdered (F : Type 0) ⦃d : Floating F⦄ : Type 0 where
  pub lt_irrefl : (x : F) → d.lt x x ≡ false
  pub lt_asymm : (x y : F) → d.lt x y ≡ true → d.lt y x ≡ false
  pub le_of_not_lt :
      (x y : F) → d.is_nan x ≡ false → d.is_nan y ≡ false → d.lt x y ≡ false → d.le y x ≡ true
  pub lt_nan : (x y : F) → d.lt x y ≡ true → (d.is_nan x || d.is_nan y) ≡ false
