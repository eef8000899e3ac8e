-- ===== src/Interpolation/Range.antt =====
-- The arguments that the curves and the grids are read at stay inside the profiled range.
use rbg_planner.Prelude.{
  ℕ, ◌-◌, ◌<◌, ◌≤◌, ℤ, pos, negsuc, ◌≤ℤ◌, ◌-ℤ◌, true, false, ◌≡◌, ◌⊎◌, inl, inr, refl, sym, ◌∙◌,
  arith, int_laws, true-ne-false,
}
use mathlib.Core.Path.{subst}
use rbg_planner.Python.{ok, ok-injective}
use rbg_planner.Python.Pure.{>>=-eq-ok}
use rbg_planner.Python.Float.{Floating, IsOrdered, int, to_int-eq-ok}
use rbg_planner.Interpolation.{
  Numerics, PrefillInterpolator, DecodeInterpolator, clamp_isl, axis_index, compute_idx,
  over_tokens, position, interpolate_itl,
}

module _ {F : Type 0} ⦃d : Floating F⦄ (laws : IsOrdered F) where
  open d use {lt, le, is_nan}
  open laws use {lt_irrefl, lt_asymm, le_of_not_lt, lt_nan}

  -- No argument below the range, or above it, reaches a prefill curve, NaN included, if the range
  -- itself is one of numbers with the minimum not above the maximum, and floats are ordered.
  pub clamp_isl_bounds :
      (p : PrefillInterpolator F) (isl : F)
      → is_nan p.min_isl ≡ false
      → is_nan p.max_isl ≡ false
      → lt p.max_isl p.min_isl ≡ false
      → (le p.min_isl (clamp_isl p isl) ≡ true) × (le (clamp_isl p isl) p.max_isl ≡ true)
  unfolding clamp_isl
  clamp_isl_bounds p isl lo hi ordered =
      let a = p.min_isl in
      let b = p.max_isl in
      ground (
        arith,
        lt_irrefl a,
        lt_irrefl b,
        lt_asymm a isl,
        lt_nan a isl,
        le_of_not_lt a a lo lo,
        le_of_not_lt b b hi hi,
        le_of_not_lt b a hi lo,
        le_of_not_lt isl a,
        le_of_not_lt b isl,
      )

-- The integers that a `float` holds exactly: those up to 2 ^ 53.
abbrev pub exact_limit : ℕ
exact_limit = 9007199254740992

-- `numpy.clip` between two integers gives NaN, or a value between them.
abbrev pub IsClip : {F : Type 0} ⦃d : Floating F⦄ → Numerics F → Type 0
IsClip {F} ⦃d⦄ numerics =
    (x : F) (a b : ℕ)
    → a ≤ b
    → b ≤ exact_limit
    → let y = numerics.np_clip x (d.of_int (pos a)) (d.of_int (pos b)) in
      (d.is_nan y ≡ true)
      ⊎ ((d.le (d.of_int (pos a)) y ≡ true) × (d.le y (d.of_int (pos b)) ≡ true))

-- `int` of a float between two integers lies between them.
abbrev pub IsTruncation : (F : Type 0) ⦃d : Floating F⦄ → Type 0
IsTruncation F ⦃d⦄ =
    (x : F) (a b : ℕ)
    → a ≤ b
    → b ≤ exact_limit
    → d.le (d.of_int (pos a)) x ≡ true
    → d.le x (d.of_int (pos b)) ≡ true
    → (pos a ≤ℤ d.trunc_int x) × (d.trunc_int x ≤ℤ pos b)

-- An index into an axis of `n` points.
abbrev pub IsIndex : ℕ → ℤ → Type 0
IsIndex n i = (pos 0 ≤ℤ i) × (i ≤ℤ pos (n - 1)) × (0 < n)

pos-sub_one : (n : ℕ) → 0 < n → pos n -ℤ pos 1 ≡ pos (n - 1)
pos-sub_one n h = omega int_laws

axis_index-int :
    {F : Type 0} ⦃d : Floating F⦄ (numerics : Numerics F) (n : ℕ) (axis : ℕ → F) (x : F) {i : ℤ}
    → axis_index numerics n axis x ≡ ok i
    → let steps =
        numerics.np_div (numerics.np_sub x (axis 0)) (numerics.np_sub (axis 1) (axis 0)) in
      (0 < n)
      × (int (
            numerics.np_clip
              (numerics.np_round steps)
              (d.of_int (pos 0))
              (d.of_int (pos n -ℤ pos 1)))
          ≡ ok i)
unfolding axis_index
axis_index-int numerics n axis x e = ground arith

module _ {F : Type 0} ⦃d : Floating F⦄ (numerics : Numerics F) (clips : IsClip numerics)
    (truncates : IsTruncation F) where
  int-IsIndex :
      (n : ℕ) (x : F) {i : ℤ}
      → 0 < n
      → n ≤ exact_limit
      → int (numerics.np_clip x (d.of_int (pos 0)) (d.of_int (pos n -ℤ pos 1))) ≡ ok i
      → IsIndex n i
  int-IsIndex n x {i} h small e =
      let e' =
        subst (λ (k : ℤ). int (numerics.np_clip x (d.of_int (pos 0)) (d.of_int k)) ≡ ok i)
          (pos-sub_one n h) e in
      let y = numerics.np_clip x (d.of_int (pos 0)) (d.of_int (pos (n - 1))) in
      let (number, value) = to_int-eq-ok d.trunc_int y e' in
      elim (clips x 0 (n - 1) (omega arith) (omega arith)) [
        | inl nan ↦ absurd (true-ne-false (sym nan ∙ number))
        | inr (above, below) ↦
            let bounds = truncates y 0 (n - 1) (omega arith) (omega arith) above below in
            rw (← value) (bounds.0, bounds.1, h)
      ]

  axis_index-IsIndex :
      (n : ℕ) (axis : ℕ → F) (x : F) {i : ℤ}
      → n ≤ exact_limit
      → axis_index numerics n axis x ≡ ok i
      → IsIndex n i
  axis_index-IsIndex n axis x small e =
      let (h, read) = axis_index-int numerics n axis x e in int-IsIndex n _ h small read

  position-IsIndex :
      (n : ℕ) (i : ℤ) → IsIndex n i → (k : ℕ) × (k < n) × (i ≡ pos k) × (position n i ≡ ok k)
  unfolding position
  position-IsIndex n (pos k) h = (k, omega arith, refl, ground arith)
  position-IsIndex n (negsuc k) h = absurd (omega arith)

  compute_idx-IsIndex :
      (p : DecodeInterpolator F) (concurrency context_length : F) {ix iy : ℤ}
      → p.resolution ≤ exact_limit
      → compute_idx numerics p concurrency context_length ≡ ok (ix, iy)
      → IsIndex p.resolution ix × IsIndex p.resolution iy
  unfolding compute_idx
  compute_idx-IsIndex p concurrency context_length {ix} {iy} small e =
      let (usage, _, rest) =
        >>=-eq-ok (over_tokens numerics (d.mul concurrency context_length) p.max_kv_tokens) _ e in
      let (jx, column, rest') = >>=-eq-ok (axis_index numerics p.resolution p.xi usage) _ rest in
      let (jy, row, pair) =
        >>=-eq-ok (axis_index numerics p.resolution p.yi context_length) _ rest' in
      let same : (jx, jy) ≡ (ix, iy) = ok-injective _ _ pair in
      subst (λ (i : ℤ × ℤ). IsIndex p.resolution i.0 × IsIndex p.resolution i.1) same
        (
          axis_index-IsIndex p.resolution p.xi usage small column,
          axis_index-IsIndex p.resolution p.yi context_length small row,
        )

  -- When the indices can be computed at all, both lie in the grid, and the ITL is read there: the
  -- reading neither raises nor wraps around. The resolution is at most 2 ^ 53, `numpy.clip` between
  -- integers gives NaN or a value between them, and `int` leaves the range of two integers for none.
  pub interpolate_itl_in_grid :
      (p : DecodeInterpolator F) (concurrency context_length : F) {ix iy : ℤ}
      → p.resolution ≤ exact_limit
      → compute_idx numerics p concurrency context_length ≡ ok (ix, iy)
      → (x : ℕ) × (y : ℕ) × (x < p.resolution)
        × (y < p.resolution)
        × (ix ≡ pos x)
        × (iy ≡ pos y)
        × (interpolate_itl numerics p concurrency context_length ≡ ok (p.itl_interpolator y x))
  unfolding interpolate_itl
  interpolate_itl_in_grid p concurrency context_length small e =
      let (column, row) = compute_idx-IsIndex p concurrency context_length small e in
      let (x, x_lt, x_eq, x_at) = position-IsIndex p.resolution _ column in
      let (y, y_lt, y_eq, y_at) = position-IsIndex p.resolution _ row in
      (x, y, x_lt, y_lt, x_eq, y_eq, rw e (rw (y_at, x_at)))
