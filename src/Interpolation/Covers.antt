-- ===== src/Interpolation/Covers.antt =====
-- The range of an interpolator that was created from a prefill profile: the profiled lengths.
use rbg_planner.Prelude.{
  List, [], ◌∷◌, All, Bool, true, false, ◌≡◌, sym, ap, ◌∙◌, inl, inr, Bool-cases, if◌then◌else◌,
}
use mathlib.Core.Path.{subst}
use mathlib.Core.List.{foldl}
use rbg_planner.Python.{ok, ok-injective, err-ne-ok}
use rbg_planner.Python.Pure.{>>=-eq-ok}
use rbg_planner.Python.Float.{Floating, IsOrdered, min_float, max_float}
use rbg_planner.Profile.{PrefillData}
use rbg_planner.Interpolation.{
  Numerics, PrefillInterpolator, min_items, max_items, create_prefill, clamp_isl,
}
use rbg_planner.Interpolation.Range.{clamp_isl_bounds}

-- The order of the floats that are numbers is linear.
pub record IsLinear (F : Type 0) ⦃d : Floating F⦄ : Type 0 where
  pub not_lt_trans :
      (x y z : F)
      → d.is_nan x ≡ false
      → d.is_nan y ≡ false
      → d.is_nan z ≡ false
      → d.lt y x ≡ false
      → d.lt z y ≡ false
      → d.lt z x ≡ false
  pub eq_of_not_lt :
      (x y : F)
      → d.is_nan x ≡ false
      → d.is_nan y ≡ false
      → d.lt x y ≡ false
      → d.lt y x ≡ false
      → d.eq x y ≡ true

module _ {F : Type 0} ⦃d : Floating F⦄ (laws : IsOrdered F) (linear : IsLinear F) where
  open d use {lt, le, eq, is_nan}
  open laws use {lt_irrefl, lt_asymm}
  open linear use {not_lt_trans, eq_of_not_lt}

  abbrev pub IsNumber : F → Type 0
  IsNumber x = is_nan x ≡ false

  -- A number with none of the others below it, and with none of them above it.
  abbrev IsLowest : F → List F → Type 0
  IsLowest m xs = IsNumber m × All (λ x. lt x m ≡ false) xs

  abbrev IsHighest : F → List F → Type 0
  IsHighest m xs = IsNumber m × All (λ x. lt m x ≡ false) xs

  foldl-IsLowest :
      (acc : F) (xs : List F)
      → IsNumber acc
      → All IsNumber xs
      → IsLowest (foldl min_float acc xs) (acc ∷ xs)
  unfolding min_float
  foldl-IsLowest acc [] h hs = (h, (lt_irrefl acc, tt))
  foldl-IsLowest acc (x ∷ xs) h (k, hs) = elim (Bool-cases (lt x acc)) [
    | inl below ↦
        let (number, (x_le, all)) = foldl-IsLowest x xs k hs in
        subst (λ (b : Bool). IsLowest (foldl min_float (if b then x else acc) xs) (acc ∷ x ∷ xs))
          (sym below)
          (number, (not_lt_trans _ x acc number k h x_le (lt_asymm x acc below), (x_le, all)))
    | inr not_below ↦
        let (number, (acc_le, all)) = foldl-IsLowest acc xs h hs in
        subst (λ (b : Bool). IsLowest (foldl min_float (if b then x else acc) xs) (acc ∷ x ∷ xs))
          (sym not_below)
          (number, (acc_le, (not_lt_trans _ acc x number h k acc_le not_below, all)))
  ]

  foldl-IsHighest :
      (acc : F) (xs : List F)
      → IsNumber acc
      → All IsNumber xs
      → IsHighest (foldl max_float acc xs) (acc ∷ xs)
  unfolding max_float
  foldl-IsHighest acc [] h hs = (h, (lt_irrefl acc, tt))
  foldl-IsHighest acc (x ∷ xs) h (k, hs) = elim (Bool-cases (lt acc x)) [
    | inl above ↦
        let (number, (x_ge, all)) = foldl-IsHighest x xs k hs in
        subst (λ (b : Bool). IsHighest (foldl max_float (if b then x else acc) xs) (acc ∷ x ∷ xs))
          (sym above)
          (number, (not_lt_trans acc x _ h k number (lt_asymm acc x above) x_ge, (x_ge, all)))
    | inr not_above ↦
        let (number, (acc_ge, all)) = foldl-IsHighest acc xs h hs in
        subst (λ (b : Bool). IsHighest (foldl max_float (if b then x else acc) xs) (acc ∷ x ∷ xs))
          (sym not_above)
          (number, (acc_ge, (not_lt_trans x acc _ k h number not_above acc_ge, all)))
  ]

  -- The range of the interpolator reaches from the lowest to the highest profiled length.
  record Spans (p : PrefillInterpolator F) (xs : List F) : Type 0 where
    lowest : IsLowest p.min_isl xs
    highest : IsHighest p.max_isl xs
    ordered : lt p.max_isl p.min_isl ≡ false

  spanned :
      (p : PrefillInterpolator F) (x : F) (xs : List F)
      → IsNumber x
      → All IsNumber xs
      → foldl min_float x xs ≡ p.min_isl
      → foldl max_float x xs ≡ p.max_isl
      → Spans p (x ∷ xs)
  spanned p x xs h hs low high =
      let lowest = subst (λ m. IsLowest m (x ∷ xs)) low (foldl-IsLowest x xs h hs) in
      let highest = subst (λ m. IsHighest m (x ∷ xs)) high (foldl-IsHighest x xs h hs) in
      record {
        lowest = lowest;
        highest = highest;
        ordered = not_lt_trans p.min_isl x p.max_isl lowest.0 h highest.0 lowest.1.0 highest.1.0;
      }

  created :
      (numerics : Numerics F) (raw : PrefillData F) {p : PrefillInterpolator F}
      → create_prefill numerics raw ≡ ok p
      → (min_items raw.prefill_isl ≡ ok p.min_isl) × (max_items raw.prefill_isl ≡ ok p.max_isl)
  unfolding create_prefill
  created numerics raw {p} e =
      let (low, found_low, e₁) = >>=-eq-ok (min_items raw.prefill_isl) _ e in
      let (high, found_high, e₂) = >>=-eq-ok (max_items raw.prefill_isl) _ e₁ in
      let (_, _, e₃) = >>=-eq-ok (numerics.interp1d raw.prefill_isl raw.prefill_ttft) _ e₂ in
      let (_, _, e₄) =
        >>=-eq-ok (numerics.interp1d raw.prefill_isl raw.prefill_thpt_per_gpu) _ e₃ in
      let same = ok-injective _ p e₄ in
      (
        found_low ∙ ap (λ (k : PrefillInterpolator F). ok k.min_isl) same,
        found_high ∙ ap (λ (k : PrefillInterpolator F). ok k.max_isl) same,
      )

  items-Spans :
      (p : PrefillInterpolator F) (xs : List F)
      → All IsNumber xs
      → min_items xs ≡ ok p.min_isl
      → max_items xs ≡ ok p.max_isl
      → Spans p xs
  unfolding min_items max_items
  items-Spans p [] hs low high = absurd (err-ne-ok low)
  items-Spans p (x ∷ xs) (h, hs) low high =
      spanned p x xs h hs (ok-injective _ _ low) (ok-injective _ _ high)

  -- The argument that reaches the curves at one of the lengths.
  at_length :
      (p : PrefillInterpolator F) (x : F)
      → IsNumber x
      → IsNumber p.min_isl
      → lt x p.min_isl ≡ false
      → lt p.max_isl x ≡ false
      → eq (clamp_isl p x) x ≡ true
  unfolding clamp_isl min_float max_float
  at_length p x h low_number low high = elim (Bool-cases (lt p.min_isl x)) [
    | inl above ↦ rw (high, above) (eq_of_not_lt x x h h (lt_irrefl x) (lt_irrefl x))
    | inr not_above ↦ rw (high, not_above) (eq_of_not_lt p.min_isl x low_number h not_above low)
  ]

  at_lengths :
      (p : PrefillInterpolator F) (xs : List F)
      → All IsNumber xs
      → IsNumber p.min_isl
      → All (λ x. lt x p.min_isl ≡ false) xs
      → All (λ x. lt p.max_isl x ≡ false) xs
      → All (λ x. eq (clamp_isl p x) x ≡ true) xs
  at_lengths p [] hs number low high = tt
  at_lengths p (x ∷ xs) (h, hs) number (l, low) (g, high) =
      (at_length p x h number l g, at_lengths p xs hs number low high)

  -- The curves of an interpolator that was created from a profile whose lengths are numbers are read, at
  -- a profiled length, at an argument equal to it, and, at any argument, NaN included, inside the range
  -- that `min` and `max` give of the profiled lengths. Floats that are numbers are ordered linearly.
  pub create_prefill_covers :
      (numerics : Numerics F) (raw : PrefillData F) {p : PrefillInterpolator F}
      → All IsNumber raw.prefill_isl
      → create_prefill numerics raw ≡ ok p
      → All (λ x. eq (clamp_isl p x) x ≡ true) raw.prefill_isl
        × ((isl : F)
            → (le p.min_isl (clamp_isl p isl) ≡ true) × (le (clamp_isl p isl) p.max_isl ≡ true))
  create_prefill_covers numerics raw {p} hs e =
      let (low, high) = created numerics raw e in
      let spans = items-Spans p raw.prefill_isl hs low high in
      (
        at_lengths p raw.prefill_isl hs spans.lowest.0 spans.lowest.1 spans.highest.1,
        λ isl. clamp_isl_bounds laws p isl spans.lowest.0 spans.highest.0 spans.ordered,
      )
