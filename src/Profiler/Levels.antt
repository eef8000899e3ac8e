-- ===== src/Profiler/Levels.antt =====
-- The concurrency levels of a sweep of the decode phase (`profile_decode`).
pub mod Fitting
use rbg_planner.Prelude.{
  ℕ, zero, suc, ◌+◌, ◌*◌, ◌/◌, ◌≤◌, ◌<◌, ℤ, pos, negsuc, ◌+ℤ◌, ◌-ℤ◌, ◌≤ℤ◌, min_ℤ, max_ℤ, ltb_ℤ,
  eq_ℤ, List, [], ◌∷◌, All, All-weaken, Bool, true, false, not, Option, none, some, if◌then◌else◌,
  ◌≡◌, refl, sym, ap, ◌∙◌, ◌⊎◌, inl, inr, Bool-cases, arith, +ℤ_parts, -ℤ_parts, eq_of_parts,
  eq_ℤ→≡, min_ℤ-le,
}
use mathlib.Core.Path.{subst}
use rbg_planner.Python.{
  Result, ok, err, Method, lift, ok-injective, err-ne-ok, zero_division, ◌>>=◌, >>=-err,
}
use rbg_planner.Python.Pure.{>>=-eq-ok}
use rbg_planner.Python.Division.{floor_div, times_le, mul_le, le_div}
use rbg_planner.Python.Float.{Floating, div_int, int, to_int-eq-ok, div_int-eq-ok}
use rbg_planner.Profiler.{Benchmark, Target}
use rbg_planner.Profiler.Decode.{
  Sweep, range_from, rounds_of, insert_once, sorted_set, spread, concurrency_points, levels_within,
  sweep_of, decode_sweep, decode_lengths, no_decode, profile_decode,
}

-- Every item is greater than the one before it, and the first than `lo`.
abbrev pub Ascends : ℤ → List ℤ → Type 0
Ascends lo [] = Unit
Ascends lo (n ∷ ns) = (ltb_ℤ lo n ≡ true) × Ascends n ns

next_gt : (n : ℤ) → ltb_ℤ n (n +ℤ pos 1) ≡ true
next_gt n = ground (arith, +ℤ_parts n (pos 1))

range_from-Ascends :
    (lo start : ℤ) (n : ℕ) → ltb_ℤ lo start ≡ true → Ascends lo (range_from start n)
unfolding range_from
range_from-Ascends lo start zero h = tt
range_from-Ascends lo start (suc n) h =
    (h, range_from-Ascends start (start +ℤ pos 1) n (next_gt start))

insert_once-Ascends :
    (n lo : ℤ) (ms : List ℤ) → ltb_ℤ lo n ≡ true → Ascends lo ms → Ascends lo (insert_once n ms)
unfolding insert_once
insert_once-Ascends n lo [] h k = (h, tt)
insert_once-Ascends n lo (m ∷ ms) h (less, k) = elim (Bool-cases (ltb_ℤ n m)) [
  | inl before ↦ rw (before) (h, (before, k))
  | inr other ↦ elim (Bool-cases (eq_ℤ n m)) [
    | inl same ↦ rw (other, same) (less, k)
    | inr distinct ↦ rw (other, distinct) (less, insert_once-Ascends n m ms (ground arith) k)
  ]
]

insert_once-All : (P : ℤ → Type 0) (n : ℤ) (ms : List ℤ) → P n → All P ms → All P (insert_once n ms)
unfolding insert_once
insert_once-All P n [] h k = (h, tt)
insert_once-All P n (m ∷ ms) h (first, k) = elim (Bool-cases (ltb_ℤ n m)) [
  | inl before ↦ rw (before) (h, (first, k))
  | inr other ↦ elim (Bool-cases (eq_ℤ n m)) [
    | inl same ↦ rw (other, same) (first, k)
    | inr distinct ↦ rw (other, distinct) (first, insert_once-All P n ms h k)
  ]
]

sorted_set-Ascends :
    (lo : ℤ) (ns : List ℤ) → All (λ n. ltb_ℤ lo n ≡ true) ns → Ascends lo (sorted_set ns)
unfolding sorted_set
sorted_set-Ascends lo [] h = tt
sorted_set-Ascends lo (n ∷ ns) (h, k) =
    insert_once-Ascends n lo (sorted_set ns) h (sorted_set-Ascends lo ns k)

sorted_set-All : (P : ℤ → Type 0) (ns : List ℤ) → All P ns → All P (sorted_set ns)
unfolding sorted_set
sorted_set-All P [] h = tt
sorted_set-All P (n ∷ ns) (h, k) = insert_once-All P n (sorted_set ns) h (sorted_set-All P ns k)

-- From one to `m`.
abbrev pub Within : ℕ → ℤ → Type 0
Within m n = (ltb_ℤ (pos 0) n ≡ true) × (n ≤ℤ pos m)

range_from-Within : (m k n : ℕ) → 1 ≤ k → k + n ≤ suc m → All (Within m) (range_from (pos k) n)
unfolding range_from
range_from-Within m k zero h l = tt
range_from-Within m k (suc n) h l = (
  (ground arith, omega arith),
  subst (λ j. All (Within m) (range_from j n))
      (eq_of_parts (pos (suc k)) (pos k +ℤ pos 1) (omega (arith, +ℤ_parts (pos k) (pos 1))))
      (range_from-Within m (suc k) n (omega arith) (omega arith)),
)

sorted_set-Within :
    (m : ℕ) (ns : List ℤ)
    → All (Within m) ns
    → Ascends (pos 0) (sorted_set ns) × All (Within m) (sorted_set ns)
sorted_set-Within m ns h =
    (sorted_set-Ascends (pos 0) ns (All-weaken (λ n k. k.0) ns h), sorted_set-All (Within m) ns h)

module _ (F : Type 0) ⦃d : Floating F⦄ where
  -- A point of an even spacing of one to `m` is not beyond `m`: the rounding of doubles stays below
  -- one, and the conversion to `int` cuts it off.
  unfoldable pub IsSpaced : Type 0
  IsSpaced =
      (m g i : ℕ)
      → 2 ≤ g
      → g < m
      → m ≤ 512
      → i < g
      → d.trunc_int (
          d.add (d.of_int (pos 1))
            (d.mul (d.of_int (pos i)) (d.quot_int (pos m -ℤ pos 1) (pos g -ℤ pos 1))))
        ≤ℤ pos m

  module _ (spaced : IsSpaced) (m : ℕ) (small : m ≤ 512) where
    point-Within :
        (g i : ℕ) (step : F) {point : ℤ}
        → 2 ≤ g
        → g < m
        → i < g
        → d.quot_int (pos m -ℤ pos 1) (pos g -ℤ pos 1) ≡ step
        → int (d.add (d.of_int (pos 1)) (d.mul (d.of_int (pos i)) step)) ≡ ok point
        → Within m (max_ℤ (pos 1) point)
    unfolding IsSpaced max_ℤ
    point-Within g i step {point} two less inside same e =
        let bound = spaced m g i two less small inside in
        let (_, cut) = to_int-eq-ok d.trunc_int _ e in
        let below : point ≤ℤ pos m =
          subst (λ k. k ≤ℤ pos m) cut
            (subst
              (λ k. d.trunc_int (d.add (d.of_int (pos 1)) (d.mul (d.of_int (pos i)) k)) ≤ℤ pos m)
              same bound) in
        (ground arith, ground arith)

    spread-Within :
        (g : ℕ) (step : F) (i n : ℕ) {points : List ℤ}
        → 2 ≤ g
        → g < m
        → i + n ≤ g
        → d.quot_int (pos m -ℤ pos 1) (pos g -ℤ pos 1) ≡ step
        → spread F step i n ≡ ok points
        → All (Within m) points
    unfolding spread
    spread-Within g step i zero two less inside same e =
        subst (All (Within m)) (ok-injective [] _ e) tt
    spread-Within g step i (suc n) two less inside same e =
        let (point, e₁, r₁) =
          >>=-eq-ok (int (d.add (d.of_int (pos 1)) (d.mul (d.of_int (pos i)) step))) _ e in
        let (rest, e₂, r₂) = >>=-eq-ok (spread F step (suc i) n) _ r₁ in
        subst (All (Within m)) (ok-injective (max_ℤ (pos 1) point ∷ rest) _ r₂) (
          point-Within g i step two less (omega arith) same e₁,
          spread-Within g step (suc i) n two less (omega arith) same e₂,
        )

    -- The points before they are sorted, for any granularity below the maximum.
    unsorted-Within :
        (granularity : ℤ) (step : F) {points : List ℤ}
        → ltb_ℤ granularity (pos m) ≡ true
        → div_int (pos m -ℤ pos 1) (granularity -ℤ pos 1) ≡ ok step
        → spread F step 0 (rounds_of granularity) ≡ ok points
        → All (Within m) points
    unfolding spread ◌-ℤ◌
    unsorted-Within (negsuc g) step less e e' = subst (All (Within m)) (ok-injective [] _ e') tt
    unsorted-Within (pos zero) step less e e' = subst (All (Within m)) (ok-injective [] _ e') tt
    unsorted-Within (pos (suc zero)) step less e e' = absurd (err-ne-ok e)
    unsorted-Within (pos (suc (suc g))) step less e e' =
        spread-Within (suc (suc g)) step 0 (suc (suc g)) (omega arith) (ground arith) (omega arith)
          (div_int-eq-ok (pos m -ℤ pos 1) (pos (suc (suc g)) -ℤ pos 1) e) e'

    pub concurrency_points-Within :
        (granularity : ℤ) {points : List ℤ}
        → concurrency_points F (pos m) granularity ≡ ok points
        → Ascends (pos 0) points × All (Within m) points
    unfolding concurrency_points
    concurrency_points-Within granularity {points} e =
        elim (Bool-cases (ltb_ℤ granularity (pos m))) [
          | inl fewer ↦
              let (step, e₁, r₁) =
                >>=-eq-ok (div_int {F = F} (pos m -ℤ pos 1) (granularity -ℤ pos 1)) _
                  (rw (fewer) at e) in
              let (unsorted, e₂, r₂) = >>=-eq-ok (spread F step 0 (rounds_of granularity)) _ r₁ in
              let within = unsorted-Within granularity step fewer e₁ e₂ in
              subst (λ k. Ascends (pos 0) k × All (Within m) k)
                (ok-injective (sorted_set unsorted) points r₂) (sorted_set-Within m unsorted within)
          | inr all ↦
              let same = ok-injective (range_from (pos 1) m) points (rw (all) at e) in
              subst (λ k. Ascends (pos 0) k × All (Within m) k) same
                (
                  range_from-Ascends (pos 0) (pos 1) m refl,
                  range_from-Within m 1 m (omega arith) (omega arith),
                )
        ]
