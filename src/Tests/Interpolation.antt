-- ===== src/Tests/Interpolation.antt =====
-- The interpolators on a small grid, and the theorems on them.
use rbg_planner.Prelude.{ℕ, [], ◌∷◌, All, ◌≤◌, ◌<◌, ℤ, pos, ◌-ℤ◌, ◌*ℤ◌, true, ◌≡◌, refl, arith}
use rbg_planner.Python.{ok}
use rbg_planner.Interpolation.{
  PrefillInterpolator, create_prefill, axis_index, clamp_row, clamp_isl, compute_idx,
  find_best_throughput_per_gpu, interpolate_itl,
}
use rbg_planner.Interpolation.Search.{IsBusiest, point, find_best-IsBusiest, find_best_maximal}
use rbg_planner.Profile.{PrefillData}
use rbg_planner.Interpolation.Covers.{create_prefill_covers}
use rbg_planner.Interpolation.Range.{interpolate_itl_in_grid}
use rbg_planner.Tests.Fixed.{
  Fixed, num, fixed_Floating, fixed-IsOrdered, fixed-IsLinear, fixed-IsTruncation,
}
use rbg_planner.Tests.Profile.{small_numerics, small_numerics-IsClip, small_decode}

-- A target of 50 is met up to column 2, where the ITL is 40.
best_found :
    find_best_throughput_per_gpu small_numerics small_decode (num 50) (num 60)
    ≡ ok (num 2, num 40, num 2)
unfolding find_best_throughput_per_gpu
best_found = refl

row_found : axis_index small_numerics 4 small_decode.yi (num 60) ≡ ok (pos 1)
unfolding axis_index ◌-ℤ◌
row_found = refl

find_best-IsBusiest_example :
    (row : ℤ) × (ix : ℕ) × (axis_index small_numerics 4 small_decode.yi (num 60) ≡ ok row)
    × ((num 2, num 40, num 2) ≡ point small_decode (clamp_row 4 row) ix)
    × IsBusiest small_decode (num 50) (clamp_row 4 row) ix
find_best-IsBusiest_example =
    find_best-IsBusiest small_numerics small_decode (num 50) (num 60) best_found

throughput_rises :
    (y i j : ℕ)
    → i ≤ j
    → j < 4
    → fixed_Floating.le (small_decode.thpt_interpolator y i) (small_decode.thpt_interpolator y j)
      ≡ true
throughput_rises y i j h lt = ground arith

clamped_row : clamp_row 4 (pos 1) ≡ 1
unfolding clamp_row
clamped_row = refl

find_best_maximal_example :
    fixed_Floating.le (small_decode.thpt_interpolator (clamp_row 4 (pos 1)) 1) (num 2) ≡ true
find_best_maximal_example =
    find_best_maximal small_numerics small_decode (num 50) (num 60) (pos 1) throughput_rises
      row_found best_found 1 (omega arith) refl

abbrev profiled : PrefillData Fixed
profiled = record {
  prefill_isl = num 40 ∷ num 10 ∷ num 90 ∷ [];
  prefill_ttft = num 150 ∷ num 100 ∷ num 200 ∷ [];
  prefill_thpt_per_gpu = num 2 ∷ num 2 ∷ num 3 ∷ [];
}

profiled_created : (p : PrefillInterpolator Fixed) × (create_prefill small_numerics profiled ≡ ok p)
unfolding create_prefill
profiled_created = (_, refl)

create_prefill_covers_example :
    All (λ x. fixed_Floating.eq (clamp_isl profiled_created.0 x) x ≡ true) profiled.prefill_isl
    × ((isl : Fixed)
        → (fixed_Floating.le profiled_created.0.min_isl (clamp_isl profiled_created.0 isl) ≡ true)
          × (fixed_Floating.le (clamp_isl profiled_created.0 isl) profiled_created.0.max_isl
              ≡ true))
create_prefill_covers_example =
    create_prefill_covers fixed-IsOrdered fixed-IsLinear small_numerics profiled
      (refl, (refl, (refl, tt))) profiled_created.1

indices_found : compute_idx small_numerics small_decode (num 50) (num 60) ≡ ok (pos 3, pos 1)
unfolding compute_idx ◌-ℤ◌ ◌*ℤ◌
indices_found = refl

interpolate_itl_in_grid_example :
    (x : ℕ) × (y : ℕ) × (x < 4)
    × (y < 4)
    × (pos 3 ≡ pos x)
    × (pos 1 ≡ pos y)
    × (interpolate_itl small_numerics small_decode (num 50) (num 60)
        ≡ ok (small_decode.itl_interpolator y x))
interpolate_itl_in_grid_example =
    interpolate_itl_in_grid small_numerics small_numerics-IsClip fixed-IsTruncation small_decode
      (num 50) (num 60) (omega arith) indices_found
