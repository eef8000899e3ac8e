-- ===== src/Interpolation.antt =====
-- Interpolation of the profiling data (python/planner/rbg_planner/utils/perf_interpolation.py), from
-- the loaded data on. The curves and grids that scipy and numpy compute are parameters: a
-- record `Numerics` of the calls that the code makes.

pub mod Search
pub mod Range
pub mod Covers
use mathlib.Core.Option.{get_or}
use rbg_planner.Prelude.{
  ℕ, zero, suc, ◌-◌, ℤ, pos, List, [], ◌∷◌, Bool, true, false, Option, none, some, if◌then◌else◌,
  max_ℤ, min_ℤ, negsuc, ltb, ◌-ℤ◌, pos_part,
}
use mathlib.Core.List.{foldl}
use rbg_planner.Python.{Result, ok, err, value_error, index_error}
use rbg_planner.Profile.{KvTokens, json_tokens, numpy_tokens, PrefillData, DecodeData}
use rbg_planner.Python.Pure.{◌>>=◌}
use rbg_planner.Python.Float.{Floating, div, int, min_float, max_float}

pub record Numerics (F : Type 0) : Type 0 where
  -- `scipy.interpolate.interp1d(x, y, kind="cubic")`, and the curve that it returns
  pub interp1d : List F → List F → Result (F → Result F)
  -- `numpy.linspace(start, stop, n)`, by index
  pub linspace : F → F → ℕ → ℕ → F
  -- `griddata((x, y), z, (X, Y), method)` at row `iy` and column `ix` of the grid of `xi` and `yi`
  pub griddata_cubic : List F → List F → List F → (ℕ → F) → (ℕ → F) → ℕ → Result (ℕ → ℕ → F)
  pub griddata_nearest : List F → List F → List F → (ℕ → F) → (ℕ → F) → ℕ → Result (ℕ → ℕ → F)
  -- `numpy.round(x)`, and `x - y`, `x / y` on `numpy.float64`, which do not raise
  pub np_round : F → F
  pub np_sub : F → F → F
  pub np_div : F → F → F
  -- `numpy.clip(x, lo, hi)`
  pub np_clip : F → F → F → F

-- `class PrefillInterpolator`
pub record PrefillInterpolator (F : Type 0) : Type 0 where
  pub min_isl : F
  pub max_isl : F
  pub ttft_interpolator : F → Result F
  pub thpt_interpolator : F → Result F

-- `class DecodeInterpolator`
pub record DecodeInterpolator (F : Type 0) : Type 0 where
  pub resolution : ℕ
  pub max_kv_tokens : KvTokens
  pub xi : ℕ → F
  pub yi : ℕ → F
  pub itl_interpolator : ℕ → ℕ → F
  pub thpt_interpolator : ℕ → ℕ → F

-- An index into `n` items: numpy counts a negative index from the end.
unfoldable pub position : ℕ → ℤ → Result ℕ
position n (pos i) = if ltb i n then ok i else err index_error
position n (negsuc i) = if ltb i n then ok (n - suc i) else err index_error

-- `max(0, min(iy, resolution - 1))`, a row of the grid
unfoldable pub clamp_row : ℕ → ℤ → ℕ
unfolding max_ℤ min_ℤ ◌-ℤ◌
clamp_row n iy = pos_part (max_ℤ (pos 0) (min_ℤ iy (pos n -ℤ pos 1)))

module _ {F : Type 0} ⦃d : Floating F⦄ where
  open d use {of_int, add, sub, mul, quot, le, is_nan}

  -- `min(array)` and `max(array)`, which raise on an empty array
  unfoldable pub min_items : List F → Result F
  unfolding min_float
  min_items [] = err value_error
  min_items (x ∷ xs) = ok (foldl min_float x xs)

  unfoldable pub max_items : List F → Result F
  unfolding max_float
  max_items [] = err value_error
  max_items (x ∷ xs) = ok (foldl max_float x xs)

  -- `PrefillInterpolator.__init__`, from the arrays on
  unfoldable pub create_prefill : Numerics F → PrefillData F → Result (PrefillInterpolator F)
  unfolding min_items max_items
  create_prefill numerics raw_data = do
    lowest ← min_items raw_data.prefill_isl
    highest ← max_items raw_data.prefill_isl
    ttft ← numerics.interp1d raw_data.prefill_isl raw_data.prefill_ttft
    thpt ← numerics.interp1d raw_data.prefill_isl raw_data.prefill_thpt_per_gpu
    ok (record {
      min_isl = lowest;
      max_isl = highest;
      ttft_interpolator = ttft;
      thpt_interpolator = thpt;
    })

  unfoldable pub clamp_isl : PrefillInterpolator F → F → F
  unfolding min_float max_float
  clamp_isl p isl = max_float p.min_isl (min_float isl p.max_isl)

  unfoldable pub interpolate_ttft : PrefillInterpolator F → F → Result F
  unfolding clamp_isl
  interpolate_ttft p isl = p.ttft_interpolator (clamp_isl p isl)

  unfoldable pub prefill_thpt_per_gpu : PrefillInterpolator F → F → Result F
  unfolding clamp_isl
  prefill_thpt_per_gpu p isl = p.thpt_interpolator (clamp_isl p isl)

  -- `a[nan_mask] = b[nan_mask]`
  unfoldable pub fill_nan : (ℕ → ℕ → F) → (ℕ → ℕ → F) → ℕ → ℕ → F
  fill_nan grid nearest iy ix = if is_nan (grid iy ix) then nearest iy ix else grid iy ix

  any_nan_row : (ℕ → F) → ℕ → Bool
  any_nan_row row zero = false
  any_nan_row row (suc k) = let rest = any_nan_row row k in if is_nan (row k) then true else rest

  any_nan_rows : (ℕ → ℕ → F) → ℕ → ℕ → Bool
  unfolding any_nan_row
  any_nan_rows grid columns zero = false
  any_nan_rows grid columns (suc k) =
      let rest = any_nan_rows grid columns k in if any_nan_row (grid k) columns then true else rest

  -- `np.any(np.isnan(grid))`
  unfoldable pub any_nan : (ℕ → ℕ → F) → ℕ → Bool
  unfolding any_nan_rows
  any_nan grid resolution = any_nan_rows grid resolution resolution

  -- The second `griddata` call is made only under the test.
  fill_grid : ℕ → (ℕ → ℕ → F) → Result (ℕ → ℕ → F) → Result (ℕ → ℕ → F)
  unfolding any_nan fill_nan
  fill_grid resolution grid nearest =
      if any_nan grid resolution then nearest >>= (λ n. ok (fill_nan grid n)) else ok grid

  -- One of the two grids: cubic inside the profiled region, nearest where that is undefined.
  unfoldable pub create_grid :
      Numerics F → DecodeData F → List F → (ℕ → F) → (ℕ → F) → ℕ → Result (ℕ → ℕ → F)
  unfolding fill_grid
  create_grid numerics raw_data z xi yi resolution = do
    grid ← numerics.griddata_cubic raw_data.x_kv_usage raw_data.y_context_length z xi yi resolution
    fill_grid resolution grid
        (numerics.griddata_nearest raw_data.x_kv_usage raw_data.y_context_length z xi yi resolution)

  -- `DecodeInterpolator.__init__`, from the arrays on
  unfoldable pub create_decode : Numerics F → ℕ → DecodeData F → Result (DecodeInterpolator F)
  unfolding max_items create_grid
  create_decode numerics resolution raw_data = do
    longest ← max_items raw_data.y_context_length
    let xi = numerics.linspace (of_int (pos 0)) (of_int (pos 1)) resolution
    let yi = numerics.linspace (of_int (pos 0)) longest resolution
    itl ← create_grid numerics raw_data raw_data.z_itl xi yi resolution
    thpt ← create_grid numerics raw_data raw_data.z_thpt_per_gpu xi yi resolution
    ok (record {
      resolution = resolution;
      max_kv_tokens = raw_data.max_kv_tokens;
      xi = xi;
      yi = yi;
      itl_interpolator = itl;
      thpt_interpolator = thpt;
    })

  -- `axis[i]`, where the axis has `n` points
  unfoldable pub axis_at : ℕ → (ℕ → F) → ℕ → Result F
  axis_at n axis i = if ltb i n then ok (axis i) else err index_error

  -- `grid[iy, ix]`
  unfoldable pub grid_at : ℕ → (ℕ → ℕ → F) → ℤ → ℤ → Result F
  unfolding position
  grid_at n grid iy ix = do y ← position n iy; x ← position n ix; ok (grid y x)

  -- `int(np.clip(np.round((x - axis[0]) / (axis[1] - axis[0])), 0, resolution - 1))`
  unfoldable pub axis_index : Numerics F → ℕ → (ℕ → F) → F → Result ℤ
  unfolding axis_at
  axis_index numerics n axis x = do
    first ← axis_at n axis 0
    second ← axis_at n axis 1
    let steps = numerics.np_div (numerics.np_sub x first) (numerics.np_sub second first)
    int (numerics.np_clip (numerics.np_round steps) (of_int (pos 0)) (of_int (pos n -ℤ pos 1)))

  -- `kv_tokens / self.max_kv_tokens`: numpy divides by zero without an exception.
  unfoldable pub over_tokens : Numerics F → F → KvTokens → Result F
  over_tokens numerics kv_tokens (json_tokens n) = div kv_tokens (of_int n)
  over_tokens numerics kv_tokens (numpy_tokens n) = ok (numerics.np_div kv_tokens (of_int n))

  unfoldable pub compute_idx : Numerics F → DecodeInterpolator F → F → F → Result (ℤ × ℤ)
  unfolding axis_index over_tokens
  compute_idx numerics p concurrency context_length = do
    kv_usage ← over_tokens numerics (mul concurrency context_length) p.max_kv_tokens
    ix ← axis_index numerics p.resolution p.xi kv_usage
    iy ← axis_index numerics p.resolution p.yi context_length
    ok (ix, iy)

  unfoldable pub interpolate_itl : Numerics F → DecodeInterpolator F → F → F → Result F
  unfolding compute_idx grid_at
  interpolate_itl numerics p concurrency context_length = do
    (ix, iy) ← compute_idx numerics p concurrency context_length
    grid_at p.resolution p.itl_interpolator iy ix

  unfoldable pub decode_thpt_per_gpu : Numerics F → DecodeInterpolator F → F → F → Result F
  unfolding compute_idx grid_at
  decode_thpt_per_gpu numerics p concurrency context_length = do
    (ix, iy) ← compute_idx numerics p concurrency context_length
    grid_at p.resolution p.thpt_interpolator iy ix

  -- The loop `for ix in range(resolution - 1, -1, -1)` with `count` rounds left: the index of the
  -- round that returns, or `none` when the loop runs to its end.
  unfoldable pub search_row : (ℕ → F) → F → ℕ → Option ℕ
  search_row row itl zero = none
  search_row row itl (suc ix) =
      let rest = search_row row itl ix in if le (row ix) itl then some ix else rest

  unfoldable pub find_best_throughput_per_gpu :
      Numerics F → DecodeInterpolator F → F → F → Result (F × F × F)
  unfolding axis_index clamp_row search_row
  find_best_throughput_per_gpu numerics p itl context_length = do
    row ← axis_index numerics p.resolution p.yi context_length
    let iy = clamp_row p.resolution row
    let ix = get_or (search_row (p.itl_interpolator iy) itl p.resolution) 0
    ok (p.thpt_interpolator iy ix, p.itl_interpolator iy ix, p.xi ix)
