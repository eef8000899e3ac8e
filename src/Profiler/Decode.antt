-- ===== src/Profiler/Decode.antt =====
-- `profile_decode`: for each input length a sweep over the concurrency, and the four lists.
use rbg_planner.Prelude.{
  ℕ, zero, suc, ℤ, pos, negsuc, ◌+ℤ◌, ◌-ℤ◌, min_ℤ, max_ℤ, ltb_ℤ, eq_ℤ, List, [], ◌∷◌, ◌++◌, Option,
  none, some, if◌then◌else◌, map,
}
use Prim.Native.String.{◌++◌ as append}
use rbg_planner.Python.{Result, ok, Method, pure, lift, ◌>>=◌ as bind_method}
use rbg_planner.Python.Pure.{◌>>=◌}
use rbg_planner.Python.Float.{Floating, div, div_int, int}
use rbg_planner.Python.Division.{floor_div}
use rbg_planner.Python.Text.{int_text, join_path}
use rbg_planner.Profile.{Items, array, number, int_number, float_number}
use rbg_planner.Profiler.{BenchResult, Benchmark, Target, BenchCase, run_bench}
use rbg_planner.Profiler.Prefill.{or_number}

-- What `profile_decode` collects and returns, without `max_kv_tokens`, which is its argument
pub record DecodeProfile (F : Type 0) : Type 0 where
  pub x_kv_usage : List F
  pub y_context_length : List ℤ
  pub z_itl : List F
  pub z_thpt_per_gpu : List F

-- The dictionary `data` of `profile_decode`.
unfoldable pub decode_items : {F : Type 0} → ℤ → DecodeProfile F → Items F
decode_items max_kv_tokens p =
    ("x_kv_usage", array (map float_number p.x_kv_usage))
    ∷ ("y_context_length", array (map int_number p.y_context_length))
    ∷ ("z_itl", array (map float_number p.z_itl))
    ∷ ("z_thpt_per_gpu", array (map float_number p.z_thpt_per_gpu))
    ∷ ("max_kv_tokens", number (int_number max_kv_tokens))
    ∷ []

-- The arguments that the decode phase has beside the target's.
pub record Sweep : Type 0 where
  pub max_kv_tokens : ℤ
  pub osl : ℤ
  pub granularity : ℤ

-- `list(range(start, start + n))`
unfoldable pub range_from : ℤ → ℕ → List ℤ
unfolding ◌+ℤ◌
range_from start zero = []
range_from start (suc n) = start ∷ range_from (start +ℤ pos 1) n

-- How many rounds `range(n)` makes.
abbrev pub rounds_of : ℤ → ℕ
rounds_of (pos n) = n
rounds_of (negsuc n) = 0

-- A number put into an ascending list, once.
unfoldable pub insert_once : ℤ → List ℤ → List ℤ
insert_once n [] = n ∷ []
insert_once n (m ∷ ms) =
    let rest = insert_once n ms in
    if ltb_ℤ n m then n ∷ m ∷ ms else if eq_ℤ n m then m ∷ ms else m ∷ rest

-- `sorted(set(items))`
unfoldable pub sorted_set : List ℤ → List ℤ
unfolding insert_once
sorted_set [] = []
sorted_set (n ∷ ns) = insert_once n (sorted_set ns)

unfoldable pub decode_case : Target → Sweep → ℤ → ℤ → BenchCase
unfolding join_path int_text
decode_case t sweep isl conc = record {
  num_prompts = conc;
  input_len = isl;
  output_len = sweep.osl;
  result_file = join_path t.output_dir (
      append "decode_isl"
        (append (int_text isl) (append "_conc" (append (int_text conc) ".json"))));
}

module _ (F : Type 0) ⦃d : Floating F⦄ where
  open d use {of_int, add, mul}

  -- `max(1, int(1 + i * step))` for the `n` rounds from `i` on
  unfoldable pub spread : F → ℕ → ℕ → Result (List ℤ)
  unfolding max_ℤ
  spread step i zero = ok []
  spread step i (suc n) = do
    point ← int (add (of_int (pos 1)) (mul (of_int (pos i)) step))
    points ← spread step (suc i) n
    ok (max_ℤ (pos 1) point ∷ points)

  -- The concurrency levels of a sweep, from one to the maximum.
  unfoldable pub concurrency_points : ℤ → ℤ → Result (List ℤ)
  unfolding range_from spread sorted_set ◌-ℤ◌
  concurrency_points max_concurrency granularity =
      if ltb_ℤ granularity max_concurrency
      then (do
        step ← div_int {F = F} (max_concurrency -ℤ pos 1) (granularity -ℤ pos 1)
        points ← spread step 0 (rounds_of granularity)
        ok (sorted_set points))
      else ok (range_from (pos 1) (rounds_of max_concurrency))

  -- The context length of a sweep and its levels, or `none` where there is no level.
  unfoldable pub levels_within : Sweep → ℤ → ℤ → Result (Option (ℤ × List ℤ))
  unfolding concurrency_points
  levels_within sweep context_length max_concurrency =
      if ltb_ℤ max_concurrency (pos 1) then ok none else (do
        points ← concurrency_points max_concurrency sweep.granularity
        ok (some (context_length, points)))

  -- What a sweep of one input length needs, or `none` where the length is skipped.
  unfoldable pub sweep_of : Target → Sweep → ℤ → Result (Option (ℤ × List ℤ))
  unfolding ◌+ℤ◌ min_ℤ levels_within floor_div
  sweep_of t sweep isl =
      if ltb_ℤ (isl +ℤ sweep.osl) t.max_context_length
      then (do
        half ← floor_div sweep.osl (pos 2)
        fitting ← floor_div sweep.max_kv_tokens (isl +ℤ sweep.osl)
        levels_within sweep (isl +ℤ half) (min_ℤ fitting (pos 512)))
      else ok none

module _ {F : Type 0} ⦃d : Floating F⦄ where
  open d use {of_int, add, mul, round_to}

  -- `(isl + osl / 2) * conc / max_kv_tokens`
  unfoldable pub kv_usage_of : Sweep → ℤ → ℤ → Result F
  kv_usage_of sweep isl conc = do
    half ← div_int sweep.osl (pos 2)
    div (mul (add (of_int isl) half) (of_int conc)) (of_int sweep.max_kv_tokens)

  -- The ITL of a result, under the first of its names that is no zero.
  unfoldable pub itl_of : BenchResult F → Option F
  unfolding or_number
  itl_of r = or_number (or_number r.mean_itl_ms r.avg_itl_ms) r.mean_tpot_ms

  -- The four appends.
  unfoldable pub append_decode : ℤ → F → F → F → DecodeProfile F → DecodeProfile F
  append_decode context_length kv_usage itl_ms thpt_per_gpu acc = record {
    x_kv_usage = acc.x_kv_usage ++ (round_to 6 kv_usage ∷ []);
    y_context_length = acc.y_context_length ++ (context_length ∷ []);
    z_itl = acc.z_itl ++ (round_to 3 itl_ms ∷ []);
    z_thpt_per_gpu = acc.z_thpt_per_gpu ++ (round_to 2 thpt_per_gpu ∷ []);
  }

  -- The rest of a round, from the two numbers that a result must have on.
  unfoldable pub add_measured :
      Target → Sweep → ℤ → ℤ → ℤ → Option F → Option F → DecodeProfile F → Result (DecodeProfile F)
  unfolding kv_usage_of append_decode
  add_measured t sweep isl context_length conc (some itl_ms) (some throughput) acc = do
    thpt_per_gpu ← div throughput (of_int t.num_gpus)
    kv_usage ← kv_usage_of sweep isl conc
    ok (append_decode context_length kv_usage itl_ms thpt_per_gpu acc)
  add_measured t sweep isl context_length conc _ _ acc = ok acc

  unfoldable pub add_decode :
      Target
      → Sweep
      → ℤ
      → ℤ
      → ℤ
      → Option (BenchResult F)
      → DecodeProfile F
      → Result (DecodeProfile F)
  unfolding itl_of add_measured
  add_decode t sweep isl context_length conc none acc = ok acc
  add_decode t sweep isl context_length conc (some r) acc =
      add_measured t sweep isl context_length conc (itl_of r) r.output_throughput acc

  abbrev pub no_decode : DecodeProfile F
  no_decode = record { x_kv_usage = []; y_context_length = []; z_itl = []; z_thpt_per_gpu = [] }

  module _ {W : Type 0} (bench : Benchmark F W) (t : Target) (sweep : Sweep) where
    unfoldable pub decode_round : ℤ → ℤ → ℤ → DecodeProfile F → Method W (DecodeProfile F)
    unfolding run_bench decode_case add_decode
    decode_round isl context_length conc acc =
        bind_method (run_bench bench t (decode_case t sweep isl conc))
          (λ r. lift (add_decode t sweep isl context_length conc r acc))

    -- The loop over the levels of one input length.
    unfoldable pub decode_levels : ℤ → ℤ → List ℤ → DecodeProfile F → Method W (DecodeProfile F)
    unfolding decode_round
    decode_levels isl context_length [] acc = pure acc
    decode_levels isl context_length (conc ∷ concs) acc =
        bind_method (decode_round isl context_length conc acc)
          (decode_levels isl context_length concs)

    unfoldable pub decode_sweep :
        ℤ → DecodeProfile F → Option (ℤ × List ℤ) → Method W (DecodeProfile F)
    unfolding decode_levels
    decode_sweep isl acc none = pure acc
    decode_sweep isl acc (some (context_length, points)) =
        decode_levels isl context_length points acc

    -- The loop over the input lengths.
    unfoldable pub decode_lengths : List ℤ → DecodeProfile F → Method W (DecodeProfile F)
    unfolding sweep_of decode_sweep
    decode_lengths [] acc = pure acc
    decode_lengths (isl ∷ isls) acc =
        bind_method (lift (sweep_of F t sweep isl))
          (λ levels. bind_method (decode_sweep isl acc levels) (decode_lengths isls))

    unfoldable pub profile_decode : List ℤ → Method W (DecodeProfile F)
    unfolding decode_lengths
    profile_decode isl_points = decode_lengths isl_points no_decode
