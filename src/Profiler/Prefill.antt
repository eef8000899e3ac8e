-- ===== src/Profiler/Prefill.antt =====
-- `profile_prefill`: one run of the benchmark for each input length, and the three lists.
use rbg_planner.Prelude.{
  ℤ, pos, ◌-ℤ◌, ltb_ℤ, List, [], ◌∷◌, ◌++◌, Bool, Option, none, some, if◌then◌else◌, map,
}
use Prim.Native.String.{◌++◌ as append}
use rbg_planner.Python.{Result, ok, Method, pure, lift, ◌>>=◌}
use rbg_planner.Python.Pure.{◌>>=◌ as bind_result}
use rbg_planner.Python.Float.{Floating, div}
use rbg_planner.Python.Text.{int_text, join_path}
use rbg_planner.Profile.{Items, array, int_number, float_number}
use rbg_planner.Profiler.{BenchResult, Benchmark, Target, BenchCase, run_bench}

-- What `profile_prefill` collects and returns
pub record PrefillProfile (F : Type 0) : Type 0 where
  pub prefill_isl : List ℤ
  pub prefill_ttft : List F
  pub prefill_thpt_per_gpu : List F

-- The dictionary `data` of `profile_prefill`.
unfoldable pub prefill_items : {F : Type 0} → PrefillProfile F → Items F
prefill_items p =
    ("prefill_isl", array (map int_number p.prefill_isl))
    ∷ ("prefill_ttft", array (map float_number p.prefill_ttft))
    ∷ ("prefill_thpt_per_gpu", array (map float_number p.prefill_thpt_per_gpu))
    ∷ []

unfoldable pub prefill_case : Target → ℤ → BenchCase
unfolding join_path int_text
prefill_case t isl = record {
  num_prompts = pos 5;
  input_len = isl;
  output_len = pos 5;
  result_file = join_path t.output_dir (append "prefill_isl" (append (int_text isl) ".json"));
}

-- The test of a round: the length leaves room in the context.
unfoldable pub has_room : Target → ℤ → Bool
unfolding ◌-ℤ◌
has_room t isl = ltb_ℤ isl (t.max_context_length -ℤ pos 512)

module _ {F : Type 0} ⦃d : Floating F⦄ where
  open d use {of_int, mul, le, eq, round_to}

  -- `a or b`, of numbers that may be missing: zero is no truth.
  unfoldable pub or_number : Option F → Option F → Option F
  or_number none b = b
  or_number (some x) b = if eq x (of_int (pos 0)) then b else some x

  -- The TTFT of a result, under the first of its names that it has.
  unfoldable pub ttft_of : BenchResult F → Option F
  unfolding or_number
  ttft_of r = elim r.mean_ttft_ms [ none ↦ or_number r.avg_ttft_ms r.mean_ttft | some x ↦ some x ]

  -- `isl / ttft_ms * 1000 / num_gpus`
  unfoldable pub prefill_thpt : ℤ → F → ℤ → Result F
  prefill_thpt isl ttft_ms num_gpus =
      bind_result (div (of_int isl) ttft_ms)
        (λ per_ms. div (mul per_ms (of_int (pos 1000))) (of_int num_gpus))

  -- The three appends.
  unfoldable pub append_prefill : ℤ → F → F → PrefillProfile F → PrefillProfile F
  append_prefill isl ttft_ms thpt acc = record {
    prefill_isl = acc.prefill_isl ++ (isl ∷ []);
    prefill_ttft = acc.prefill_ttft ++ (round_to 2 ttft_ms ∷ []);
    prefill_thpt_per_gpu = acc.prefill_thpt_per_gpu ++ (round_to 2 thpt ∷ []);
  }

  -- A TTFT that was found, after its test.
  unfoldable pub add_ttft : ℤ → ℤ → Option F → PrefillProfile F → Result (PrefillProfile F)
  unfolding prefill_thpt append_prefill
  add_ttft num_gpus isl none acc = ok acc
  add_ttft num_gpus isl (some ttft_ms) acc =
      if le ttft_ms (of_int (pos 0))
      then ok acc
      else bind_result (prefill_thpt isl ttft_ms num_gpus)
          (λ thpt. ok (append_prefill isl ttft_ms thpt acc))

  -- The rest of a round of the loop, from the result of the benchmark on.
  unfoldable pub add_prefill :
      ℤ → ℤ → Option (BenchResult F) → PrefillProfile F → Result (PrefillProfile F)
  unfolding ttft_of add_ttft
  add_prefill num_gpus isl none acc = ok acc
  add_prefill num_gpus isl (some r) acc = add_ttft num_gpus isl (ttft_of r) acc

  abbrev pub no_prefill : PrefillProfile F
  no_prefill = record { prefill_isl = []; prefill_ttft = []; prefill_thpt_per_gpu = [] }

  module _ {W : Type 0} (bench : Benchmark F W) (t : Target) where
    unfoldable pub prefill_round : ℤ → PrefillProfile F → Method W (PrefillProfile F)
    unfolding has_room run_bench prefill_case add_prefill
    prefill_round isl acc =
        if has_room t isl
        then run_bench bench t (prefill_case t isl)
          >>= (λ r. lift (add_prefill t.num_gpus isl r acc))
        else pure acc

    -- The loop over the input lengths.
    unfoldable pub prefill_rounds : List ℤ → PrefillProfile F → Method W (PrefillProfile F)
    unfolding prefill_round
    prefill_rounds [] acc = pure acc
    prefill_rounds (isl ∷ isls) acc = prefill_round isl acc >>= prefill_rounds isls

    unfoldable pub profile_prefill : List ℤ → Method W (PrefillProfile F)
    unfolding prefill_rounds
    profile_prefill isl_points = prefill_rounds isl_points no_prefill
