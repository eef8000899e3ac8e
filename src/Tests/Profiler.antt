-- ===== src/Tests/Profiler.antt =====
-- A benchmark that answers every run, in a world that holds the ConfigMaps, and the theorems on the
-- profiler.
use rbg_planner.Prelude.{
  ℕ, zero, suc, ◌+◌, ◌*◌, ◌/◌, ◌≤◌, pos, ◌+ℤ◌, ◌-ℤ◌, ◌*ℤ◌, eq_of_parts, +ℤ_parts, -ℤ_parts, String,
  [], ◌∷◌, All, map, Option, none, some, ◌≡◌, refl, arith,
}
use rbg_planner.Python.{ok}
use rbg_planner.Python.Division.{times_quotient, mul_le}
use rbg_planner.Profiler.{BenchResult, Benchmark, Target, BenchCase, run_bench}
use rbg_planner.Profiler.Attempts.{Measured, run_bench-Measured}
use rbg_planner.Profiler.Prefill.{PrefillProfile, profile_prefill}
use rbg_planner.Profiler.Decode.{DecodeProfile, Sweep, sweep_of, profile_decode}
use rbg_planner.Profiler.Recorded as Prefills
use rbg_planner.Profiler.Recorded.Decode as Decodes
use rbg_planner.Profiler.Levels.{Ascends, IsSpaced}
use rbg_planner.Profiler.Levels.Fitting.{IsLevel, sweep_of-IsLevel, profile_decode_one, IsLone}
use rbg_planner.Profiler.Store.{ConfigMap}
use rbg_planner.Tests.Fixed.{Fixed, num, fixed_Floating}

abbrev pub small_result : BenchResult Fixed
small_result = record {
  mean_ttft_ms = some (num 50);
  avg_ttft_ms = none;
  mean_ttft = none;
  mean_itl_ms = none;
  avg_itl_ms = some (num 20);
  mean_tpot_ms = none;
  output_throughput = some (num 100);
}

-- The ConfigMaps, by their names and namespaces.
abbrev pub World : Type 0
World = String → String → Option ConfigMap

abbrev pub empty : World
empty name ns = none

-- Each run succeeds, and its file has one line between two blank ones.
abbrev pub small_bench : Benchmark Fixed World
small_bench = record {
  run = λ command w. (ok (pos 0), w);
  read_lines = λ path w. (ok ("\n" ∷ "{}\n" ∷ " \n" ∷ []), w);
  loads = λ line. ok small_result;
  sleep = λ seconds w. w;
}

abbrev pub small_target : Target
small_target = record {
  executable = "python3";
  base_url = "http://localhost:8000";
  model = "model";
  tokenizer = "tokenizer";
  num_gpus = pos 2;
  max_context_length = pos 2000;
  output_dir = "/out";
}

abbrev small_case : BenchCase
small_case = record {
  num_prompts = pos 5;
  input_len = pos 100;
  output_len = pos 5;
  result_file = "/out/prefill_isl100.json";
}

abbrev small_sweep : Sweep
small_sweep = record { max_kv_tokens = pos 5000; osl = pos 500; granularity = pos 3 }

bench_ok : run_bench small_bench small_target small_case empty ≡ (ok (some small_result), empty)
unfolding run_bench
bench_ok = refl

run_bench-Measured_example : Measured small_bench small_target small_case small_result
run_bench-Measured_example = run_bench-Measured small_bench small_target small_case empty bench_ok

-- Of three lengths the last leaves no room.
prefilled :
    (p : PrefillProfile Fixed) × (profile_prefill small_bench small_target
        (pos 100 ∷ pos 1000 ∷ pos 1900 ∷ [])
        empty
      ≡ (ok p, empty))
unfolding profile_prefill
prefilled = (_, refl)

prefilled_lengths : prefilled.0.prefill_isl ≡ pos 100 ∷ pos 1000 ∷ []
unfolding prefilled
prefilled_lengths = refl

-- Levels 1, 4 and 8 of the first length, 1, 2 and 3 of the second.
decoded :
    (q : DecodeProfile Fixed) × (profile_decode small_bench small_target small_sweep
        (pos 100 ∷ pos 1000 ∷ [])
        empty
      ≡ (ok q, empty))
unfolding profile_decode ◌*ℤ◌
decoded = (_, refl)

decoded_contexts :
    decoded.0.y_context_length ≡ pos 350 ∷ pos 350 ∷ pos 350 ∷ pos 1250 ∷ pos 1250 ∷ pos 1250 ∷ []
unfolding decoded
decoded_contexts = refl

swept :
    sweep_of Fixed small_target small_sweep (pos 100)
    ≡ ok (some (pos 350, pos 1 ∷ pos 4 ∷ pos 8 ∷ []))
unfolding sweep_of ◌*ℤ◌
swept = refl

minus_one : (n : ℕ) → pos (suc n) -ℤ pos 1 ≡ pos n
minus_one n = eq_of_parts _ _ (omega (arith, -ℤ_parts (pos (suc n)) (pos 1)))

pos_mul : (a b : ℕ) → pos a *ℤ pos b ≡ pos (a * b)
unfolding ◌*ℤ◌
pos_mul a b = ground arith

pos_add : (a b : ℕ) → pos a +ℤ pos b ≡ pos (a + b)
pos_add a b = eq_of_parts _ _ (omega (arith, +ℤ_parts (pos a) (pos b)))

swap_thousand : (i q : ℕ) → i * 1000 * q ≡ i * q * 1000
swap_thousand i q = omega arith

-- The `i`-th of `b + 1` points from 1 to `a + 1`, to three decimals.
spaced_points : (a b i : ℕ) → i ≤ b → (1000 + i * 1000 * (a * 1000 / b) / 1000) / 1000 ≤ suc a
spaced_points a b i h =
    let q = a * 1000 / b in
    omega (
      arith,
      swap_thousand i (a * 1000 / b),
      times_quotient (a * 1000) b,
      mul_le i b (a * 1000 / b) h,
    )

fixed-IsSpaced : IsSpaced Fixed
unfolding IsSpaced
fixed-IsSpaced (suc a) (suc b) i two less small inside =
    rw
      (
        minus_one a,
        minus_one b,
        pos_mul (i * 1000) (a * 1000 / b),
        pos_add 1000 (i * 1000 * (a * 1000 / b) / 1000),
      )
      (omega (arith, spaced_points a b i (omega arith)))
fixed-IsSpaced zero g i two less small inside = absurd (omega arith)
fixed-IsSpaced (suc a) zero i two less small inside = absurd (omega arith)

sweep_of-IsLevel_example :
    Ascends (pos 0) (pos 1 ∷ pos 4 ∷ pos 8 ∷ [])
    × All (IsLevel 5000 600) (pos 1 ∷ pos 4 ∷ pos 8 ∷ [])
unfolding ◌+ℤ◌
sweep_of-IsLevel_example =
    sweep_of-IsLevel Fixed fixed-IsSpaced small_target small_sweep (pos 100) (pos 350) 5000 599 refl
      refl swept

-- A granularity of one, and a KV cache for one request of the shorter length.
abbrev lone_sweep : Sweep
lone_sweep = record small_sweep { granularity = pos 1; max_kv_tokens = pos 1000 }

swept_alone :
    (q : DecodeProfile Fixed) × (profile_decode small_bench small_target lone_sweep
        (map pos (100 ∷ 1900 ∷ []))
        empty
      ≡ (ok q, empty))
unfolding profile_decode ◌*ℤ◌
swept_alone = (_, refl)

profile_decode_one_example :
    All (IsLone Fixed small_bench small_target lone_sweep 1000 500) (100 ∷ 1900 ∷ [])
profile_decode_one_example =
    profile_decode_one Fixed small_bench small_target lone_sweep (100 ∷ 1900 ∷ []) 1000 499 empty
      refl refl refl swept_alone.1
