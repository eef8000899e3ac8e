-- ===== src/Profiler.antt =====
-- The profiler (python/profiler/rbg_profiler/profiler.py): what it calls, and the runs of the
-- benchmark. A method runs on the world in which the processes, the files and the cluster live. The
-- benchmark's request rate is always `float("inf")`, whose print is "inf".
pub mod Prefill
pub mod Decode
pub mod Store
pub mod Options
pub mod Pipeline
pub mod Points
pub mod Attempts
pub mod Stored
pub mod Levels
pub mod Recorded
pub mod Grown
pub mod Complete
pub mod Mounted
use rbg_planner.Prelude.{
  ℕ, zero, suc, ℤ, pos, eq_ℤ, String, List, [], ◌∷◌, Bool, true, false, Option, none, some,
  if◌then◌else◌,
}
use mathlib.Core.List.{get_last?, filter}
use text.Mathlib.Text.{◌==◌ as str_eq}
use Prim.Native.String.{◌++◌ as append}
use rbg_planner.Python.{
  Error, Result, ok, err, file_not_found, json_decode_error, Method, pure, raise, ◌>>=◌, ◌>>◌,
}
use rbg_planner.Python.Pure.{◌>>=◌ as ◌>>>◌}
use rbg_planner.Python.Text.{strip, int_text, join_path}
use rbg_planner.Python.Float.{Floating}

-- The object on the last line of a result file, as the keys that the code reads. A key that is
-- missing or null is `none`.
pub record BenchResult (F : Type 0) : Type 0 where
  pub mean_ttft_ms : Option F
  pub avg_ttft_ms : Option F
  pub mean_ttft : Option F
  pub mean_itl_ms : Option F
  pub avg_itl_ms : Option F
  pub mean_tpot_ms : Option F
  pub output_throughput : Option F

-- `subprocess.run(cmd)` with the exit code that it answers, `open(path).readlines()`, `json.loads`,
-- and `time.sleep`.
pub record Benchmark (F W : Type 0) : Type 0 where
  pub run : List String → W → Result ℤ × W
  pub read_lines : String → W → Result (List String) × W
  pub loads : String → Result (BenchResult F)
  pub sleep : ℕ → W → W

-- What the two profiling phases share of their arguments.
pub record Target : Type 0 where
  pub executable : String
  pub base_url : String
  pub model : String
  pub tokenizer : String
  pub num_gpus : ℤ
  pub max_context_length : ℤ
  pub output_dir : String

-- The arguments of one run that change from run to run.
pub record BenchCase : Type 0 where
  pub num_prompts : ℤ
  pub input_len : ℤ
  pub output_len : ℤ
  pub result_file : String

unfoldable pub command : Target → BenchCase → List String
unfolding int_text
command t c =
    t.executable
    ∷ "-m"
    ∷ "sglang.bench_serving"
    ∷ "--backend"
    ∷ "sglang-oai"
    ∷ "--base-url"
    ∷ t.base_url
    ∷ "--model"
    ∷ t.model
    ∷ "--tokenizer"
    ∷ t.tokenizer
    ∷ "--dataset-name"
    ∷ "random-ids"
    ∷ "--random-input-len"
    ∷ int_text c.input_len
    ∷ "--random-output-len"
    ∷ int_text c.output_len
    ∷ "--random-range-ratio"
    ∷ "1.0"
    ∷ "--num-prompts"
    ∷ int_text c.num_prompts
    ∷ "--request-rate"
    ∷ "inf"
    ∷ "--disable-tqdm"
    ∷ "--output-file"
    ∷ c.result_file
    ∷ []

-- `[l.strip() for l in lines if l.strip()]`
unfoldable pub stripped : List String → List String
unfolding strip
stripped [] = []
stripped (l ∷ ls) = let rest = stripped ls in if str_eq (strip l) "" then rest else strip l ∷ rest

-- The `except` clause of an attempt: no file and no JSON are no result yet.
abbrev pub handled : {A : Type 0} → Result (Option A) → Result (Option A)
handled (ok o) = ok o
handled (err file_not_found) = ok none
handled (err json_decode_error) = ok none
handled (err e) = err e

-- The result of an attempt, or the next attempts.
abbrev pub or_else : {W A : Type 0} → Method W (Option A) → Option A → Method W (Option A)
or_else again none = again
or_else again (some r) = pure (some r)

module _ {F W : Type 0} (bench : Benchmark F W) where
  -- `json.loads(lines[-1])`, if there is a line
  abbrev pub load_line : Option String → Result (Option (BenchResult F))
  load_line none = ok none
  load_line (some line) = bench.loads line >>> (λ r. ok (some r))

  unfoldable pub last_result : List String → Result (Option (BenchResult F))
  unfolding stripped
  last_result lines = load_line (get_last? (stripped lines))

  -- The body of the `try`.
  unfoldable pub read_result : String → Method W (Option (BenchResult F))
  unfolding last_result
  read_result path w =
      let (lines, w') = bench.read_lines path w in (handled (lines >>> last_result), w')

  -- `time.sleep(5)`
  unfoldable pub wait_five : Method W (Unit {0})
  wait_five w = (ok tt, bench.sleep 5 w)

  -- The two branches of a round, on the exit code.
  abbrev pub after_run :
      Method W (Option (BenchResult F)) → String → ℤ → Method W (Option (BenchResult F))
  after_run again path returncode =
      if eq_ℤ returncode (pos 0) then read_result path >>= or_else again else wait_five >> again

  -- The loop of `run_bench`, with `n` attempts left.
  unfoldable pub attempts : ℕ → Target → BenchCase → Method W (Option (BenchResult F))
  unfolding command read_result wait_five
  attempts zero t c = pure none
  attempts (suc n) t c =
      let again = attempts n t c in bench.run (command t c) >>= after_run again c.result_file

  unfoldable pub run_bench : Target → BenchCase → Method W (Option (BenchResult F))
  unfolding attempts
  run_bench = attempts 3
