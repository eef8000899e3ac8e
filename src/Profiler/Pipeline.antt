-- ===== src/Profiler/Pipeline.antt =====
-- `run_profiling`, and the profiler's command (`main` of python/profiler/rbg_profiler/main.py). What
-- `json.dumps` answers is a parameter.
use rbg_planner.Prelude.{ℕ, zero, suc, ℤ, pos, String, List, [], ◌∷◌, if◌then◌else◌}
use rbg_planner.Python.{
  Error, Result, ok, err, index_error, system_exit, Method, pure, lift, modify, ◌>>=◌, ◌>>◌,
}
use rbg_planner.Python.Pure.{◌>>=◌ as bind_result}
use rbg_planner.Python.Float.{Floating}
use rbg_planner.Python.Text.{codes, scan_int, split_commas, join_path}
use rbg_planner.Config.{Environment, converted}
use rbg_planner.Config.Options.{CommandLine}
use rbg_planner.Profiler.Options.{ProfilerArgs, profiler_args}
use rbg_planner.Interpolation.{min_items, max_items}
use rbg_planner.Profile.{Items}
use rbg_planner.Profiler.{Benchmark, Target}
use rbg_planner.Profiler.Prefill.{PrefillProfile, prefill_items, profile_prefill}
use rbg_planner.Profiler.Decode.{DecodeProfile, Sweep, decode_items, profile_decode}
use rbg_planner.Profiler.Store.{ConfigApi, update_configmap}

-- What the profiler calls beside the benchmark: the kubernetes client, `os.makedirs`, the writing
-- of a file, `print`, and `json.dumps` with its indentation.
pub record Outside (F W : Type 0) : Type 0 where
  pub bench : Benchmark F W
  pub config_api : ConfigApi W
  pub makedirs : String → Method W (Unit {0})
  pub write_file : String → String → Method W (Unit {0})
  pub print : String → W → W
  pub dumps : Items F → String
  -- `sys.executable`
  pub executable : String

-- `[int(x) for x in pieces]`
unfoldable pub ints_of : List (List ℕ) → Result (List ℤ)
unfolding scan_int
ints_of [] = ok []
ints_of (piece ∷ pieces) =
    bind_result (converted (scan_int piece)) (λ n. bind_result (ints_of pieces) (λ ns. ok (n ∷ ns)))

-- `[int(x) for x in text.split(",")]`
unfoldable pub points_of : String → Result (List ℤ)
unfolding ints_of split_commas
points_of text = ints_of (split_commas (codes text))

unfoldable pub target_of : String → ProfilerArgs → Target
target_of executable args = record {
  executable = executable;
  base_url = args.base_url;
  model = args.model_name;
  tokenizer = args.tokenizer;
  num_gpus = args.num_gpus;
  max_context_length = args.max_context_length;
  output_dir = args.output_dir;
}

-- The decode phase is run with the default of its parameter `osl`.
unfoldable pub sweep_with : ProfilerArgs → Sweep
sweep_with args = record {
  max_kv_tokens = args.max_kv_tokens;
  osl = pos 500;
  granularity = args.decode_granularity;
}

module _ {F : Type 0} where
  -- `items[i]`
  unfoldable pub item_at : List F → ℕ → Result F
  item_at [] i = err index_error
  item_at (x ∷ xs) zero = ok x
  item_at (x ∷ xs) (suc i) = item_at xs i

  -- The loop over the prefill points of the summary, from point `i` on.
  unfoldable pub summary_lines : PrefillProfile F → ℕ → List ℤ → Result (Unit {0})
  unfolding item_at
  summary_lines p i [] = ok tt
  summary_lines p i (isl ∷ isls) = bind_result (item_at p.prefill_ttft i) (λ ttft.
      bind_result (item_at p.prefill_thpt_per_gpu i) (λ thpt. summary_lines p (suc i) isls))

module _ {F : Type 0} ⦃d : Floating F⦄ where
  -- What the summary computes of the decode points, where it has any.
  unfoldable pub ranges_of : DecodeProfile F → List F → Result (Unit {0})
  unfolding min_items max_items
  ranges_of q [] = ok tt
  ranges_of q (_ ∷ _) = bind_result (min_items q.z_thpt_per_gpu) (λ low.
      bind_result (max_items q.z_thpt_per_gpu) (λ high.
        bind_result (min_items q.z_itl) (λ fast. bind_result (max_items q.z_itl) (λ slow. ok tt))))

  -- The summary that `run_profiling` logs: what it raises.
  unfoldable pub summary : PrefillProfile F → DecodeProfile F → Result (Unit {0})
  unfolding summary_lines ranges_of
  summary p q = bind_result (summary_lines p 0 p.prefill_isl) (λ _. ranges_of q q.z_thpt_per_gpu)

  module _ {W : Type 0} (out : Outside F W) where
    -- The JSON that is printed at the end.
    abbrev pub print_json : String → String → W → W
    print_json prefill_json decode_json w₀ =
        let w₁ = out.print "\n===PREFILL_RAW_DATA_JSON_START===" w₀ in
        let w₂ = out.print prefill_json w₁ in
        let w₃ = out.print "===PREFILL_RAW_DATA_JSON_END===" w₂ in
        let w₄ = out.print "\n===DECODE_RAW_DATA_JSON_START===" w₃ in
        let w₅ = out.print decode_json w₄ in out.print "===DECODE_RAW_DATA_JSON_END===" w₅

    -- The update of the ConfigMap, where it is asked for.
    abbrev pub store : ProfilerArgs → String → String → Method W (Unit {0})
    store args prefill_json decode_json =
        if args.update_configmap
        then update_configmap out.config_api args.output_configmap args.namespace prefill_json
            decode_json
        else pure tt

    -- From the summary on.
    abbrev pub finish : ProfilerArgs → PrefillProfile F → DecodeProfile F → Method W (Unit {0})
    finish args p q =
        let prefill_json = out.dumps (prefill_items p) in
        let decode_json = out.dumps (decode_items args.max_kv_tokens q) in
        lift (summary p q)
        >> (store args prefill_json decode_json >> modify (print_json prefill_json decode_json))

    -- The part after both phases.
    unfoldable pub report : ProfilerArgs → PrefillProfile F → DecodeProfile F → Method W (Unit {0})
    unfolding summary update_configmap join_path
    report args p q =
        out.write_file (join_path args.output_dir "prefill_raw_data.json")
          (out.dumps (prefill_items p))
        >> (out.write_file (join_path args.output_dir "decode_raw_data.json")
              (out.dumps (decode_items args.max_kv_tokens q))
            >> finish args p q)

    -- Both phases, on the points.
    unfoldable pub profile : ProfilerArgs → List ℤ → List ℤ → Method W (Unit {0})
    unfolding target_of sweep_with profile_prefill profile_decode report
    profile args prefill_points decode_points =
        let t = target_of out.executable args in
        profile_prefill out.bench t prefill_points >>= λ p.
        profile_decode out.bench t (sweep_with args) decode_points >>= report args p

    unfoldable pub run_profiling : ProfilerArgs → Method W (Unit {0})
    unfolding points_of profile
    run_profiling args =
        out.makedirs args.output_dir
        >> (lift (points_of args.prefill_isl_points) >>= λ prefill_points.
            lift (points_of args.decode_isl_points) >>= profile args prefill_points)

    -- `except Exception`, which `SystemExit` is not.
    abbrev pub exit_status : Error → Error
    exit_status (system_exit n) = system_exit n
    exit_status e = system_exit 1

    abbrev pub or_exit : Result (Unit {0}) → Result (Unit {0})
    or_exit (ok _) = ok tt
    or_exit (err e) = err (exit_status e)

    unfoldable pub profiler_main : Environment → CommandLine → Method W (Unit {0})
    unfolding profiler_args run_profiling
    profiler_main env line = lift (profiler_args env line) >>= λ args w.
        let (r, w') = run_profiling args w in (or_exit r, w')
