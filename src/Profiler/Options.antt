-- ===== src/Profiler/Options.antt =====
-- The arguments of the profiler (`main` of python/profiler/rbg_profiler/main.py, up to the `try`): the
-- defaults out of the environment, the options of the command line over them.
use rbg_planner.Prelude.{ℤ, String, Bool, true, if◌then◌else◌}
use mathlib.Core.Option.{get_or}
use rbg_planner.Python.{Result, ok}
use rbg_planner.Python.Pure.{◌>>=◌}
use rbg_planner.Python.Text.{parse_int, is_true}
use rbg_planner.Config.{Environment, text_of, int_of}
use rbg_planner.Config.Options.{CommandLine, typed}

-- The result of `parse_args`.
pub record ProfilerArgs : Type 0 where
  pub base_url : String
  pub model_name : String
  pub tokenizer : String
  pub num_gpus : ℤ
  pub max_kv_tokens : ℤ
  pub max_context_length : ℤ
  pub namespace : String
  pub output_configmap : String
  pub output_dir : String
  pub update_configmap : Bool
  pub prefill_isl_points : String
  pub decode_isl_points : String
  pub decode_granularity : ℤ

-- The integer defaults are read while the parser is built, before any option is parsed.
unfoldable pub profiler_args : Environment → CommandLine → Result ProfilerArgs
unfolding int_of is_true typed parse_int
profiler_args env line = do
  num_gpus ← int_of env "NUM_GPUS" "1"
  max_kv_tokens ← int_of env "MAX_KV_TOKENS" "32768"
  max_context_length ← int_of env "MAX_CONTEXT_LENGTH" "32768"
  granularity ← int_of env "DECODE_GRANULARITY" "6"
  given_gpus ← typed parse_int (line.text "--num-gpus")
  given_tokens ← typed parse_int (line.text "--max-kv-tokens")
  given_length ← typed parse_int (line.text "--max-context-length")
  given_granularity ← typed parse_int (line.text "--decode-granularity")
  ok (record {
    base_url = get_or (line.text "--base-url") (text_of env "BASE_URL" "http://localhost:8000");
    model_name = get_or (line.text "--model-name") (text_of env "MODEL" "");
    tokenizer = get_or (line.text "--tokenizer") (text_of env "TOKENIZER" "");
    num_gpus = get_or given_gpus num_gpus;
    max_kv_tokens = get_or given_tokens max_kv_tokens;
    max_context_length = get_or given_length max_context_length;
    namespace = get_or (line.text "--namespace") (text_of env "NAMESPACE" "default");
    output_configmap =
        get_or (line.text "--output-configmap") (text_of env "CONFIGMAP_NAME" "profiling-results");
    output_dir =
        get_or (line.text "--output-dir") (text_of env "OUTPUT_DIR" "/tmp/profiling_results");
    update_configmap =
        if line.flag "--update-configmap"
        then true
        else is_true (text_of env "UPDATE_CONFIGMAP" "true");
    prefill_isl_points =
        get_or (line.text "--prefill-isl-points")
          (text_of env "PREFILL_ISL_POINTS" "128,256,512,1024,1536,2048,3072,4096");
    decode_isl_points =
        get_or (line.text "--decode-isl-points")
          (text_of env "DECODE_ISL_POINTS" "256,512,1024,2048,3072");
    decode_granularity = get_or given_granularity granularity;
  })
