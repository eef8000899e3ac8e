-- ===== src/Config.antt =====
-- The planner's settings: the environment variables (`class PlannerConfig` of
-- python/planner/rbg_planner/config.py), the command line over them (`build_config` of
-- python/planner/rbg_planner/main.py), and the check that `main` makes of the result. What argparse
-- answers is an argument. An integer setting is any Python `int`.
pub mod Environment
pub mod Options
pub mod Choices
pub mod Spelled
use rbg_planner.Prelude.{ℤ, String, Bool, true, false, not, ◌&&◌, Option, none, some, if◌then◌else◌}
use mathlib.Core.Option.{get_or}
use text.Mathlib.Text.{◌==◌ as str_eq}
use rbg_planner.Python.{Result, ok, err, value_error, system_exit}
use rbg_planner.Python.Pure.{◌>>=◌}
use rbg_planner.Python.Text.{parse_int, is_true}
use rbg_planner.Python.Float.{Floating}

pub record PlannerConfig (F : Type 0) : Type 0 where
  pub rbg_name : String
  pub rbg_namespace : String
  pub prefill_role_name : String
  pub decode_role_name : String
  pub prometheus_endpoint : String
  pub metric_source : String
  pub model_name : String
  pub adjustment_interval : ℤ
  pub max_gpu_budget : ℤ
  pub min_replicas : ℤ
  pub max_prefill_replicas : ℤ
  pub max_decode_replicas : ℤ
  pub prefill_engine_num_gpu : ℤ
  pub decode_engine_num_gpu : ℤ
  pub ttft_sla : F
  pub itl_sla : F
  pub load_predictor : String
  pub load_prediction_window_size : ℤ
  pub no_correction : Bool
  pub profile_results_dir : String
  pub planner_prometheus_port : ℤ
  pub no_operation : Bool

-- What `parse_args` answers, `none` for an option that is not given.
pub record Args (F : Type 0) : Type 0 where
  pub rbg_name : Option String
  pub rbg_namespace : Option String
  pub prefill_role_name : Option String
  pub decode_role_name : Option String
  pub prometheus_endpoint : Option String
  pub metric_source : Option String
  pub model_name : Option String
  pub adjustment_interval : Option ℤ
  pub max_gpu_budget : Option ℤ
  pub min_replicas : Option ℤ
  pub prefill_engine_num_gpu : Option ℤ
  pub decode_engine_num_gpu : Option ℤ
  pub ttft_sla : Option F
  pub itl_sla : Option F
  pub load_predictor : Option String
  pub load_prediction_window_size : Option ℤ
  pub no_correction : Option Bool
  pub profile_results_dir : Option String
  pub planner_prometheus_port : Option ℤ
  pub no_operation : Option Bool

-- `build_config`, from the settings of the environment. No option sets the two maxima.
unfoldable pub build_config : {F : Type 0} → PlannerConfig F → Args F → PlannerConfig F
build_config config args = record {
  rbg_name = get_or args.rbg_name config.rbg_name;
  rbg_namespace = get_or args.rbg_namespace config.rbg_namespace;
  prefill_role_name = get_or args.prefill_role_name config.prefill_role_name;
  decode_role_name = get_or args.decode_role_name config.decode_role_name;
  prometheus_endpoint = get_or args.prometheus_endpoint config.prometheus_endpoint;
  metric_source = get_or args.metric_source config.metric_source;
  model_name = get_or args.model_name config.model_name;
  adjustment_interval = get_or args.adjustment_interval config.adjustment_interval;
  max_gpu_budget = get_or args.max_gpu_budget config.max_gpu_budget;
  min_replicas = get_or args.min_replicas config.min_replicas;
  max_prefill_replicas = config.max_prefill_replicas;
  max_decode_replicas = config.max_decode_replicas;
  prefill_engine_num_gpu = get_or args.prefill_engine_num_gpu config.prefill_engine_num_gpu;
  decode_engine_num_gpu = get_or args.decode_engine_num_gpu config.decode_engine_num_gpu;
  ttft_sla = get_or args.ttft_sla config.ttft_sla;
  itl_sla = get_or args.itl_sla config.itl_sla;
  load_predictor = get_or args.load_predictor config.load_predictor;
  load_prediction_window_size =
      get_or args.load_prediction_window_size config.load_prediction_window_size;
  no_correction = get_or args.no_correction config.no_correction;
  profile_results_dir = get_or args.profile_results_dir config.profile_results_dir;
  planner_prometheus_port = get_or args.planner_prometheus_port config.planner_prometheus_port;
  no_operation = get_or args.no_operation config.no_operation;
}

-- `os.environ`
abbrev pub Environment : Type 0
Environment = String → Option String

-- `os.environ.get(name, default)`
abbrev pub text_of : Environment → String → String → String
text_of env name default = get_or (env name) default

-- A conversion that raises a `ValueError` where it gives nothing.
abbrev pub converted : {A : Type 0} → Option A → Result A
converted none = err value_error
converted (some a) = ok a

-- `int(os.environ.get(name, default))`
unfoldable pub int_of : Environment → String → String → Result ℤ
unfolding parse_int
int_of env name default = converted (parse_int (text_of env name default))

module _ {F : Type 0} ⦃d : Floating F⦄ where
  -- `float(os.environ.get(name, default))`
  unfoldable pub float_of : Environment → String → String → Result F
  float_of env name default = converted (d.parse (text_of env name default))

  -- The body of `class PlannerConfig`, which runs at the import.
  unfoldable pub from_env : Environment → Result (PlannerConfig F)
  unfolding int_of float_of is_true
  from_env env = do
    adjustment_interval ← int_of env "ADJUSTMENT_INTERVAL" "180"
    max_gpu_budget ← int_of env "MAX_GPU_BUDGET" "8"
    min_replicas ← int_of env "MIN_REPLICAS" "1"
    max_prefill_replicas ← int_of env "MAX_PREFILL_REPLICAS" "100"
    max_decode_replicas ← int_of env "MAX_DECODE_REPLICAS" "100"
    prefill_engine_num_gpu ← int_of env "PREFILL_ENGINE_NUM_GPU" "1"
    decode_engine_num_gpu ← int_of env "DECODE_ENGINE_NUM_GPU" "1"
    ttft_sla ← float_of env "TTFT_SLA" "500.0"
    itl_sla ← float_of env "ITL_SLA" "50.0"
    window_size ← int_of env "LOAD_PREDICTION_WINDOW_SIZE" "50"
    port ← int_of env "PLANNER_PROMETHEUS_PORT" "0"
    ok (record {
      rbg_name = text_of env "RBG_NAME" "";
      rbg_namespace = text_of env "RBG_NAMESPACE" "default";
      prefill_role_name = text_of env "PREFILL_ROLE_NAME" "prefill";
      decode_role_name = text_of env "DECODE_ROLE_NAME" "decode";
      prometheus_endpoint =
          text_of env "PROMETHEUS_ENDPOINT"
            "http://prometheus-kube-prometheus-prometheus.monitoring.svc.cluster.local:9090";
      metric_source = text_of env "METRIC_SOURCE" "sglang";
      model_name = text_of env "MODEL_NAME" "";
      adjustment_interval = adjustment_interval;
      max_gpu_budget = max_gpu_budget;
      min_replicas = min_replicas;
      max_prefill_replicas = max_prefill_replicas;
      max_decode_replicas = max_decode_replicas;
      prefill_engine_num_gpu = prefill_engine_num_gpu;
      decode_engine_num_gpu = decode_engine_num_gpu;
      ttft_sla = ttft_sla;
      itl_sla = itl_sla;
      load_predictor = text_of env "LOAD_PREDICTOR" "arima";
      load_prediction_window_size = window_size;
      no_correction = is_true (text_of env "NO_CORRECTION" "false");
      profile_results_dir = text_of env "PROFILE_RESULTS_DIR" "/etc/rbg-planner/profiling";
      planner_prometheus_port = port;
      no_operation = is_true (text_of env "NO_OPERATION" "false");
    })

  -- `main` up to the planner: the settings, or `sys.exit(1)` without a name for a planner that
  -- scales.
  unfoldable pub main_config : Environment → Args F → Result (PlannerConfig F)
  unfolding from_env build_config
  main_config env args = do
    defaults ← from_env env
    let config = build_config defaults args
    if str_eq config.rbg_name "" && not config.no_operation then err (system_exit 1) else ok config
