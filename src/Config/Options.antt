-- ===== src/Config/Options.antt =====
-- The options of the planner's command line (`parse_args` of python/planner/rbg_planner/main.py). How
-- argparse splits the arguments is a parameter: the text that it finds for an option, the last one
-- where there are several, and whether a flag is there. A conversion that raises a `ValueError`, and a
-- text outside the choices, make argparse print the usage and exit with status 2.
use rbg_planner.Prelude.{
  String, List, [], ◌∷◌, Bool, false, true, ◌||◌, Option, none, some, if◌then◌else◌,
}
use text.Mathlib.Text.{◌==◌ as str_eq}
use rbg_planner.Python.{Result, ok, err, system_exit}
use rbg_planner.Python.Pure.{◌>>=◌}
use rbg_planner.Python.Text.{parse_int}
use rbg_planner.Python.Float.{Floating}
use rbg_planner.Config.{Args}

pub record CommandLine : Type 0 where
  pub text : String → Option String
  pub flag : String → Bool

-- `parser.error(...)`
abbrev pub usage_error : {A : Type 0} → Result A
usage_error = err (system_exit 2)

-- A conversion that gives nothing is refused.
abbrev pub or_refused : {A : Type 0} → Option A → Result (Option A)
or_refused none = usage_error
or_refused (some a) = ok (some a)

-- An option with a `type`
unfoldable pub typed : {A : Type 0} → (String → Option A) → Option String → Result (Option A)
typed convert none = ok none
typed convert (some text) = or_refused (convert text)

unfoldable pub contains : List String → String → Bool
contains [] text = false
contains (choice ∷ choices) text = str_eq choice text || contains choices text

-- An option with `choices`
unfoldable pub chosen : List String → Option String → Result (Option String)
unfolding contains
chosen choices none = ok none
chosen choices (some text) = if contains choices text then ok (some text) else usage_error

-- An option with `action="store_true", default=None`
abbrev pub stored_true : Bool → Option Bool
stored_true given = if given then some true else none

abbrev pub metric_sources : List String
metric_sources = "sglang" ∷ "vllm" ∷ "patio" ∷ []

abbrev pub load_predictors : List String
load_predictors = "constant" ∷ "arima" ∷ "prophet" ∷ []

abbrev pub log_levels : List String
log_levels = "DEBUG" ∷ "INFO" ∷ "WARNING" ∷ "ERROR" ∷ []

module _ {F : Type 0} ⦃d : Floating F⦄ where
  -- `parse_args`. Any option that is refused ends in the same exit, so their order does not show. The
  -- log level is checked here, and used by the logging only.
  unfoldable pub parse_args : CommandLine → Result (Args F)
  unfolding typed chosen parse_int
  parse_args line = do
    metric_source ← chosen metric_sources (line.text "--metric-source")
    adjustment_interval ← typed parse_int (line.text "--adjustment-interval")
    max_gpu_budget ← typed parse_int (line.text "--max-gpu-budget")
    min_replicas ← typed parse_int (line.text "--min-replicas")
    prefill_engine_num_gpu ← typed parse_int (line.text "--prefill-engine-num-gpu")
    decode_engine_num_gpu ← typed parse_int (line.text "--decode-engine-num-gpu")
    ttft_sla ← typed d.parse (line.text "--ttft-sla")
    itl_sla ← typed d.parse (line.text "--itl-sla")
    load_predictor ← chosen load_predictors (line.text "--load-predictor")
    window_size ← typed parse_int (line.text "--load-prediction-window-size")
    port ← typed parse_int (line.text "--planner-prometheus-port")
    _ ← chosen log_levels (line.text "--log-level")
    ok (record {
      rbg_name = line.text "--rbg-name";
      rbg_namespace = line.text "--rbg-namespace";
      prefill_role_name = line.text "--prefill-role-name";
      decode_role_name = line.text "--decode-role-name";
      prometheus_endpoint = line.text "--prometheus-endpoint";
      metric_source = metric_source;
      model_name = line.text "--model-name";
      adjustment_interval = adjustment_interval;
      max_gpu_budget = max_gpu_budget;
      min_replicas = min_replicas;
      prefill_engine_num_gpu = prefill_engine_num_gpu;
      decode_engine_num_gpu = decode_engine_num_gpu;
      ttft_sla = ttft_sla;
      itl_sla = itl_sla;
      load_predictor = load_predictor;
      load_prediction_window_size = window_size;
      no_correction = stored_true (line.flag "--no-correction");
      profile_results_dir = line.text "--profile-results-dir";
      planner_prometheus_port = port;
      no_operation = stored_true (line.flag "--no-operation");
    })
