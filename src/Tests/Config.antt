-- ===== src/Tests/Config.antt =====
-- The settings of a small deployment, and numbers as texts.
use rbg_planner.Prelude.{pos, String, false, none, some, if◌then◌else◌, ◌≡◌, refl}
use text.Mathlib.Text.{◌==◌ as str_eq}
use rbg_planner.Python.{ok, err, system_exit}
use rbg_planner.Config.Options.{CommandLine, parse_args}
use rbg_planner.Metrics.{Adapter, create_metrics_adapter}
use rbg_planner.Config.Spelled.{Reads, parse_args-Reads, parse_args_refused}
use rbg_planner.Python.Text.{int_text, parse_int}
use rbg_planner.Config.{Args, Environment, PlannerConfig, main_config}
use rbg_planner.Tests.Fixed.{Fixed, fixed_Floating}

-- A name, and the limits.
abbrev pub small_environment : Environment
small_environment name =
    if str_eq name "RBG_NAME"
    then some "demo"
    else if str_eq name "MAX_GPU_BUDGET"
    then some (int_text (pos 16))
    else if str_eq name "MIN_REPLICAS"
    then some (int_text (pos 1))
    else if str_eq name "MAX_PREFILL_REPLICAS"
    then some (int_text (pos 7))
    else if str_eq name "MAX_DECODE_REPLICAS"
    then some (int_text (pos 9))
    else if str_eq name "TTFT_SLA"
    then some "1"
    else if str_eq name "ITL_SLA"
    then some "3"
    else none

abbrev pub no_args : Args Fixed
no_args = record {
  rbg_name = none;
  rbg_namespace = none;
  prefill_role_name = none;
  decode_role_name = none;
  prometheus_endpoint = none;
  metric_source = none;
  model_name = none;
  adjustment_interval = none;
  max_gpu_budget = some (pos 12);
  min_replicas = none;
  prefill_engine_num_gpu = none;
  decode_engine_num_gpu = none;
  ttft_sla = none;
  itl_sla = none;
  load_predictor = none;
  load_prediction_window_size = none;
  no_correction = none;
  profile_results_dir = none;
  planner_prometheus_port = none;
  no_operation = none;
}

accepted : (c : PlannerConfig Fixed) × (main_config small_environment no_args ≡ ok c)
unfolding main_config int_text parse_int
accepted = (_, refl)

-- A command line with two options.
abbrev line_of : String → String → CommandLine
line_of source budget = record {
  text = λ option.
      if str_eq option "--metric-source"
      then some source
      else if str_eq option "--max-gpu-budget"
      then some budget
      else none;
  flag = λ option. false;
}

parse_args-Reads_example : Reads Fixed (line_of "vllm" "12") (parse_args (line_of "vllm" "12"))
parse_args-Reads_example = parse_args-Reads Fixed (line_of "vllm" "12")

budget_read :
    (args : Args Fixed) × (parse_args (line_of "vllm" "12") ≡ ok args)
    × (args.max_gpu_budget ≡ some (pos 12))
unfolding parse_args
budget_read = (_, refl, refl)

parse_args_refused_example :
    (parse_args {F = Fixed} (line_of "dynamo" "12") ≡ err (system_exit 2))
    × (create_metrics_adapter "dynamo" ≡ ok Adapter.dynamo)
parse_args_refused_example = parse_args_refused Fixed (line_of "dynamo" "12") refl
