-- ===== src/Tests/Profile.antt =====
-- A small profile and small load: the settings, the interpolators and the numerical calls of the tests.
use rbg_planner.Prelude.{◌*◌, pos, false, if◌then◌else◌, inl, inr, refl, arith}
use rbg_planner.Python.{ok, err, other_exception}
use rbg_planner.Config.{PlannerConfig}
use rbg_planner.Predictor.{Forecasters}
use rbg_planner.Interpolation.{Numerics, PrefillInterpolator, DecodeInterpolator}
use rbg_planner.Interpolation.Range.{IsClip}
use rbg_planner.Replicas.Limits.{IsConsistent}
use rbg_planner.Profile.{json_tokens}
use rbg_planner.Tests.Fixed.{Fixed, fixed, not_a_number, fixed_Floating}

abbrev pub small_config : PlannerConfig Fixed
small_config = record {
  rbg_name = "demo";
  rbg_namespace = "default";
  prefill_role_name = "prefill";
  decode_role_name = "decode";
  prometheus_endpoint = "http://prometheus:9090";
  metric_source = "sglang";
  model_name = "";
  adjustment_interval = pos 10;
  max_gpu_budget = pos 8;
  min_replicas = pos 1;
  max_prefill_replicas = pos 100;
  max_decode_replicas = pos 5;
  prefill_engine_num_gpu = pos 1;
  decode_engine_num_gpu = pos 3;
  ttft_sla = fixed (pos 500000);
  itl_sla = fixed (pos 50000);
  load_predictor = "arima";
  load_prediction_window_size = pos 3;
  no_correction = false;
  profile_results_dir = "/profile";
  planner_prometheus_port = pos 0;
  no_operation = false;
}

pub small_config-IsConsistent : IsConsistent small_config
small_config-IsConsistent = record { prefill_le = omega arith; decode_le = omega arith }

-- A value held between two others, by the order of the type.
abbrev pub clip : Fixed → Fixed → Fixed → Fixed
clip not_a_number lo hi = not_a_number
clip (fixed x) lo hi =
    if fixed_Floating.lt (fixed x) lo
    then lo
    else if fixed_Floating.lt hi (fixed x)
    then hi
    else fixed x

abbrev pub small_numerics : Numerics Fixed
small_numerics = record {
  interp1d = λ xs ys. ok (λ x. ok x);
  linspace = λ start stop n i. fixed (pos (i * 1000));
  griddata_cubic = λ xs ys zs xi yi n. ok (λ iy ix. fixed (pos (ix * 1000)));
  griddata_nearest = λ xs ys zs xi yi n. ok (λ iy ix. fixed (pos 0));
  np_round = λ x. fixed_Floating.of_int (fixed_Floating.round_int x);
  np_sub = fixed_Floating.sub;
  np_div = fixed_Floating.quot;
  np_clip = clip;
}

pub small_numerics-IsClip : IsClip small_numerics
small_numerics-IsClip not_a_number a b h small = inl refl
small_numerics-IsClip (fixed x) a b h small = inr (ground arith, ground arith)

-- A prefill engine of 2 tokens per second and GPU.
abbrev pub small_prefill : PrefillInterpolator Fixed
small_prefill = record {
  min_isl = fixed (pos 10000);
  max_isl = fixed (pos 90000);
  ttft_interpolator = λ x. ok (fixed (pos 100000));
  thpt_interpolator = λ x. ok (fixed (pos 2000));
}

-- Four columns, whose ITL rises by 20 and whose throughput by 1 from one to the next.
abbrev pub small_decode : DecodeInterpolator Fixed
small_decode = record {
  resolution = 4;
  max_kv_tokens = json_tokens (pos 1000);
  xi = λ i. fixed (pos (i * 1000));
  yi = λ i. fixed (pos (i * 50000));
  itl_interpolator = λ iy ix. fixed (pos (ix * 20000));
  thpt_interpolator = λ iy ix. fixed (pos (ix * 1000));
}

-- A forecast of one, and a prophet that always raises.
abbrev pub small_forecasters : Forecasters Fixed
small_forecasters = record {
  auto_arima = λ history. ok (fixed (pos 1000));
  fit_prophet = λ rows step. err other_exception;
}
