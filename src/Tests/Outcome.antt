-- ===== src/Tests/Outcome.antt =====
-- A planner whose cluster is the one object that it patches, and one adjustment of it.
use rbg_planner.Prelude.{pos, [], ◌∷◌, none, some, refl, arith}
use rbg_planner.Python.{ok}
use rbg_planner.Cluster.{Rbg, find_role, roles_of}
use rbg_planner.Predictor.{Predictor}
use rbg_planner.Connector.Alone.{in_world}
use rbg_planner.Planner.{Planner, Externals, is_valid}
use rbg_planner.Planner.Correct.{predict_load}
use rbg_planner.Planner.Adjust.{requirements, try_corrections, make_adjustments}
use rbg_planner.Planner.Steady.{IsAt}
use rbg_planner.Planner.Scales.{IsLive, HasRoles, Scales}
use rbg_planner.Planner.Found.{IsLasting, Found}
use rbg_planner.Planner.Outcome.{Adjusted, make_adjustments-Scales, make_adjustments-Adjusted}
use rbg_planner.Tests.Fixed.{Fixed, num, fixed_Floating}
use rbg_planner.Tests.Profile.{
  small_config, small_config-IsConsistent, small_numerics, small_prefill, small_decode,
  small_forecasters,
}
use rbg_planner.Tests.Cluster.{rbg_of}
use rbg_planner.Tests.Reached.{patching, same_object, demo, patching-IsAlone, ready, names_differ}
use rbg_planner.Metrics.{sglang}

abbrev patching_env : Externals Fixed Rbg
patching_env = record {
  kubernetes = patching;
  prometheus = record {
    custom_query = λ query w. (ok (record { value = some ("0" ∷ "3" ∷ []) } ∷ []), w);
  };
  forecasters = small_forecasters;
  numerics = small_numerics;
  time = λ w. (num 5, w);
  pause = λ t w. w;
}

abbrev steady : Predictor Fixed
steady =
    Predictor.arima
      (record { minimum_data_points = 5; window_size = pos 3; data_buffer = num 10 ∷ [] })

abbrev observed : Planner Fixed Rbg
observed = record {
  config = small_config;
  session = in_world patching same_object demo none (rbg_of "True");
  metrics_client = sglang;
  num_req_predictor = steady;
  isl_predictor = steady;
  osl_predictor = steady;
  prefill_interpolator = small_prefill;
  decode_interpolator = small_decode;
  last_metrics = record {
    ttft = some (num 100);
    itl = some (num 20);
    num_req = some (num 6);
    isl = some (num 10);
    osl = some (num 20);
    request_duration = some (num 1);
  };
  last_adjustment_time = num 0;
  p_correction_factor = num 1;
  d_correction_factor = num 1;
  cumulative_gpu_hours = num 0;
  prom_metrics = some [];
}

observed-IsAt :
    IsAt patching_env same_object demo patching-IsAlone small_config (rbg_of "True") observed
observed-IsAt = ((none, refl), refl)

scaling-IsLive : IsLive patching_env same_object demo patching-IsAlone small_config
scaling-IsLive = record {
  live = refl;
  differ = names_differ;
  least = omega arith;
  consistent = small_config-IsConsistent;
}

roles_there : HasRoles patching_env same_object demo patching-IsAlone small_config (rbg_of "True")
unfolding find_role roles_of
roles_there = (
  ((_, refl, (_, refl)), (omega arith, omega arith)),
  (((_, refl, (_, refl)), (omega arith, omega arith)), tt),
)

-- The observation is as it was expected, and four prefill replicas are required.
observed-Found : Found patching_env observed (pos 4, pos 1)
unfolding is_valid try_corrections predict_load requirements
observed-Found = record {
  valid = refl;
  after = _;
  corrected = refl;
  load = _;
  predicted = refl;
  required = refl;
}

lasting : IsLasting patching_env small_config
lasting = refl

make_adjustments-Scales_example :
    Scales patching_env same_object demo patching-IsAlone small_config
      (rbg_of "True")
      (pos 4, pos 1)
      (make_adjustments patching_env observed)
make_adjustments-Scales_example =
    make_adjustments-Scales patching_env same_object demo patching-IsAlone small_config
      scaling-IsLive (rbg_of "True") (pos 4, pos 1) observed roles_there ready
      (omega arith, omega arith) observed-IsAt observed-Found

make_adjustments-Adjusted_example :
    Adjusted patching_env same_object demo patching-IsAlone small_config scaling-IsLive
      (rbg_of "True")
      observed
      (make_adjustments patching_env observed)
make_adjustments-Adjusted_example =
    make_adjustments-Adjusted patching_env same_object demo patching-IsAlone small_config
      scaling-IsLive (rbg_of "True") observed roles_there lasting observed-IsAt
