-- ===== src/Tests/Dry.antt =====
-- A dry run in which the profile raises.
use rbg_planner.Prelude.{true, none, some, refl}
use rbg_planner.Python.{err, value_error}
use rbg_planner.Python.Returned.{Returned}
use rbg_planner.Planner.{Planner}
use rbg_planner.Planner.Adjust.{make_adjustments}
use rbg_planner.Planner.Dry.{IsDry, make_adjustments-Returned}
use rbg_planner.Tests.Fixed.{Fixed, num, fixed_Floating}
use rbg_planner.Tests.Profile.{small_config, small_prefill}
use rbg_planner.Tests.Cluster.{World, small_env, small_planner}

abbrev dry_planner : Planner Fixed World
dry_planner = record small_planner {
  config = record small_config { no_operation = true; no_correction = true };
  prom_metrics = none;
  prefill_interpolator = record small_prefill { thpt_interpolator = λ x. err value_error };
  last_metrics = record {
    ttft = some (num 100);
    itl = some (num 20);
    num_req = some (num 6);
    isl = some (num 10);
    osl = some (num 20);
    request_duration = some (num 1);
  };
}

make_adjustments-Returned_example :
    Returned (IsDry small_env) (make_adjustments small_env dry_planner)
make_adjustments-Returned_example = make_adjustments-Returned small_env dry_planner refl refl
