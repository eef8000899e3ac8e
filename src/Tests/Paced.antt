-- ===== src/Tests/Paced.antt =====
-- Three rounds of a loop, of which the first waits.
use rbg_planner.Prelude.{List}
use rbg_planner.Planner.Run.{rounds}
use rbg_planner.Planner.Paced.{Paced, Spaced, rounds-Spaced}
use rbg_planner.Tests.Fixed.{Fixed, fixed_Floating}
use rbg_planner.Tests.Cluster.{small_env, small_planner}

rounds-Spaced_example :
    (times : List (Fixed × Fixed)) × Paced small_env small_planner times
      (rounds small_env 3 small_planner).1
    × Spaced small_env small_planner.config.adjustment_interval small_planner.last_adjustment_time
        times
rounds-Spaced_example = rounds-Spaced small_env 3 small_planner
