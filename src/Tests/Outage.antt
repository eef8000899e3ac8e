-- ===== src/Tests/Outage.antt =====
-- A round of queries while the Prometheus server is down.
use rbg_planner.Prelude.{true, ◌≡◌, ◌*ℤ◌, refl}
use rbg_planner.Python.{ok, err, other_exception}
use rbg_planner.Planner.{Planner, Externals, is_valid}
use rbg_planner.Planner.Observe.{observe_metrics}
use rbg_planner.Planner.Outage.{IsDown, IsSilent, observe_metrics-IsSilent}
use rbg_planner.Tests.Fixed.{Fixed, num, fixed_Floating}
use rbg_planner.Tests.Cluster.{World, small_env, small_planner}

abbrev down_env : Externals Fixed World
down_env = record small_env {
  prometheus = record { custom_query = λ query w. (err other_exception, w) };
}

server-IsDown : IsDown down_env.prometheus
server-IsDown query w = (other_exception, refl)

zero_times_thousand : fixed_Floating.mul (num 0) (num 1000) ≡ num 0
unfolding ◌*ℤ◌
zero_times_thousand = refl

observed_down : (s : Planner Fixed World) × (observe_metrics down_env small_planner ≡ (ok tt, s))
unfolding observe_metrics
observed_down = (_, refl)

observe_metrics-IsSilent_example :
    IsSilent down_env observed_down.0.last_metrics × (is_valid observed_down.0.last_metrics ≡ true)
observe_metrics-IsSilent_example =
    observe_metrics-IsSilent down_env server-IsDown small_planner refl zero_times_thousand
      observed_down.1
