-- ===== src/Metrics/Interface.antt =====
-- What the planner asks of its metrics (python/planner/rbg_planner/metrics/base.py), and the adapters
-- as what answers it.
use rbg_planner.Prelude.{String, Option}
use rbg_planner.Python.Float.{Floating}
use rbg_planner.Metrics.{
  Prometheus, Adapter, get_avg_ttft, get_avg_itl, get_request_count, get_avg_request_duration,
  get_avg_isl, get_avg_osl,
}

-- `class MetricsAdapter`: a query by an interval text and an optional model, at a world.
pub record MetricsAdapter (F W : Type 0) : Type 0 where
  pub get_avg_ttft : String → Option String → W → F × W
  pub get_avg_itl : String → Option String → W → F × W
  pub get_request_count : String → Option String → W → F × W
  pub get_avg_request_duration : String → Option String → W → F × W
  pub get_avg_isl : String → Option String → W → F × W
  pub get_avg_osl : String → Option String → W → F × W

-- An object of `PrometheusAdapter` or of one of its subclasses.
abbrev pub prometheus_adapter :
    {F W : Type 0} ⦃d : Floating F⦄ → Prometheus W → Adapter → MetricsAdapter F W
prometheus_adapter prom adapter = record {
  get_avg_ttft = get_avg_ttft prom adapter;
  get_avg_itl = get_avg_itl prom adapter;
  get_request_count = get_request_count prom adapter;
  get_avg_request_duration = get_avg_request_duration prom adapter;
  get_avg_isl = get_avg_isl prom adapter;
  get_avg_osl = get_avg_osl prom adapter;
}
