-- ===== src/Planner/Observe.antt =====
-- `Planner.observe_metrics`: six queries into `last_metrics`, three of them on into the predictors,
-- and the gauges.
use rbg_planner.Prelude.{ℤ, pos, ◌+ℤ◌, ◌*ℤ◌, String, List, Option, none, some, if◌then◌else◌}
use Prim.Native.String.{◌++◌ as append}
use text.Mathlib.Text.{◌==◌ as str_eq}
use rbg_planner.Python.{Result, Method, pure, modify, ◌>>=◌, ◌>>◌}
use rbg_planner.Python.Text.{int_text}
use rbg_planner.Python.Float.{Floating, div, div_int}
use rbg_planner.Config.{PlannerConfig}
use rbg_planner.Predictor.{add_data_point}
use rbg_planner.Metrics.Interface.{MetricsAdapter, prometheus_adapter}
use rbg_planner.Metrics.{
  get_avg_ttft, get_avg_itl, get_request_count, get_avg_request_duration, get_avg_isl, get_avg_osl,
}
use rbg_planner.Planner.{
  Planner, Externals, commit, Gauge, num_p_workers, num_d_workers, observed_ttft, observed_itl,
  observed_request_rate, observed_isl, observed_osl, observed_request_duration, gpu_hours,
  set_gauge, on_world, get_num_workers,
}

module _ {F W : Type 0} ⦃d : Floating F⦄ (env : Externals F W) where
  open d use {of_int, add, mul, eq}

  -- What one round of queries answers, as it is stored.
  pub record Observation : Type 0 where
    pub ttft : F
    pub itl : F
    pub num_req : F
    pub request_duration : F
    pub isl : F
    pub osl : F

  -- The queries, in the order of the code, by an interval text and an optional model.
  unfoldable pub query_all : MetricsAdapter F W → String → Option String → W → Observation × W
  query_all client interval model w =
      let (ttft, w₁) = client.get_avg_ttft interval model w in
      let (itl, w₂) = client.get_avg_itl interval model w₁ in
      let (num_req, w₃) = client.get_request_count interval model w₂ in
      let (duration, w₄) = client.get_avg_request_duration interval model w₃ in
      let (isl, w₅) = client.get_avg_isl interval model w₄ in
      let (osl, w₆) = client.get_avg_osl interval model w₅ in
      (
        record {
          ttft = mul ttft (of_int (pos 1000));
          itl = mul itl (of_int (pos 1000));
          num_req = num_req;
          request_duration = duration;
          isl = isl;
          osl = osl;
        },
        w₆,
      )

  unfoldable pub query_metrics : Method (Planner F W) Observation
  unfolding on_world query_all int_text get_avg_ttft get_avg_itl get_request_count
      get_avg_request_duration get_avg_isl get_avg_osl
  query_metrics s =
      let interval = append (int_text s.config.adjustment_interval) "s" in
      let name = s.config.model_name in
      let model = if str_eq name "" then none else some name in
      on_world (query_all (prometheus_adapter env.prometheus s.metrics_client) interval model) s

  -- What the queries leave in `last_metrics` and in the predictors.
  unfoldable pub store_observation : Observation → Planner F W → Planner F W
  unfolding add_data_point
  store_observation o s = record s {
    last_metrics = record {
      ttft = some o.ttft;
      itl = some o.itl;
      num_req = some o.num_req;
      isl = some o.isl;
      osl = some o.osl;
      request_duration = some o.request_duration;
    };
    num_req_predictor = add_data_point s.num_req_predictor o.num_req;
    isl_predictor = add_data_point s.isl_predictor o.isl;
    osl_predictor = add_data_point s.osl_predictor o.osl;
  }

  -- The GPU hours of one interval.
  unfoldable pub interval_gpu_hours : PlannerConfig F → ℤ → ℤ → Result F
  unfolding ◌+ℤ◌ ◌*ℤ◌
  interval_gpu_hours config num_p num_d =
      div_int
        ((num_p *ℤ config.prefill_engine_num_gpu +ℤ num_d *ℤ config.decode_engine_num_gpu)
          *ℤ config.adjustment_interval)
        (pos 3600)

  unfoldable pub export_workers : ℤ → ℤ → Observation → Planner F W → Planner F W
  unfolding set_gauge
  export_workers num_p num_d o s = set_gauge observed_itl o.itl (
      set_gauge observed_ttft o.ttft
        (set_gauge num_d_workers (of_int num_d) (set_gauge num_p_workers (of_int num_p) s)))

  unfoldable pub export_rate : Observation → Method (Planner F W) (Unit {0})
  unfolding set_gauge commit
  export_rate o s =
      commit (div o.num_req (of_int s.config.adjustment_interval))
        (λ rate.
          let zero_float = of_int (pos 0) in
          let duration = o.request_duration in
          let shown = if eq duration zero_float then zero_float else duration in
          set_gauge observed_request_duration shown (
            set_gauge observed_osl o.osl
              (set_gauge observed_isl o.isl (set_gauge observed_request_rate rate s))))
        s

  unfoldable pub export_gpu_hours : ℤ → ℤ → Method (Planner F W) (Unit {0})
  unfolding set_gauge commit interval_gpu_hours
  export_gpu_hours num_p num_d s =
      commit (interval_gpu_hours s.config num_p num_d)
        (λ hours.
          let total = add s.cumulative_gpu_hours hours in
          set_gauge gpu_hours total (record s { cumulative_gpu_hours = total }))
        s

  -- The export of the observation. A division may raise in the middle of it.
  unfoldable pub export_observation : ℤ → ℤ → Observation → Method (Planner F W) (Unit {0})
  unfolding export_workers export_rate export_gpu_hours
  export_observation num_p num_d o =
      modify (export_workers num_p num_d o) >> export_rate o >> export_gpu_hours num_p num_d

  pub if_exporting :
      Option (List (Gauge × F)) → Method (Planner F W) (Unit {0}) → Method (Planner F W) (Unit {0})
  if_exporting none m = pure tt
  if_exporting (some log) m = m

  -- `if self.prom_metrics: ...`
  unfoldable pub when_exporting : Method (Planner F W) (Unit {0}) → Method (Planner F W) (Unit {0})
  unfolding if_exporting
  when_exporting m s = if_exporting s.prom_metrics m s

  -- The rest of the round, once the workers are counted.
  unfoldable pub observe_load : ℤ → ℤ → Method (Planner F W) (Unit {0})
  unfolding query_metrics store_observation when_exporting export_observation
  observe_load num_p num_d = do
    o ← query_metrics
    modify (store_observation o)
    when_exporting (export_observation num_p num_d o)

  unfoldable pub observe_metrics : Method (Planner F W) (Unit {0})
  unfolding get_num_workers observe_load
  observe_metrics s =
      (do
        num_p ← get_num_workers env s.config.prefill_role_name
        num_d ← get_num_workers env s.config.decode_role_name
        observe_load num_p num_d)
        s
