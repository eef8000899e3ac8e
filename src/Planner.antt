-- ===== src/Planner.antt =====
-- The planner object (python/planner/rbg_planner/planner.py): its state, what it calls, and its
-- gauges. The methods are in the children.

pub mod Observe
pub mod Correct
pub mod Update
pub mod Adjust
pub mod Run
pub mod Main
pub mod Rules
pub mod Steady
pub mod Scales
pub mod Found
pub mod Outcome
pub mod Reads
pub mod Writes
pub mod Always
pub mod Create
pub mod Dry
pub mod Outage
pub mod Marked
pub mod Paced
use rbg_planner.Prelude.{
  ℕ, zero, suc, ◌/◌, ◌%◌, ℤ, pos, negsuc, String, List, [], ◌∷◌, ◌++◌, Bool, true, false, not, ◌&&◌,
  Option, none, some, if◌then◌else◌, ltb, get_elem?,
}
use Prim.Native.String.{◌++◌ as append}
use mathlib.Core.Option
use mathlib.Core.Option.{get_or}
use rbg_planner.Python.{Error, Result, ok, err, type_error, Method, pure, lift, ◌>>=◌, ◌>>◌}
use rbg_planner.Python.Float.{Floating}
use rbg_planner.Config.{PlannerConfig}
use rbg_planner.Predictor.{Predictor, Forecasters}
use rbg_planner.Interpolation.{Numerics, PrefillInterpolator, DecodeInterpolator}
use rbg_planner.Cluster.{Kubernetes}
use rbg_planner.Connector.{Session, get_role_ready_replicas}
use rbg_planner.Connector.Interface.{rbg_connector}
use rbg_planner.Metrics.{Adapter, Prometheus}

-- `class Metrics`
pub record Metrics (F : Type 0) : Type 0 where
  pub ttft : Option F
  pub itl : Option F
  pub num_req : Option F
  pub isl : Option F
  pub osl : Option F
  pub request_duration : Option F

-- The gauges of `class PlannerPrometheusMetrics`.
pub data Gauge : Type 0 where
  num_p_workers num_d_workers observed_ttft observed_itl observed_request_rate observed_isl
        observed_osl observed_request_duration p_correction_factor d_correction_factor
        predicted_request_rate predicted_isl predicted_osl predicted_num_p predicted_num_d
        gpu_hours :
      Gauge

-- What the planner calls outside the repository: the cluster, the Prometheus server, the forecasting
-- and numerical libraries, the clock, and `asyncio.sleep` of a float.
pub record Externals (F W : Type 0) : Type 0 where
  pub kubernetes : Kubernetes W
  pub prometheus : Prometheus W
  pub forecasters : Forecasters F
  pub numerics : Numerics F
  pub time : W → F × W
  pub pause : F → W → W

-- `class Planner`. A planner that runs dry has no connector: then nothing reads the one in
-- `session`, whose world is that of every call. `prom_metrics` lists the settings of the gauges, the
-- latest first, or is `none` where the planner exports nothing.
pub record Planner (F W : Type 0) : Type 0 where
  pub config : PlannerConfig F
  pub session : Session W
  pub metrics_client : Adapter
  pub num_req_predictor : Predictor F
  pub isl_predictor : Predictor F
  pub osl_predictor : Predictor F
  pub prefill_interpolator : PrefillInterpolator F
  pub decode_interpolator : DecodeInterpolator F
  pub last_metrics : Metrics F
  pub last_adjustment_time : F
  pub p_correction_factor : F
  pub d_correction_factor : F
  pub cumulative_gpu_hours : F
  pub prom_metrics : Option (List (Gauge × F))

-- `m.set(gauge, value)`, under `if self.prom_metrics`
unfoldable pub set_gauge : {F W : Type 0} → Gauge → F → Planner F W → Planner F W
set_gauge gauge value s = record s {
  prom_metrics = Option.map (λ log. (gauge, value) ∷ log) s.prom_metrics;
}

-- A computation whose result is stored in the state, unless it raises.
unfoldable pub commit : {A S : Type 0} → Result A → (A → S) → S → Result (Unit {0}) × S
commit (ok a) store s = (ok tt, store a)
commit (err e) store s = (err e, s)

-- The use of an attribute that may be `None`, where Python wants a number.
abbrev pub number : {F : Type 0} → Option F → Result F
number none = err type_error
number (some x) = ok x

module _ {F W : Type 0} where
  -- A call of a connector's method, and a call that only the world answers.
  unfoldable pub on_session : {A : Type 0} → Method (Session W) A → Method (Planner F W) A
  on_session m s = let (r, session) = m s.session in (r, record s { session = session })

  unfoldable pub on_world : {A : Type 0} → (W → A × W) → Method (Planner F W) A
  on_world call s =
      let (a, w) = call s.session.world in
      (ok a, record s { session = record s.session { world = w } })

  pub caught : {A : Type 0} → Result A × Planner F W → Result (Option A) × Planner F W
  caught (ok a, s) = (ok (some a), s)
  caught (err e, s) = (ok none, s)

  -- `try: ... except Exception: return`, with `none` for the early return
  unfoldable pub attempt : {A : Type 0} → Method (Planner F W) A → Method (Planner F W) (Option A)
  unfolding caught
  attempt m s = caught (m s)

  module _ (env : Externals F W) where
    -- `_get_num_workers`
    unfoldable pub get_num_workers : String → Method (Planner F W) ℤ
    unfolding on_session get_role_ready_replicas
    get_num_workers role_name s =
        (if s.config.no_operation
            then pure (pos 1)
            else on_session ((rbg_connector env.kubernetes).get_role_ready_replicas role_name))
          s

module _ {F : Type 0} ⦃d : Floating F⦄ where
  is_number : Option F → Bool
  is_number none = false
  is_number (some x) = not (d.is_nan x)

  -- `Metrics.is_valid`
  unfoldable pub is_valid : Metrics F → Bool
  unfolding is_number
  is_valid m = is_number m.ttft && is_number m.itl && is_number m.isl && is_number m.osl
