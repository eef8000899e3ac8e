-- ===== src/Planner/Rules/Local.antt =====
-- Invariants that say nothing of the cluster, the clock or the gauges: what every call keeps.
use rbg_planner.Prelude.{ℤ, pos, false}
use rbg_planner.Python.{Method, pure}
use rbg_planner.Python.Float.{Floating}
use rbg_planner.Python.Invariant.{Preserves, if-Preserves}
use rbg_planner.Connector.{Session, get_role_ready_replicas, set_replicas}
use rbg_planner.Metrics.Interface.{prometheus_adapter}
use rbg_planner.Planner.{
  Planner, Externals, Gauge, set_gauge, on_session, on_world, get_num_workers,
}
use rbg_planner.Planner.Observe.{
  Observation, query_all, query_metrics, store_observation, observe_metrics,
}
use rbg_planner.Planner.Adjust.{targets_of, try_corrections, apply_scaling, make_adjustments}
use rbg_planner.Planner.Rules.{KeptByReads}
use rbg_planner.Planner.Rules.Observe.{observe_metrics-Preserves}
use rbg_planner.Planner.Rules.Adjust.{make_adjustments-Preserves}

module _ {F W : Type 0} ⦃d : Floating F⦄ (env : Externals F W) (I : Planner F W → Type 0) where
  pub record IsLocal : Type 0 where
    pub session_kept : (s : Planner F W) (k : Session W) → I s → I (record s { session = k })
    pub gauge_kept : (s : Planner F W) (gauge : Gauge) (x : F) → I s → I (set_gauge gauge x s)
    pub stored : (o : Observation env) (s : Planner F W) → I s → I (store_observation env o s)
    pub hours_kept : (s : Planner F W) (x : F) → I s → I (record s { cumulative_gpu_hours = x })

  module _ (local : IsLocal) where
    pub on_session-Preserves : {A : Type 0} (m : Method (Session W) A) → Preserves I (on_session m)
    unfolding on_session
    on_session-Preserves m s h = local.session_kept s _ h

    pub on_world-Preserves : {A : Type 0} (call : W → A × W) → Preserves I (on_world call)
    unfolding on_world
    on_world-Preserves call s h = local.session_kept s _ h

    pub reads-Preserves : KeptByReads env I
    unfolding get_num_workers
    reads-Preserves = record {
      workers = λ name s h.
          if-Preserves I s.config.no_operation (pure (pos 1))
            (on_session (get_role_ready_replicas env.kubernetes name)) (λ s h. h)
            (on_session-Preserves (get_role_ready_replicas env.kubernetes name)) s h;
      gauge_kept = local.gauge_kept;
    }

    pub observe_metrics-local : Preserves I (observe_metrics env)
    unfolding query_metrics
    observe_metrics-local = observe_metrics-Preserves env I (record {
      reads = reads-Preserves;
      hours_kept = local.hours_kept;
      queried = λ s h.
          on_world-Preserves
            (query_all env (prometheus_adapter env.prometheus s.metrics_client) _ _) s h;
      stored = local.stored;
    })

    apply_scaling-Preserves : (r : ℤ × ℤ) → Preserves I (apply_scaling env r)
    unfolding apply_scaling
    apply_scaling-Preserves r s h =
        if-Preserves I s.config.no_operation (pure tt)
          (on_session (set_replicas env.kubernetes (targets_of s.config r) false)) (λ s h. h)
          (on_session-Preserves (set_replicas env.kubernetes (targets_of s.config r) false)) s h

    pub make_adjustments-local :
        Preserves I (try_corrections env) → Preserves I (make_adjustments env)
    make_adjustments-local corrected = make_adjustments-Preserves env I (record {
      reads = reads-Preserves;
      corrected = corrected;
      scaled = λ load s {r} h computed. apply_scaling-Preserves r;
    })
