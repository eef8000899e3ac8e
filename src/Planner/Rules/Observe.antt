-- ===== src/Planner/Rules/Observe.antt =====
-- Invariants of the planner through `observe_metrics`.
use rbg_planner.Prelude.{ℤ}
use rbg_planner.Python.{modify, ◌>>=◌, ◌>>◌}
use rbg_planner.Python.Float.{Floating}
use rbg_planner.Python.Invariant.{Preserves, bind-Preserves}
use rbg_planner.Planner.{Planner, Externals, Gauge, set_gauge, gpu_hours, get_num_workers}
use rbg_planner.Planner.Observe.{
  Observation, query_metrics, store_observation, export_workers, export_rate, export_gpu_hours,
  interval_gpu_hours, export_observation, when_exporting, observe_load, observe_metrics,
}
use rbg_planner.Planner.Rules.{commit-Preserves, when_exporting-Preserves, KeptByReads}

module _ {F W : Type 0} ⦃d : Floating F⦄ (env : Externals F W) (I : Planner F W → Type 0) where
  -- An invariant that the export of an observation keeps.
  pub record KeptByExport : Type 0 where
    pub gauge_kept : (s : Planner F W) (gauge : Gauge) (x : F) → I s → I (set_gauge gauge x s)
    pub hours_kept : (s : Planner F W) (x : F) → I s → I (record s { cumulative_gpu_hours = x })

  -- An invariant that the queries keep too, and the writes of what they answer.
  pub record KeptByObservation : Type 0 where
    pub reads : KeptByReads env I
    pub hours_kept : (s : Planner F W) (x : F) → I s → I (record s { cumulative_gpu_hours = x })
    pub queried : Preserves I (query_metrics env)
    pub stored : (o : Observation env) (s : Planner F W) → I s → I (store_observation env o s)

  module _ (kept : KeptByExport) where
    open kept use {gauge_kept}

    export_rate-Preserves : (o : Observation env) → Preserves I (export_rate env o)
    unfolding export_rate
    export_rate-Preserves o s h =
        commit-Preserves I _ _ s h
          (λ rate. gauge_kept _ _ _ (gauge_kept _ _ _ (gauge_kept _ _ _ (gauge_kept s _ rate h))))

    export_gpu_hours-Preserves : (p n : ℤ) → Preserves I (export_gpu_hours env p n)
    unfolding export_gpu_hours
    export_gpu_hours-Preserves p n s h =
        commit-Preserves I (interval_gpu_hours env s.config p n)
          (λ hours.
            let total = d.add s.cumulative_gpu_hours hours in
            set_gauge gpu_hours total (record s { cumulative_gpu_hours = total }))
          s h (λ hours. gauge_kept _ _ _ (kept.hours_kept s _ h))

    export_workers-kept :
        (p n : ℤ) (o : Observation env) (s : Planner F W) → I s → I (export_workers env p n o s)
    unfolding export_workers
    export_workers-kept p n o s h =
        gauge_kept _ _ _ (gauge_kept _ _ _ (gauge_kept _ _ _ (gauge_kept s _ _ h)))

    pub export_observation-Preserves :
        (p n : ℤ) (o : Observation env) → Preserves I (export_observation env p n o)
    unfolding export_observation
    export_observation-Preserves p n o =
        bind-Preserves I (modify (export_workers env p n o) >> export_rate env o)
          (λ _. export_gpu_hours env p n)
          (bind-Preserves I (modify (export_workers env p n o)) (λ _. export_rate env o)
            (export_workers-kept p n o) (λ _. export_rate-Preserves o))
          (λ _. export_gpu_hours-Preserves p n)

  module _ (kept : KeptByObservation) where
    exports : KeptByExport
    exports = record { gauge_kept = kept.reads.gauge_kept; hours_kept = kept.hours_kept }

    observe_load-Preserves : (p n : ℤ) → Preserves I (observe_load env p n)
    unfolding observe_load
    observe_load-Preserves p n =
        bind-Preserves I (query_metrics env)
          (λ o.
            modify (store_observation env o) >> when_exporting env (export_observation env p n o))
          kept.queried
          (λ o.
            bind-Preserves I (modify (store_observation env o))
              (λ _. when_exporting env (export_observation env p n o)) (kept.stored o)
              (λ _.
                when_exporting-Preserves env I (export_observation env p n o)
                  (export_observation-Preserves exports p n o)))

    pub observe_metrics-Preserves : Preserves I (observe_metrics env)
    unfolding observe_metrics
    observe_metrics-Preserves s h =
        bind-Preserves I (get_num_workers env s.config.prefill_role_name)
          (λ p. get_num_workers env s.config.decode_role_name >>= observe_load env p)
          (kept.reads.workers s.config.prefill_role_name)
          (λ p.
            bind-Preserves I (get_num_workers env s.config.decode_role_name) (observe_load env p)
              (kept.reads.workers s.config.decode_role_name) (observe_load-Preserves p))
          s h
