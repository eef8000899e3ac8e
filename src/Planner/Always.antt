-- ===== src/Planner/Always.antt =====
-- The same for a whole run of the planner: the start, and any number of rounds.
use rbg_planner.Prelude.{ℕ, ℤ, ◌≤ℤ◌, String, true, Option, ◌≡◌, ◌⊎◌}
use rbg_planner.Python.Float.{Floating}
use rbg_planner.Python.Invariant.{Preserves}
use rbg_planner.Config.{PlannerConfig}
use rbg_planner.Replicas.Limits.{IsConsistent}
use rbg_planner.Connector.{validate_deployment, wait_default}
use rbg_planner.Connector.Safety.{KeptBy, validate_deployment-Keeps, wait_for_ready-Keeps}
use rbg_planner.Metrics.{
  get_avg_ttft, get_avg_itl, get_request_count, get_avg_request_duration, get_avg_isl, get_avg_osl,
  Adapter, avg_tokens, metric_names, sglang, vllm, dynamo, patio,
}
use rbg_planner.Metrics.Interface.{prometheus_adapter}
use rbg_planner.Planner.{Planner, Externals}
use rbg_planner.Planner.Observe.{query_all, query_metrics, store_observation, observe_metrics}
use rbg_planner.Planner.Run.{start, run}
use rbg_planner.Planner.Rules.Observe.{observe_metrics-Preserves}
use rbg_planner.Planner.Rules.Run.{KeptByRounds, start-Preserves, run-Preserves}
use rbg_planner.Planner.Reads.{QuietBy, Inv, on_session-Inv, on_world-Inv, reads-Inv}
use rbg_planner.Planner.Writes.{make_adjustments-Inv}

module _ {F W : Type 0} ⦃d : Floating F⦄ (env : Externals F W) (P : W → Type 0)
    (quiet : QuietBy env P) where
  avg_tokens-quiet :
      (a b : Adapter) (tokens interval : String) (model : Option String) (w : W)
      → P w
      → P (avg_tokens {F = F} ⦃d = d⦄ env.prometheus a b tokens interval model w).1
  avg_tokens-quiet a sglang tokens interval model w p = quiet.custom_query _ w p
  avg_tokens-quiet a vllm tokens interval model w p = quiet.custom_query _ w p
  avg_tokens-quiet a dynamo tokens interval model w p = quiet.custom_query _ w p
  avg_tokens-quiet a patio tokens interval model w p = quiet.custom_query _ w p

  pub query_all-quiet :
      (client : Adapter) (interval : String) (model : Option String) (w : W)
      → P w
      → P (query_all env (prometheus_adapter env.prometheus client) interval model w).1
  unfolding query_all get_avg_ttft get_avg_itl get_request_count get_avg_request_duration
      get_avg_isl get_avg_osl
  query_all-quiet client interval model w p =
      avg_tokens-quiet client client (metric_names client).generation_tokens interval model _ (
        avg_tokens-quiet client client (metric_names client).prompt_tokens interval model _ (
          quiet.custom_query _ _
            (quiet.custom_query _ _ (quiet.custom_query _ _ (quiet.custom_query _ w p)))))

module _ {F W : Type 0} ⦃d : Floating F⦄ (env : Externals F W) (P : W → Type 0) (Q : ℤ → Type 0)
    (kept : KeptBy env.kubernetes P Q) (quiet : QuietBy env P) (config : PlannerConfig F)
    (consistent : IsConsistent config)
    (allowed : (config.no_operation ≡ true) ⊎ ((n : ℤ) → config.min_replicas ≤ℤ n → Q n)) where
  abbrev I : Planner F W → Type 0
  I = Inv env P Q kept quiet config

  query_metrics-Inv : Preserves I (query_metrics env)
  unfolding query_metrics
  query_metrics-Inv s h =
      on_world-Inv env P Q kept quiet config
        (query_all env (prometheus_adapter env.prometheus s.metrics_client) _ _)
        (query_all-quiet env P quiet s.metrics_client _ _) s h

  observe_metrics-Inv : Preserves I (observe_metrics env)
  unfolding store_observation
  observe_metrics-Inv = observe_metrics-Preserves env I (record {
    reads = reads-Inv env P Q kept quiet config;
    hours_kept = λ s x h. h;
    queried = query_metrics-Inv;
    stored = λ o s h. h;
  })

  rounds-kept : KeptByRounds env I
  rounds-kept = record {
    clocked = on_world-Inv env P Q kept quiet config env.time quiet.time;
    paused = λ delay.
        on_world-Inv env P Q kept quiet config (λ w. (tt, env.pause delay w))
          (λ w p. quiet.pause delay w p);
    marked = λ now s h. h;
    observed = observe_metrics-Inv;
    adjusted = make_adjustments-Inv env P Q kept quiet config consistent allowed;
  }

  start-Inv : Preserves I (start env)
  start-Inv =
      start-Preserves env I rounds-kept
        (on_session-Inv env P Q kept quiet config (validate_deployment env.kubernetes)
          (validate_deployment-Keeps env.kubernetes P Q kept))
        (on_session-Inv env P Q kept quiet config (wait_default env.kubernetes)
          (wait_for_ready-Keeps env.kubernetes P Q kept 180 10))

  -- Whatever holds of the world before the planner runs holds after its start and any number of
  -- rounds, also when they end in an exception: if reading, waiting and a write of at least
  -- `min_replicas` keep it, or if reading and waiting keep it and the planner runs dry. No minimum
  -- may stand above a maximum. The settings stay as they are.
  pub run-Inv :
      (n : ℕ) (s : Planner F W)
      → P s.session.world
      → s.config ≡ config
      → P (run env n s).1.session.world × ((run env n s).1.config ≡ config)
  run-Inv n s p e = run-Preserves env I rounds-kept start-Inv n s (p, e)
