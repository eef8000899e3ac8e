-- ===== src/Planner/Main/DryRun.antt =====
-- A dry run (`--no-operation`) from the command line on: what it leaves alone.
use rbg_planner.Prelude.{
  ℕ, ℤ, pos, String, Bool, true, false, Option, some, if◌then◌else◌, ◌≡◌, sym, ap, ◌∙◌,
}
use mathlib.Core.Path.{subst}
use rbg_planner.Python.{Result, ok, Method, pure, ◌>>◌}
use rbg_planner.Python.Float.{Floating}
use rbg_planner.Python.Invariant.{Preserves, if-Preserves}
use rbg_planner.Config.{PlannerConfig, Environment}
use rbg_planner.Config.Environment.{main_config_flags}
use rbg_planner.Config.Options.{CommandLine, stored_true}
use rbg_planner.Config.Spelled.{parse_args-Spells}
use rbg_planner.Profile.{ProfileFiles}
use rbg_planner.Kubeconfig.{Kubeconfig}
use rbg_planner.Connector.{get_role_ready_replicas, set_replicas, validate_deployment, wait_default}
use rbg_planner.Metrics.Interface.{prometheus_adapter}
use rbg_planner.Planner.{
  Planner, Externals, set_gauge, on_session, on_world, attempt, get_num_workers,
}
use rbg_planner.Planner.Observe.{query_all, query_metrics, store_observation, observe_metrics}
use rbg_planner.Planner.Update.{update_correction_factors}
use rbg_planner.Planner.Adjust.{targets_of, try_corrections, apply_scaling}
use rbg_planner.Planner.Run.{mark_time, start}
use rbg_planner.Planner.Reads.{QuietBy}
use rbg_planner.Planner.Always.{query_all-quiet}
use rbg_planner.Planner.Rules.{attempt-Preserves, KeptByReads, update_correction_factors-Preserves}
use rbg_planner.Planner.Rules.Observe.{observe_metrics-Preserves}
use rbg_planner.Planner.Rules.Adjust.{make_adjustments-Preserves}
use rbg_planner.Planner.Rules.Run.{KeptByRounds, mark_time-Preserves, run-Preserves}
use rbg_planner.Planner.Create.{create_planner-session}
use rbg_planner.Planner.Main.{configure, main-created, launch, launch-parsed}

module _ {F W : Type 0} ⦃d : Floating F⦄ (env : Externals F W) (P : W → Type 0)
    (quiet : QuietBy env P) where
  -- The predicate of the world, in a dry run.
  abbrev Idle : Planner F W → Type 0
  Idle s = P s.session.world × (s.config.no_operation ≡ true)

  -- What a dry run does where another would call the connector.
  instead :
      {A : Type 0} (m n : Method (Planner F W) A) (s : Planner F W)
      → Idle s
      → (Idle s → Idle (m s).1)
      → Idle ((if s.config.no_operation then m else n) s).1
  instead m n s h km = subst (λ (b : Bool). Idle ((if b then m else n) s).1) (sym h.1) (km h)

  reads-Idle : KeptByReads env Idle
  unfolding get_num_workers set_gauge
  reads-Idle = record {
    workers = λ name s h.
        instead (pure (pos 1)) (on_session (get_role_ready_replicas env.kubernetes name)) s h
          (λ k. k);
    gauge_kept = λ s gauge x h. h;
  }

  on_world-Idle :
      {A : Type 0} (call : W → A × W)
      → ((w : W) → P w → P (call w).1)
      → Preserves Idle (on_world call)
  unfolding on_world
  on_world-Idle call k s (p, dry) = (k s.session.world p, dry)

  query_metrics-Idle : Preserves Idle (query_metrics env)
  unfolding query_metrics
  query_metrics-Idle s h =
      on_world-Idle (query_all env (prometheus_adapter env.prometheus s.metrics_client) _ _)
        (query_all-quiet env P quiet s.metrics_client _ _) s h

  observe_metrics-Idle : Preserves Idle (observe_metrics env)
  unfolding store_observation
  observe_metrics-Idle = observe_metrics-Preserves env Idle (record {
    reads = reads-Idle;
    hours_kept = λ s x h. h;
    queried = query_metrics-Idle;
    stored = λ o s h. h;
  })

  try_corrections-Idle : Preserves Idle (try_corrections env)
  unfolding try_corrections
  try_corrections-Idle s h =
      if-Preserves Idle s.config.no_correction (pure (some tt))
        (attempt (update_correction_factors env)) (λ s h. h)
        (attempt-Preserves Idle (update_correction_factors env) (
          update_correction_factors-Preserves env Idle
            (record { reads = reads-Idle; p_kept = λ s x h. h; d_kept = λ s x h. h })))
        s h

  apply_scaling-Idle : (r : ℤ × ℤ) → Preserves Idle (apply_scaling env r)
  unfolding apply_scaling
  apply_scaling-Idle r s h =
      instead (pure tt) (on_session (set_replicas env.kubernetes (targets_of s.config r) false)) s h
        (λ k. k)

  rounds-Idle : KeptByRounds env Idle
  rounds-Idle = record {
    clocked = on_world-Idle env.time quiet.time;
    paused = λ delay. on_world-Idle (λ w. (tt, env.pause delay w)) (λ w p. quiet.pause delay w p);
    marked = λ now s h. h;
    observed = observe_metrics-Idle;
    adjusted = make_adjustments-Preserves env Idle (record {
      reads = reads-Idle;
      corrected = try_corrections-Idle;
      scaled = λ load s {r} h computed. apply_scaling-Idle r;
    });
  }

  start-Idle : Preserves Idle (start env)
  unfolding start
  start-Idle s h =
      instead (mark_time env)
        (on_session (validate_deployment env.kubernetes)
          >> on_session (wait_default env.kubernetes)
          >> mark_time env)
        s h (mark_time-Preserves env Idle rounds-Idle s)

  -- With the flag `--no-operation` on the command line, whatever holds of the world at the launch holds
  -- after any number of rounds, if the Prometheus queries, the clock and the pauses keep it: nothing is
  -- asked of the cluster, not even a read of it or its configuration.
  pub launch_dry :
      (loader : Kubeconfig W) (environment : Environment) (line : CommandLine)
      (file : Option String) (profiles : ProfileFiles F) (time : F) (started : Bool) (world : W)
      (n : ℕ) {r : Result (Unit {0})} {s : Planner F W}
      → line.flag "--no-operation" ≡ true
      → P world
      → launch env loader environment line file profiles time started world n ≡ ok (r, s)
      → P s.session.world
  unfolding configure
  launch_dry loader environment line file profiles time started world n {r} {s} given p e =
      let (args, parsed, launched) =
        launch-parsed env loader environment line file profiles time started world n e in
      let (config, planner, configured, created, last) =
        main-created env loader environment args file profiles time started world n launched in
      let spelled = parse_args-Spells line args parsed in
      let dry : config.no_operation ≡ true =
        (main_config_flags environment args configured).1
          (sym spelled.no_operation ∙ ap stored_true given) in
      let ready = (configure loader config.no_operation world).1 in
      let untouched : P ready = subst (λ (b : Bool). P (configure loader b world).1) (sym dry) p in
      let (same_config, same_world) =
        create_planner-session env config file profiles time started ready created in
      let before : Idle planner = (
        subst P (sym same_world) untouched,
        ap (λ (k : PlannerConfig F). k.no_operation) same_config ∙ dry,
      ) in
      subst (λ k. P k.1.session.world) last
        (run-Preserves env Idle rounds-Idle start-Idle n planner before).0
