-- ===== src/Planner/Main/Uncorrected.antt =====
-- A planner without corrections (`--no-correction`), from its entry point on.
use rbg_planner.Prelude.{ℕ, pos, String, Bool, true, Option, some, if◌then◌else◌, ◌≡◌, sym, ap, ◌∙◌}
use mathlib.Core.Path.{subst}
use rbg_planner.Python.{pure, Result, ok}
use rbg_planner.Config.{Args, Environment}
use rbg_planner.Config.Environment.{main_config_flags}
use rbg_planner.Profile.{ProfileFiles}
use rbg_planner.Kubeconfig.{Kubeconfig}
use rbg_planner.Planner.Create.{create_planner-session, create_planner-factors}
use rbg_planner.Config.Options.{CommandLine, stored_true}
use rbg_planner.Config.Spelled.{parse_args-Spells}
use rbg_planner.Planner.Main.{configure, main, main-created, launch, launch-parsed}
use rbg_planner.Python.Float.{Floating}
use rbg_planner.Python.Invariant.{Preserves}
use rbg_planner.Config.{PlannerConfig}
use rbg_planner.Connector.{validate_deployment, wait_default}
use rbg_planner.Planner.{Planner, Externals, set_gauge, attempt}
use rbg_planner.Planner.Observe.{store_observation}
use rbg_planner.Planner.Update.{update_correction_factors}
use rbg_planner.Planner.Adjust.{try_corrections}
use rbg_planner.Planner.Run.{start}
use rbg_planner.Planner.Rules.Run.{KeptByRounds, start-Preserves, run-Preserves}
use rbg_planner.Planner.Rules.Local.{
  IsLocal, on_session-Preserves, on_world-Preserves, observe_metrics-local, make_adjustments-local,
}

module _ {F W : Type 0} ⦃d : Floating F⦄ (env : Externals F W) (p n : F) where
  -- The corrections are off, and the factors are these.
  pub record IsUncorrected (s : Planner F W) : Type 0 where
    pub off : s.config.no_correction ≡ true
    pub p_same : s.p_correction_factor ≡ p
    pub d_same : s.d_correction_factor ≡ n

  IsUncorrected-IsLocal : IsLocal env IsUncorrected
  unfolding set_gauge store_observation
  IsUncorrected-IsLocal = record {
    session_kept = λ s k h. record { off = h.off; p_same = h.p_same; d_same = h.d_same };
    gauge_kept = λ s gauge x h. record { off = h.off; p_same = h.p_same; d_same = h.d_same };
    stored = λ o s h. record { off = h.off; p_same = h.p_same; d_same = h.d_same };
    hours_kept = λ s x h. record { off = h.off; p_same = h.p_same; d_same = h.d_same };
  }

  try_corrections-off : Preserves IsUncorrected (try_corrections env)
  unfolding try_corrections
  try_corrections-off s h =
      subst
        (λ (b : Bool).
          IsUncorrected
            ((if b then pure (some tt) else attempt (update_correction_factors env)) s).1)
        (sym h.off) h

  rounds-kept : KeptByRounds env IsUncorrected
  rounds-kept = record {
    clocked = on_world-Preserves env IsUncorrected IsUncorrected-IsLocal env.time;
    paused = λ delay.
        on_world-Preserves env IsUncorrected IsUncorrected-IsLocal (λ w. (tt, env.pause delay w));
    marked = λ now s h. record { off = h.off; p_same = h.p_same; d_same = h.d_same };
    observed = observe_metrics-local env IsUncorrected IsUncorrected-IsLocal;
    adjusted = make_adjustments-local env IsUncorrected IsUncorrected-IsLocal try_corrections-off;
  }

  start-IsUncorrected : Preserves IsUncorrected (start env)
  start-IsUncorrected =
      start-Preserves env IsUncorrected rounds-kept
        (on_session-Preserves env IsUncorrected IsUncorrected-IsLocal
          (validate_deployment env.kubernetes))
        (on_session-Preserves env IsUncorrected IsUncorrected-IsLocal (wait_default env.kubernetes))

module _ {F W : Type 0} ⦃d : Floating F⦄ (env : Externals F W) (loader : Kubeconfig W) where
  main_uncorrected :
      (environment : Environment) (args : Args F) (file : Option String) (profiles : ProfileFiles F)
      (time : F) (started : Bool) (world : W) (n : ℕ) {r : Result (Unit {0})} {s : Planner F W}
      → args.no_correction ≡ some true
      → main env loader environment args file profiles time started world n ≡ ok (r, s)
      → (s.p_correction_factor ≡ d.of_int (pos 1)) × (s.d_correction_factor ≡ d.of_int (pos 1))
  main_uncorrected environment args file profiles time started world n {r} {s} given e =
      let one = d.of_int (pos 1) in
      let (config, planner, configured, created, last) =
        main-created env loader environment args file profiles time started world n e in
      let ready = (configure loader config.no_operation world).1 in
      let (same_config, _) =
        create_planner-session env config file profiles time started ready created in
      let (p_one, d_one) =
        create_planner-factors env config file profiles time started ready created in
      let before : IsUncorrected env one one planner = record {
        off =
            ap (λ (k : PlannerConfig F). k.no_correction) same_config
            ∙ (main_config_flags environment args configured).0 given;
        p_same = p_one;
        d_same = d_one;
      } in
      let after =
        subst (λ k. IsUncorrected env one one k.1) last
          (run-Preserves env (IsUncorrected env one one) (rounds-kept env one one)
            (start-IsUncorrected env one one) n planner before) in
      (after.p_same, after.d_same)

  -- With the flag `--no-correction` on the command line, both correction factors are one after any
  -- number of rounds, whatever the environment says and whatever raises on the way.
  pub launch_uncorrected :
      (environment : Environment) (line : CommandLine) (file : Option String)
      (profiles : ProfileFiles F) (time : F) (started : Bool) (world : W) (n : ℕ)
      {r : Result (Unit {0})} {s : Planner F W}
      → line.flag "--no-correction" ≡ true
      → launch env loader environment line file profiles time started world n ≡ ok (r, s)
      → (s.p_correction_factor ≡ d.of_int (pos 1)) × (s.d_correction_factor ≡ d.of_int (pos 1))
  launch_uncorrected environment line file profiles time started world n given e =
      let (args, parsed, launched) =
        launch-parsed env loader environment line file profiles time started world n e in
      let spelled = parse_args-Spells line args parsed in
      main_uncorrected environment args file profiles time started world n
        (sym spelled.no_correction ∙ ap stored_true given) launched
