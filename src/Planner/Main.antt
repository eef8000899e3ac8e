-- ===== src/Planner/Main.antt =====
-- The planner's entry point (`main` of python/planner/rbg_planner/main.py): the settings, the planner,
-- and the first rounds of its loop.
pub mod Uncorrected
pub mod Launch
pub mod DryRun
use rbg_planner.Prelude.{
  ℕ, ℤ, ◌≤ℤ◌, String, Bool, true, false, if◌then◌else◌, Option, some, ◌≡◌, inr, sym, ◌∙◌,
}
use mathlib.Core.Path.{subst}
use mathlib.Core.Option.{get_or}
use rbg_planner.Python.{Method, pure, Result, ok, ok-injective}
use rbg_planner.Python.Pure.{◌>>=◌, ◌>>◌, >>=-eq-ok}
use rbg_planner.Python.Float.{Floating}
use rbg_planner.Python.Text.{int_text}
use rbg_planner.Config.{PlannerConfig, Args, Environment, from_env, main_config}
use rbg_planner.Config.Options.{CommandLine, parse_args}
use rbg_planner.Config.Environment.{main_config_limits, main_config_least}
use rbg_planner.Profile.{ProfileFiles}
use rbg_planner.Replicas.Limits.{IsConsistent}
use rbg_planner.Connector.Safety.{KeptBy}
use rbg_planner.Kubeconfig.{Kubeconfig, connect}
use rbg_planner.Planner.{Planner, Externals}
use rbg_planner.Planner.Create.{create_planner, create_planner-session}
use rbg_planner.Planner.Run.{run}
use rbg_planner.Planner.Reads.{QuietBy}
use rbg_planner.Planner.Always.{run-Inv}

-- What the environment gives as limits, in the integers that it prints.
pub record HasLimits (environment : Environment) (budget least most_prefill most_decode : ℤ)
    : Type 0 where
  pub at_budget : environment "MAX_GPU_BUDGET" ≡ some (int_text budget)
  pub at_least : environment "MIN_REPLICAS" ≡ some (int_text least)
  pub at_most_prefill : environment "MAX_PREFILL_REPLICAS" ≡ some (int_text most_prefill)
  pub at_most_decode : environment "MAX_DECODE_REPLICAS" ≡ some (int_text most_decode)
  pub prefill_le : least ≤ℤ most_prefill
  pub decode_le : least ≤ℤ most_decode

le_of_same : (a b c e : ℤ) → a ≡ c → b ≡ e → c ≤ℤ e → a ≤ℤ b
le_of_same a b c e h k l = subst (λ i. i ≤ℤ b) (sym h) (subst (λ i. c ≤ℤ i) (sym k) l)

-- What `RBGConnector.__init__` does outside the process; a dry run has no connector.
unfoldable pub configure : {W : Type 0} → Kubeconfig W → Bool → Method W (Unit {0})
unfolding connect
configure loader dry_run = if dry_run then pure tt else connect loader

module _ {F W : Type 0} ⦃d : Floating F⦄ (env : Externals F W) (loader : Kubeconfig W) where
  -- `main`, with `n` rounds of the loop: an exception of the settings or of the planner's creation, or
  -- what the run has come to and the planner that it has left.
  unfoldable pub main :
      Environment
      → Args F
      → Option String
      → ProfileFiles F
      → F
      → Bool
      → W
      → ℕ
      → Result (Result (Unit {0}) × Planner F W)
  unfolding main_config configure create_planner run
  main environment args file profiles time started world n = do
    config ← main_config environment args
    let (configured, ready) = configure loader config.no_operation world
    configured
    planner ← create_planner env.numerics config file profiles time started ready
    ok (run env n planner)

  -- The command: the settings are read once when their module is imported, then the command line, then
  -- `main` runs.
  unfoldable pub launch :
      Environment
      → CommandLine
      → Option String
      → ProfileFiles F
      → F
      → Bool
      → W
      → ℕ
      → Result (Result (Unit {0}) × Planner F W)
  unfolding from_env parse_args main
  launch environment line file profiles time started world n = do
    from_env {F = F} environment
    args ← parse_args line
    main environment args file profiles time started world n

  -- What a launch that goes on has parsed.
  pub launch-parsed :
      (environment : Environment) (line : CommandLine) (file : Option String)
      (profiles : ProfileFiles F) (time : F) (started : Bool) (world : W) (n : ℕ)
      {x : Result (Unit {0}) × Planner F W}
      → launch environment line file profiles time started world n ≡ ok x
      → (args : Args F) × (parse_args line ≡ ok args)
        × (main environment args file profiles time started world n ≡ ok x)
  unfolding launch
  launch-parsed environment line file profiles time started world n e =
      let (_, _, after) = >>=-eq-ok (from_env {F = F} environment) _ e in
      >>=-eq-ok (parse_args line) _ after

  configure-Keeps :
      (P : W → Type 0)
      → ((w : W) → P w → P (connect loader w).1)
      → (dry_run : Bool) (w : W) → P w
      → P (configure loader dry_run w).1
  unfolding configure
  configure-Keeps P connecting true w p = p
  configure-Keeps P connecting false w p = connecting w p

  -- The settings and the planner of a call that has started the loop.
  pub main-created :
      (environment : Environment) (args : Args F) (file : Option String) (profiles : ProfileFiles F)
      (time : F) (started : Bool) (world : W) (n : ℕ) {x : Result (Unit {0}) × Planner F W}
      → main environment args file profiles time started world n ≡ ok x
      → (config : PlannerConfig F) × (planner : Planner F W) × (main_config environment args
          ≡ ok config)
        × (create_planner env.numerics config file profiles time started
              (configure loader config.no_operation world).1
            ≡ ok planner)
        × (run env n planner ≡ x)
  unfolding main
  main-created environment args file profiles time started world n {x} e =
      let (config, configured, rest) = >>=-eq-ok (main_config environment args) _ e in
      let ready = (configure loader config.no_operation world).1 in
      let (_, _, next) = >>=-eq-ok (configure loader config.no_operation world).0 _ rest in
      let (planner, created, last) =
        >>=-eq-ok (create_planner env.numerics config file profiles time started ready) _ next in
      (config, planner, configured, created, ok-injective (run env n planner) x last)

  -- From `main` on: where the environment holds its limits as printed integers, each maximum
  -- at least the minimum, and the command line leaves the minimum alone, any predicate of the cluster
  -- that connecting, reading, waiting and writes of at least that minimum keep is true after any number
  -- of rounds, whatever raises on the way.
  pub main-Inv :
      (P : W → Type 0) (environment : Environment) (budget least most_prefill most_decode : ℤ)
      → HasLimits environment budget least most_prefill most_decode
      → KeptBy env.kubernetes P (λ k. least ≤ℤ k)
      → QuietBy env P
      → ((w : W) → P w → P (connect loader w).1)
      → (args : Args F) (file : Option String) (profiles : ProfileFiles F) (time : F)
        (started : Bool) (world : W) (n : ℕ) {r : Result (Unit {0})} {s : Planner F W}
      → get_or args.min_replicas least ≡ least
      → P world
      → main environment args file profiles time started world n ≡ ok (r, s)
      → P s.session.world
  main-Inv P environment budget least most_prefill most_decode limits kept quiet connecting args
        file profiles time started world n {r} {s} unchanged p e =
      let (config, planner, configured, created, last) =
        main-created environment args file profiles time started world n e in
      let ready = (configure loader config.no_operation world).1 in
      let (same_config, same_world) =
        create_planner-session env config file profiles time started ready created in
      let same_least =
        main_config_least environment args least limits.at_least configured ∙ unchanged in
      let (_, same_prefill, same_decode) =
        main_config_limits environment args budget most_prefill most_decode limits.at_budget
          limits.at_most_prefill limits.at_most_decode configured in
      let consistent : IsConsistent config = record {
        prefill_le = le_of_same _ _ least most_prefill same_least same_prefill limits.prefill_le;
        decode_le = le_of_same _ _ least most_decode same_least same_decode limits.decode_le;
      } in
      subst (λ k. P k.1.session.world) last
        (run-Inv env P (λ k. least ≤ℤ k) kept quiet config consistent
          (inr (λ k h. subst (λ m. m ≤ℤ k) same_least h)) n planner
          (subst P (sym same_world) (configure-Keeps P connecting config.no_operation world p))
          same_config).0
