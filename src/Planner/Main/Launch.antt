-- ===== src/Planner/Main/Launch.antt =====
-- The planner from its command line on.
use rbg_planner.Prelude.{ℕ, ℤ, ◌≤ℤ◌, String, Bool, Option, none, some, ◌≡◌, refl, sym, ap, ◌∙◌}
use mathlib.Core.Option
use mathlib.Core.Option.{get_or}
use rbg_planner.Python.Text.{parse_int}
use rbg_planner.Python.{Result, ok}
use rbg_planner.Python.Float.{Floating}
use rbg_planner.Config.{Environment}
use rbg_planner.Config.Options.{CommandLine}
use rbg_planner.Config.Spelled.{parse_args-Spells}
use rbg_planner.Profile.{ProfileFiles}
use rbg_planner.Connector.Safety.{KeptBy}
use rbg_planner.Kubeconfig.{Kubeconfig, connect}
use rbg_planner.Planner.{Planner, Externals}
use rbg_planner.Planner.Reads.{QuietBy}
use rbg_planner.Planner.Main.{HasLimits, launch, launch-parsed, main-Inv}

mapped_none : {A : Type 0} (a : Option A) → none ≡ Option.map some a → a ≡ none
mapped_none none e = refl
mapped_none (some v) e = cc

module _ {F W : Type 0} ⦃d : Floating F⦄ (env : Externals F W) (loader : Kubeconfig W) where
  -- From the command line on: where the environment holds its limits as printed integers, each maximum
  -- at least the minimum, and no option `--min-replicas` is given, any predicate of the cluster that
  -- connecting, reading, waiting and writes of at least the minimum keep is true after any number of
  -- rounds, whatever raises on the way.
  pub launch-Inv :
      (P : W → Type 0) (environment : Environment) (budget least most_prefill most_decode : ℤ)
      → HasLimits environment budget least most_prefill most_decode
      → KeptBy env.kubernetes P (λ k. least ≤ℤ k)
      → QuietBy env P
      → ((w : W) → P w → P (connect loader w).1)
      → (line : CommandLine) (file : Option String) (profiles : ProfileFiles F) (time : F)
        (started : Bool) (world : W) (n : ℕ) {r : Result (Unit {0})} {s : Planner F W}
      → line.text "--min-replicas" ≡ none
      → P world
      → launch env loader environment line file profiles time started world n ≡ ok (r, s)
      → P s.session.world
  launch-Inv P environment budget least most_prefill most_decode limits kept quiet connecting line
        file profiles time started world n not_given p e =
      let (args, parsed, launched) =
        launch-parsed env loader environment line file profiles time started world n e in
      let spelled = parse_args-Spells line args parsed in
      let unset : args.min_replicas ≡ none =
        mapped_none args.min_replicas
          (sym (ap (Option.map parse_int) not_given) ∙ spelled.min_replicas) in
      main-Inv env loader P environment budget least most_prefill most_decode limits kept quiet
        connecting args file profiles time started world n (ap (λ o. get_or o least) unset) p
        launched
