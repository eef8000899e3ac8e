-- ===== src/Tests/Main.antt =====
-- The planner from its entry point on.
use rbg_planner.Prelude.{pos, [], true, none, some, if◌then◌else◌, ◌≡◌, refl, arith}
use text.Mathlib.Text.{◌==◌ as str_eq}
use rbg_planner.Python.{Result, ok}
use rbg_planner.Python.Text.{int_text, parse_int}
use rbg_planner.Kubeconfig.{connect}
use rbg_planner.Planner.{Planner}
use rbg_planner.Config.Options.{CommandLine}
use rbg_planner.Planner.Reads.{QuietBy}
use rbg_planner.Planner.Main.DryRun.{launch_dry}
use rbg_planner.Planner.Main.Launch.{launch-Inv}
use rbg_planner.Planner.Main.Uncorrected.{launch_uncorrected}
use rbg_planner.Planner.Main.{HasLimits, launch}
use rbg_planner.Tests.Fixed.{Fixed, num, fixed_Floating}
use rbg_planner.Tests.Cluster.{
  World, AllPositive, Positive-kept, small_env, small_env-quiet, small_kubeconfig,
}
use rbg_planner.Tests.Config.{small_environment}
use rbg_planner.Tests.Create.{complete}
use rbg_planner.Profile.{ProfileFiles}

-- The directory that is the default of `profile_results_dir`.
abbrev default_profile : ProfileFiles Fixed
default_profile = complete "/etc/rbg-planner/profiling"

small_environment-HasLimits : HasLimits small_environment (pos 16) (pos 1) (pos 7) (pos 9)
small_environment-HasLimits = record {
  at_budget = refl;
  at_least = refl;
  at_most_prefill = refl;
  at_most_decode = refl;
  prefill_le = omega arith;
  decode_le = omega arith;
}

connecting : (w : World) → AllPositive w → AllPositive (connect small_kubeconfig w).1
unfolding connect
connecting w p = p

abbrev without_corrections : CommandLine
without_corrections = record {
  text = λ option. if str_eq option "--max-gpu-budget" then some (int_text (pos 12)) else none;
  flag = λ option. str_eq option "--no-correction";
}

launched :
    (x : Result (Unit {0}) × Planner Fixed World) × (launch small_env small_kubeconfig
        small_environment without_corrections none default_profile
        (num 0)
        true
        (0, [])
        2
      ≡ ok x)
unfolding launch int_text parse_int
launched = (_, refl)

launch_uncorrected_example :
    (launched.0.1.p_correction_factor ≡ num 1) × (launched.0.1.d_correction_factor ≡ num 1)
launch_uncorrected_example =
    launch_uncorrected small_env small_kubeconfig small_environment without_corrections none
      default_profile (num 0) true (0, []) 2 refl launched.1

launch-Inv_example : AllPositive launched.0.1.session.world
launch-Inv_example =
    launch-Inv small_env small_kubeconfig AllPositive small_environment (pos 16) (pos 1) (pos 7)
      (pos 9) small_environment-HasLimits Positive-kept small_env-quiet connecting
      without_corrections none default_profile (num 0) true (0, []) 2 refl tt launched.1

-- A dry run on the same cluster writes nothing.
abbrev dry_line : CommandLine
dry_line = record { text = λ option. none; flag = λ option. str_eq option "--no-operation" }

launched_dry :
    (x : Result (Unit {0}) × Planner Fixed World) × (launch small_env small_kubeconfig
        small_environment dry_line none default_profile
        (num 0)
        true
        (0, [])
        2
      ≡ ok x)
unfolding launch int_text parse_int
launched_dry = (_, refl)

abbrev Unwritten : World → Type 0
Unwritten w = w.1 ≡ []

Unwritten-quiet : QuietBy small_env Unwritten
Unwritten-quiet = record { custom_query = λ query w h. h; time = λ w h. h; pause = λ t w h. h }

launch_dry_example : launched_dry.0.1.session.world.1 ≡ []
launch_dry_example =
    launch_dry small_env Unwritten Unwritten-quiet small_kubeconfig small_environment dry_line none
      default_profile (num 0) true (0, []) 2 refl refl launched_dry.1
