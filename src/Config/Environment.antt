-- ===== src/Config/Environment.antt =====
-- What reaches the planner of the settings that a deployment gives.
use rbg_planner.Prelude.{
  ℤ, String, Bool, true, false, not, ◌&&◌, Option, some, ◌≡◌, sym, ap, ◌∙◌, ◌⊎◌, inl, inr,
  Bool-cases, arith,
}
use mathlib.Core.Path.{subst}
use text.Mathlib.Text.{◌==◌ as str_eq}
use mathlib.Core.Option.{get_or}
use rbg_planner.Python.{ok, ok-injective, err-ne-ok}
use rbg_planner.Python.Pure.{>>=-eq-ok}
use rbg_planner.Python.Text.{int_text, parse_int}
use rbg_planner.Python.Text.RoundTrip.{parse_int-int_text}
use rbg_planner.Python.Float.{Floating}
use rbg_planner.Config.{
  PlannerConfig, Args, Environment, converted, int_of, float_of, from_env, build_config,
  main_config,
}

-- An integer setting that was written as Python prints it is read as that integer.
int_of-int_text :
    (env : Environment) (name default : String) (n : ℤ)
    → env name ≡ some (int_text n)
    → int_of env name default ≡ ok n
unfolding int_of
int_of-int_text env name default n e =
    ap (λ (o : Option String). converted (parse_int (get_or o default))) e
    ∙ ap converted (parse_int-int_text n)

and_not_cases : (a b : Bool) → (a && not b) ≡ false → (a ≡ false) ⊎ (b ≡ true)
and_not_cases a b h = ground arith

-- Where a setting was read, it is what was written.
limit_given :
    (env : Environment) (name default : String) (k m : ℤ)
    → env name ≡ some (int_text k)
    → int_of env name default ≡ ok m
    → m ≡ k
limit_given env name default k m at_name found =
    ok-injective m k (sym found ∙ int_of-int_text env name default k at_name)

module _ {F : Type 0} ⦃d : Floating F⦄ (env : Environment) where
  -- The settings of the scaling limits, read off the environment.
  pub record ReadLimits (c : PlannerConfig F) : Type 0 where
    pub interval : int_of env "ADJUSTMENT_INTERVAL" "180" ≡ ok c.adjustment_interval
    pub budget : int_of env "MAX_GPU_BUDGET" "8" ≡ ok c.max_gpu_budget
    pub least : int_of env "MIN_REPLICAS" "1" ≡ ok c.min_replicas
    pub most_prefill : int_of env "MAX_PREFILL_REPLICAS" "100" ≡ ok c.max_prefill_replicas
    pub most_decode : int_of env "MAX_DECODE_REPLICAS" "100" ≡ ok c.max_decode_replicas

  from_env-ReadLimits : {c : PlannerConfig F} → from_env env ≡ ok c → ReadLimits c
  unfolding from_env
  from_env-ReadLimits {c} e =
      let (interval, e₁, r₁) = >>=-eq-ok (int_of env "ADJUSTMENT_INTERVAL" "180") _ e in
      let (budget, e₂, r₂) = >>=-eq-ok (int_of env "MAX_GPU_BUDGET" "8") _ r₁ in
      let (least, e₃, r₃) = >>=-eq-ok (int_of env "MIN_REPLICAS" "1") _ r₂ in
      let (most_p, e₄, r₄) = >>=-eq-ok (int_of env "MAX_PREFILL_REPLICAS" "100") _ r₃ in
      let (most_d, e₅, r₅) = >>=-eq-ok (int_of env "MAX_DECODE_REPLICAS" "100") _ r₄ in
      let (_, _, r₆) = >>=-eq-ok (int_of env "PREFILL_ENGINE_NUM_GPU" "1") _ r₅ in
      let (_, _, r₇) = >>=-eq-ok (int_of env "DECODE_ENGINE_NUM_GPU" "1") _ r₆ in
      let (_, _, r₈) = >>=-eq-ok (float_of {F = F} env "TTFT_SLA" "500.0") _ r₇ in
      let (_, _, r₉) = >>=-eq-ok (float_of {F = F} env "ITL_SLA" "50.0") _ r₈ in
      let (_, _, r₁₀) = >>=-eq-ok (int_of env "LOAD_PREDICTION_WINDOW_SIZE" "50") _ r₉ in
      let (_, _, r₁₁) = >>=-eq-ok (int_of env "PLANNER_PROMETHEUS_PORT" "0") _ r₁₀ in
      let same = ok-injective _ c r₁₁ in
      record {
        interval = e₁ ∙ ap (λ (k : PlannerConfig F). ok k.adjustment_interval) same;
        budget = e₂ ∙ ap (λ (k : PlannerConfig F). ok k.max_gpu_budget) same;
        least = e₃ ∙ ap (λ (k : PlannerConfig F). ok k.min_replicas) same;
        most_prefill = e₄ ∙ ap (λ (k : PlannerConfig F). ok k.max_prefill_replicas) same;
        most_decode = e₅ ∙ ap (λ (k : PlannerConfig F). ok k.max_decode_replicas) same;
      }

  -- The steps of a start that goes on.
  pub record Accepted (args : Args F) (c : PlannerConfig F) : Type 0 where
    pub defaults : PlannerConfig F
    pub read : from_env env ≡ ok defaults
    pub built : build_config defaults args ≡ c
    pub named_or_dry : (str_eq c.rbg_name "" ≡ false) ⊎ (c.no_operation ≡ true)

  main_config-Accepted :
      (args : Args F) {c : PlannerConfig F} → main_config env args ≡ ok c → Accepted args c
  unfolding main_config
  main_config-Accepted args {c} e =
      let (defaults, read, checked) = >>=-eq-ok (from_env {F = F} env) _ e in
      let config = build_config defaults args in
      elim (Bool-cases (str_eq config.rbg_name "" && not config.no_operation)) [
        | inl refused ↦ absurd (err-ne-ok (rw refused at checked))
        | inr accepted ↦
            let same : config ≡ c = ok-injective config c (rw accepted at checked) in
            record {
              defaults = defaults;
              read = read;
              built = same;
              named_or_dry =
                  subst
                    (λ (k : PlannerConfig F).
                      (str_eq k.rbg_name "" ≡ false) ⊎ (k.no_operation ≡ true))
                    same (and_not_cases (str_eq config.rbg_name "") config.no_operation accepted);
            }
      ]

  -- A start that goes on has a name to scale, or runs dry.
  pub main_config_named :
      (args : Args F) {c : PlannerConfig F}
      → main_config env args ≡ ok c
      → (str_eq c.rbg_name "" ≡ false) ⊎ (c.no_operation ≡ true)
  main_config_named args e = (main_config-Accepted args e).named_or_dry

  -- Limits that the environment holds as Python prints them are the planner's: the GPU budget unless
  -- the command line gives one, and the maxima of the roles in any case.
  pub main_config_limits :
      (args : Args F) (budget most_prefill most_decode : ℤ) {c : PlannerConfig F}
      → env "MAX_GPU_BUDGET" ≡ some (int_text budget)
      → env "MAX_PREFILL_REPLICAS" ≡ some (int_text most_prefill)
      → env "MAX_DECODE_REPLICAS" ≡ some (int_text most_decode)
      → main_config env args ≡ ok c
      → (c.max_gpu_budget ≡ get_or args.max_gpu_budget budget)
        × (c.max_prefill_replicas ≡ most_prefill)
        × (c.max_decode_replicas ≡ most_decode)
  unfolding build_config
  main_config_limits args budget most_prefill most_decode {c} b p n e =
      let start = main_config-Accepted args e in
      let limits = from_env-ReadLimits start.read in
      let same_budget = limit_given env "MAX_GPU_BUDGET" "8" budget _ b limits.budget in
      (
        sym (ap (λ (k : PlannerConfig F). k.max_gpu_budget) start.built)
            ∙ ap (get_or args.max_gpu_budget) same_budget,
        sym (ap (λ (k : PlannerConfig F). k.max_prefill_replicas) start.built)
            ∙ limit_given env "MAX_PREFILL_REPLICAS" "100" most_prefill _ p limits.most_prefill,
        sym (ap (λ (k : PlannerConfig F). k.max_decode_replicas) start.built)
            ∙ limit_given env "MAX_DECODE_REPLICAS" "100" most_decode _ n limits.most_decode,
      )

  -- The flags decide alone, where they are given.
  pub main_config_flags :
      (args : Args F) {c : PlannerConfig F}
      → main_config env args ≡ ok c
      → (args.no_correction ≡ some true → c.no_correction ≡ true)
        × (args.no_operation ≡ some true → c.no_operation ≡ true)
  unfolding build_config
  main_config_flags args e =
      let start = main_config-Accepted args e in
      (
        λ given.
            sym (ap (λ (k : PlannerConfig F). k.no_correction) start.built)
            ∙ ap (λ (o : Option Bool). get_or o start.defaults.no_correction) given,
        λ given.
            sym (ap (λ (k : PlannerConfig F). k.no_operation) start.built)
            ∙ ap (λ (o : Option Bool). get_or o start.defaults.no_operation) given,
      )

  -- The same for the minimum.
  pub main_config_least :
      (args : Args F) (least : ℤ) {c : PlannerConfig F}
      → env "MIN_REPLICAS" ≡ some (int_text least)
      → main_config env args ≡ ok c
      → c.min_replicas ≡ get_or args.min_replicas least
  unfolding build_config
  main_config_least args least given e =
      let start = main_config-Accepted args e in
      let limits = from_env-ReadLimits start.read in
      sym (ap (λ (k : PlannerConfig F). k.min_replicas) start.built)
      ∙ ap (get_or args.min_replicas)
          (limit_given env "MIN_REPLICAS" "1" least _ given limits.least)
