-- ===== src/Config/Spelled.antt =====
-- What the command line gives as options, independently of how it is read.
use rbg_planner.Prelude.{true, some, ◌≡◌, refl, sym, ap, ◌∙◌, true-ne-false}
use rbg_planner.Python.{Result, ok, err, err-ne-ok, ok-injective, system_exit}
use rbg_planner.Python.Pure.{>>=-eq-ok}
use rbg_planner.Python.Text.{parse_int}
use rbg_planner.Python.Float.{Floating}
use mathlib.Core.Path.{subst}
use rbg_planner.Metrics.{Adapter, create_metrics_adapter}
use rbg_planner.Config.{Args}
use rbg_planner.Config.Options.{
  CommandLine, typed, chosen, contains, stored_true, metric_sources, load_predictors, log_levels,
  parse_args,
}
use rbg_planner.Config.Choices.{
  Converts, typed_iff, is_choice, IsAmong, chosen_iff, accepted_choice, OrExits, bind-OrExits,
  typed-OrExits, chosen-OrExits,
}

module _ {F : Type 0} ⦃d : Floating F⦄ where
  -- The options that a command line spells out.
  pub record Spells (line : CommandLine) (args : Args F) : Type 0 where
    pub rbg_name : line.text "--rbg-name" ≡ args.rbg_name
    pub rbg_namespace : line.text "--rbg-namespace" ≡ args.rbg_namespace
    pub prefill_role_name : line.text "--prefill-role-name" ≡ args.prefill_role_name
    pub decode_role_name : line.text "--decode-role-name" ≡ args.decode_role_name
    pub prometheus_endpoint : line.text "--prometheus-endpoint" ≡ args.prometheus_endpoint
    pub model_name : line.text "--model-name" ≡ args.model_name
    pub profile_results_dir : line.text "--profile-results-dir" ≡ args.profile_results_dir
    pub adjustment_interval :
        Converts parse_int (line.text "--adjustment-interval") args.adjustment_interval
    pub max_gpu_budget : Converts parse_int (line.text "--max-gpu-budget") args.max_gpu_budget
    pub min_replicas : Converts parse_int (line.text "--min-replicas") args.min_replicas
    pub prefill_engine_num_gpu :
        Converts parse_int (line.text "--prefill-engine-num-gpu") args.prefill_engine_num_gpu
    pub decode_engine_num_gpu :
        Converts parse_int (line.text "--decode-engine-num-gpu") args.decode_engine_num_gpu
    pub ttft_sla : Converts d.parse (line.text "--ttft-sla") args.ttft_sla
    pub itl_sla : Converts d.parse (line.text "--itl-sla") args.itl_sla
    pub load_prediction_window_size :
        Converts parse_int
          (line.text "--load-prediction-window-size")
          args.load_prediction_window_size
    pub planner_prometheus_port :
        Converts parse_int (line.text "--planner-prometheus-port") args.planner_prometheus_port
    pub metric_source : IsAmong metric_sources (line.text "--metric-source") args.metric_source
    pub load_predictor : IsAmong load_predictors (line.text "--load-predictor") args.load_predictor
    pub log_level : IsAmong log_levels (line.text "--log-level") (line.text "--log-level")
    pub no_correction : stored_true (line.flag "--no-correction") ≡ args.no_correction
    pub no_operation : stored_true (line.flag "--no-operation") ≡ args.no_operation

  pub parse_args-Spells :
      (line : CommandLine) (args : Args F) → parse_args line ≡ ok args → Spells line args
  unfolding parse_args
  parse_args-Spells line args e =
      let (_, r₀, e₀) = >>=-eq-ok (chosen metric_sources (line.text "--metric-source")) _ e in
      let (_, r₁, e₁) = >>=-eq-ok (typed parse_int (line.text "--adjustment-interval")) _ e₀ in
      let (_, r₂, e₂) = >>=-eq-ok (typed parse_int (line.text "--max-gpu-budget")) _ e₁ in
      let (_, r₃, e₃) = >>=-eq-ok (typed parse_int (line.text "--min-replicas")) _ e₂ in
      let (_, r₄, e₄) = >>=-eq-ok (typed parse_int (line.text "--prefill-engine-num-gpu")) _ e₃ in
      let (_, r₅, e₅) = >>=-eq-ok (typed parse_int (line.text "--decode-engine-num-gpu")) _ e₄ in
      let (_, r₆, e₆) = >>=-eq-ok (typed {A = F} d.parse (line.text "--ttft-sla")) _ e₅ in
      let (_, r₇, e₇) = >>=-eq-ok (typed {A = F} d.parse (line.text "--itl-sla")) _ e₆ in
      let (_, r₈, e₈) = >>=-eq-ok (chosen load_predictors (line.text "--load-predictor")) _ e₇ in
      let (_, r₉, e₉) =
        >>=-eq-ok (typed parse_int (line.text "--load-prediction-window-size")) _ e₈ in
      let (_, r₁₀, e₁₀) =
        >>=-eq-ok (typed parse_int (line.text "--planner-prometheus-port")) _ e₉ in
      let (_, r₁₁, e₁₁) = >>=-eq-ok (chosen log_levels (line.text "--log-level")) _ e₁₀ in
      let same = ok-injective _ args e₁₁ in
      record {
        rbg_name = ap (λ (k : Args F). k.rbg_name) same;
        rbg_namespace = ap (λ (k : Args F). k.rbg_namespace) same;
        prefill_role_name = ap (λ (k : Args F). k.prefill_role_name) same;
        decode_role_name = ap (λ (k : Args F). k.decode_role_name) same;
        prometheus_endpoint = ap (λ (k : Args F). k.prometheus_endpoint) same;
        model_name = ap (λ (k : Args F). k.model_name) same;
        profile_results_dir = ap (λ (k : Args F). k.profile_results_dir) same;
        no_correction = ap (λ (k : Args F). k.no_correction) same;
        no_operation = ap (λ (k : Args F). k.no_operation) same;
        metric_source =
            (chosen_iff metric_sources (line.text "--metric-source") args.metric_source).0
              (r₀ ∙ ap (λ (k : Args F). ok k.metric_source) same);
        adjustment_interval =
            (typed_iff parse_int (line.text "--adjustment-interval") args.adjustment_interval).0
              (r₁ ∙ ap (λ (k : Args F). ok k.adjustment_interval) same);
        max_gpu_budget =
            (typed_iff parse_int (line.text "--max-gpu-budget") args.max_gpu_budget).0
              (r₂ ∙ ap (λ (k : Args F). ok k.max_gpu_budget) same);
        min_replicas =
            (typed_iff parse_int (line.text "--min-replicas") args.min_replicas).0
              (r₃ ∙ ap (λ (k : Args F). ok k.min_replicas) same);
        prefill_engine_num_gpu =
            (typed_iff parse_int (line.text "--prefill-engine-num-gpu")
                args.prefill_engine_num_gpu).0
              (r₄ ∙ ap (λ (k : Args F). ok k.prefill_engine_num_gpu) same);
        decode_engine_num_gpu =
            (typed_iff parse_int (line.text "--decode-engine-num-gpu") args.decode_engine_num_gpu).0
              (r₅ ∙ ap (λ (k : Args F). ok k.decode_engine_num_gpu) same);
        ttft_sla =
            (typed_iff d.parse (line.text "--ttft-sla") args.ttft_sla).0
              (r₆ ∙ ap (λ (k : Args F). ok k.ttft_sla) same);
        itl_sla =
            (typed_iff d.parse (line.text "--itl-sla") args.itl_sla).0
              (r₇ ∙ ap (λ (k : Args F). ok k.itl_sla) same);
        load_predictor =
            (chosen_iff load_predictors (line.text "--load-predictor") args.load_predictor).0
              (r₈ ∙ ap (λ (k : Args F). ok k.load_predictor) same);
        load_prediction_window_size =
            (typed_iff parse_int (line.text "--load-prediction-window-size")
                args.load_prediction_window_size).0
              (r₉ ∙ ap (λ (k : Args F). ok k.load_prediction_window_size) same);
        planner_prometheus_port =
            (typed_iff parse_int (line.text "--planner-prometheus-port")
                args.planner_prometheus_port).0
              (r₁₀ ∙ ap (λ (k : Args F). ok k.planner_prometheus_port) same);
        log_level = accepted_choice log_levels (line.text "--log-level") r₁₁;
      }

  Spells-parse_args :
      (line : CommandLine) (args : Args F) → Spells line args → parse_args line ≡ ok args
  unfolding parse_args
  Spells-parse_args line args h =
      rw
        (
          (chosen_iff metric_sources (line.text "--metric-source") args.metric_source).1
              h.metric_source,
          (typed_iff parse_int (line.text "--adjustment-interval") args.adjustment_interval).1
              h.adjustment_interval,
          (typed_iff parse_int (line.text "--max-gpu-budget") args.max_gpu_budget).1
              h.max_gpu_budget,
          (typed_iff parse_int (line.text "--min-replicas") args.min_replicas).1 h.min_replicas,
          (typed_iff parse_int (line.text "--prefill-engine-num-gpu") args.prefill_engine_num_gpu).1
              h.prefill_engine_num_gpu,
          (typed_iff parse_int (line.text "--decode-engine-num-gpu") args.decode_engine_num_gpu).1
              h.decode_engine_num_gpu,
          (typed_iff d.parse (line.text "--ttft-sla") args.ttft_sla).1 h.ttft_sla,
          (typed_iff d.parse (line.text "--itl-sla") args.itl_sla).1 h.itl_sla,
          (chosen_iff load_predictors (line.text "--load-predictor") args.load_predictor).1
              h.load_predictor,
          (typed_iff parse_int (line.text "--load-prediction-window-size")
                args.load_prediction_window_size).1
              h.load_prediction_window_size,
          (typed_iff parse_int (line.text "--planner-prometheus-port")
                args.planner_prometheus_port).1
              h.planner_prometheus_port,
          (chosen_iff log_levels (line.text "--log-level") (line.text "--log-level")).1 h.log_level,
          h.rbg_name,
          h.rbg_namespace,
          h.prefill_role_name,
          h.decode_role_name,
          h.prometheus_endpoint,
          h.model_name,
          h.profile_results_dir,
          h.no_correction,
          h.no_operation,
        )
        refl

module _ (F : Type 0) ⦃d : Floating F⦄ where
  parse_args-OrExits : (line : CommandLine) → OrExits (parse_args {F = F} line)
  unfolding parse_args
  parse_args-OrExits line =
      bind-OrExits _ _ (chosen-OrExits metric_sources (line.text "--metric-source")) λ _.
        bind-OrExits _ _ (typed-OrExits parse_int (line.text "--adjustment-interval")) λ _.
          bind-OrExits _ _ (typed-OrExits parse_int (line.text "--max-gpu-budget")) λ _.
            bind-OrExits _ _ (typed-OrExits parse_int (line.text "--min-replicas")) λ _.
              bind-OrExits _ _ (typed-OrExits parse_int (line.text "--prefill-engine-num-gpu")) λ _.
                bind-OrExits _ _ (typed-OrExits parse_int (line.text "--decode-engine-num-gpu"))
                  λ _.
                    bind-OrExits _ _ (typed-OrExits {A = F} d.parse (line.text "--ttft-sla")) λ _.
                      bind-OrExits _ _ (typed-OrExits {A = F} d.parse (line.text "--itl-sla")) λ _.
                        bind-OrExits _ _
                          (chosen-OrExits load_predictors (line.text "--load-predictor"))
                          λ _.
                            bind-OrExits _ _
                              (typed-OrExits parse_int (line.text "--load-prediction-window-size"))
                              λ _.
                                bind-OrExits _ _
                                  (typed-OrExits parse_int (line.text "--planner-prometheus-port"))
                                  λ _.
                                    bind-OrExits _ _
                                      (chosen-OrExits log_levels (line.text "--log-level")) λ _. tt

  -- The result of reading a command line: the options that it spells out, or the exit with status 2.
  abbrev pub Reads : CommandLine → Result (Args F) → Type 0
  Reads line (ok args) = Spells line args
  Reads line (err e) = (e ≡ system_exit 2) × ((args : Args F) → ¬ Spells line args)

  -- Reading a command line gives the options that it spells out, every number converted and every
  -- choice among those offered; where it spells out none, the process exits with status 2.
  pub parse_args-Reads : (line : CommandLine) → Reads line (parse_args line)
  parse_args-Reads line = go (parse_args line) refl (parse_args-OrExits line)
    where
      go : (r : Result (Args F)) → parse_args line ≡ r → OrExits r → Reads line r
      go (ok args) same h = parse_args-Spells line args same
      go (err e) same h =
          (h, λ args spells. err-ne-ok (sym same ∙ Spells-parse_args line args spells))

  not_spelled :
      (line : CommandLine) (args : Args F)
      → line.text "--metric-source" ≡ some "dynamo"
      → ¬ Spells line args
  unfolding contains
  not_spelled line args given spells =
      true-ne-false
        (sym (subst (λ o. is_choice metric_sources o ≡ true) given spells.metric_source.1))

  -- The metric source dynamo, for which there is an adapter, ends on the command line in the exit with
  -- status 2, whatever the other options are.
  pub parse_args_refused :
      (line : CommandLine)
      → line.text "--metric-source" ≡ some "dynamo"
      → (parse_args {F = F} line ≡ err (system_exit 2))
        × (create_metrics_adapter "dynamo" ≡ ok Adapter.dynamo)
  unfolding create_metrics_adapter
  parse_args_refused line given = (go (parse_args line) refl (parse_args-Reads line), refl)
    where
      go : (r : Result (Args F)) → parse_args line ≡ r → Reads line r → r ≡ err (system_exit 2)
      go (ok args) same spells = absurd (not_spelled line args given spells)
      go (err e) same (exits, _) = ap err exits
