-- ===== src/Planner/Create.antt =====
-- `Planner.__init__`, from the settings, the content of the service account's file, the files of
-- the profile directories, the time, and whether the server of the planner's own gauges could be
-- started.
use rbg_planner.Prelude.{
  pos, ltb_ℤ, String, [], Bool, Option, none, some, if◌then◌else◌, ◌&&◌, ◌≡◌, ap, sym,
}
use rbg_planner.Python.{Result, ok, ok-injective}
use rbg_planner.Python.Pure.{◌>>=◌, >>=-eq-ok}
use rbg_planner.Python.Float.{Floating}
use rbg_planner.Config.{PlannerConfig}
use rbg_planner.Predictor.{Predictor, create_predictor}
use rbg_planner.Interpolation.{
  Numerics, PrefillInterpolator, DecodeInterpolator, create_prefill, create_decode,
}
use rbg_planner.Connector.{create_connector}
use rbg_planner.Metrics.{Adapter, create_metrics_adapter}
use rbg_planner.Profile.{ProfileFiles, load_prefill, load_decode}
use rbg_planner.Planner.{Planner, Externals, Metrics}

-- `class Metrics` with its defaults
unfoldable pub no_metrics : {F : Type 0} → Metrics F
no_metrics = record {
  ttft = none;
  itl = none;
  num_req = none;
  isl = none;
  osl = none;
  request_duration = none;
}

module _ {F W : Type 0} ⦃d : Floating F⦄ (numerics : Numerics F) where
  open d use {of_int}

  -- The fields, once the parts are there.
  abbrev pub new_planner :
      PlannerConfig F
      → Option String
      → F
      → Bool
      → W
      → Adapter
      → Predictor F
      → PrefillInterpolator F
      → DecodeInterpolator F
      → Planner F W
  new_planner config file time started world metrics_client predictor prefill decode = record {
    config = config;
    session = record {
      connector =
          create_connector file config.rbg_name (some config.rbg_namespace) config.prefill_role_name
            config.decode_role_name;
      world = world;
    };
    metrics_client = metrics_client;
    num_req_predictor = predictor;
    isl_predictor = predictor;
    osl_predictor = predictor;
    prefill_interpolator = prefill;
    decode_interpolator = decode;
    last_metrics = no_metrics;
    last_adjustment_time = time;
    p_correction_factor = of_int (pos 1);
    d_correction_factor = of_int (pos 1);
    cumulative_gpu_hours = of_int (pos 0);
    prom_metrics =
        if ltb_ℤ (pos 0) config.planner_prometheus_port && started then some [] else none;
  }

  unfoldable pub create_planner :
      PlannerConfig F → Option String → ProfileFiles F → F → Bool → W → Result (Planner F W)
  unfolding create_connector create_metrics_adapter create_predictor create_prefill create_decode
      load_prefill load_decode no_metrics
  create_planner config file profiles time started world = do
    metrics_client ← create_metrics_adapter config.metric_source
    predictor ← create_predictor config.load_predictor config.load_prediction_window_size
    prefill_raw ← load_prefill (some config.profile_results_dir) profiles none
    prefill ← create_prefill numerics prefill_raw
    decode_raw ← load_decode (some config.profile_results_dir) profiles none
    decode ← create_decode numerics 100 decode_raw
    ok (new_planner config file time started world metrics_client predictor prefill decode)

module _ {F W : Type 0} ⦃d : Floating F⦄ (env : Externals F W) where
  -- A planner that was created has these fields.
  create_planner-new :
      (config : PlannerConfig F) (file : Option String) (profiles : ProfileFiles F) (time : F)
      (started : Bool) (world : W) {s : Planner F W}
      → create_planner env.numerics config file profiles time started world ≡ ok s
      → (adapter : Adapter) × (predictor : Predictor F) × (prefill : PrefillInterpolator F)
        × (decode : DecodeInterpolator F) × (new_planner env.numerics config file time started world
              adapter predictor prefill decode
            ≡ s)
  unfolding create_planner
  create_planner-new config file profiles time started world {s} e =
      let (adapter, _, e₁) = >>=-eq-ok (create_metrics_adapter config.metric_source) _ e in
      let (predictor, _, e₂) =
        >>=-eq-ok (create_predictor config.load_predictor config.load_prediction_window_size) _
          e₁ in
      let (prefill_raw, _, e₃) =
        >>=-eq-ok (load_prefill (some config.profile_results_dir) profiles none) _ e₂ in
      let (prefill, _, e₄) = >>=-eq-ok (create_prefill env.numerics prefill_raw) _ e₃ in
      let (decode_raw, _, e₅) =
        >>=-eq-ok (load_decode (some config.profile_results_dir) profiles none) _ e₄ in
      let (decode, _, e₆) = >>=-eq-ok (create_decode env.numerics 100 decode_raw) _ e₅ in
      (adapter, predictor, prefill, decode, ok-injective _ s e₆)

  pub create_planner-factors :
      (config : PlannerConfig F) (file : Option String) (profiles : ProfileFiles F) (time : F)
      (started : Bool) (world : W) {s : Planner F W}
      → create_planner env.numerics config file profiles time started world ≡ ok s
      → (s.p_correction_factor ≡ d.of_int (pos 1)) × (s.d_correction_factor ≡ d.of_int (pos 1))
  create_planner-factors config file profiles time started world e =
      let (_, _, _, _, same) = create_planner-new config file profiles time started world e in
      (
        sym (ap (λ (k : Planner F W). k.p_correction_factor) same),
        sym (ap (λ (k : Planner F W). k.d_correction_factor) same),
      )

  pub create_planner-session :
      (config : PlannerConfig F) (file : Option String) (profiles : ProfileFiles F) (time : F)
      (started : Bool) (world : W) {s : Planner F W}
      → create_planner env.numerics config file profiles time started world ≡ ok s
      → (s.config ≡ config) × (s.session.world ≡ world)
  create_planner-session config file profiles time started world e =
      let (_, _, _, _, same) = create_planner-new config file profiles time started world e in
      (
        sym (ap (λ (k : Planner F W). k.config) same),
        sym (ap (λ (k : Planner F W). k.session.world) same),
      )
