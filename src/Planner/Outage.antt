-- ===== src/Planner/Outage.antt =====
-- What the planner makes of a Prometheus server that answers no query.
use rbg_planner.Prelude.{
  ℤ, pos, String, Option, none, some, true, false, ◌≡◌, refl, ap, ◌∙◌, if◌then◌else◌,
}
use Prim.Native.String.{◌++◌ as append}
use text.Mathlib.Text.{◌==◌ as str_eq}
use rbg_planner.Python.Text.{int_text}
use mathlib.Core.Path.{subst}
use rbg_planner.Python.{Error, Result, ok, err, ◌>>=◌}
use rbg_planner.Python.Returns.{>>=-returned}
use rbg_planner.Python.Float.{Floating}
use rbg_planner.Metrics.{
  Prometheus, Adapter, sglang, vllm, dynamo, patio, avg_tokens, avg_of, increase_total,
  get_avg_ttft, get_avg_itl, get_request_count, get_avg_request_duration, get_avg_isl, get_avg_osl,
}
use rbg_planner.Metrics.Queries.{avg_of-no_data}
use rbg_planner.Metrics.Interface.{prometheus_adapter}
use rbg_planner.Python.Invariant.{Preserves}
use rbg_planner.Planner.Rules.{when_exporting-Preserves}
use rbg_planner.Planner.Rules.Observe.{export_observation-Preserves}
use rbg_planner.Planner.{
  Planner, Externals, Metrics, set_gauge, on_world, get_num_workers, is_valid,
}
use rbg_planner.Planner.Observe.{
  Observation, query_all, query_metrics, store_observation, export_observation, observe_load,
  observe_metrics,
}

-- No query is answered.
abbrev pub IsDown : {W : Type 0} → Prometheus W → Type 0
IsDown {W} prom = (query : String) (w : W) → (e : Error) × ((prom.custom_query query w).0 ≡ err e)

module _ {F W : Type 0} ⦃d : Floating F⦄ where
  open d use {of_int, mul, is_nan}

  module _ (prom : Prometheus W) (down : IsDown prom) where
    abbrev zero_float : F
    zero_float = of_int (pos 0)

    avg_of-down :
        (query : String) (w : W) → avg_of {F = F} (prom.custom_query query w).0 ≡ zero_float
    avg_of-down query w =
        let (e, same) = down query w in ap (avg_of {F = F}) same ∙ avg_of-no_data (err e) tt

    increase_total-down :
        (query : String) (w : W) → increase_total {F = F} (prom.custom_query query w).0 ≡ zero_float
    unfolding increase_total
    increase_total-down query w = let (e, same) = down query w in rw same refl

    avg_tokens-down :
        (a b : Adapter) (tokens interval : String) (model : Option String) (w : W)
        → (avg_tokens {F = F} prom a b tokens interval model w).0 ≡ zero_float
    avg_tokens-down a sglang tokens interval model w = avg_of-down _ w
    avg_tokens-down a vllm tokens interval model w = avg_of-down _ w
    avg_tokens-down a dynamo tokens interval model w = avg_of-down _ w
    avg_tokens-down a patio tokens interval model w = avg_of-down _ w

module _ {F W : Type 0} ⦃d : Floating F⦄ (env : Externals F W) where
  open d use {of_int, mul, is_nan}

  -- Every metric is there, and zero.
  pub record IsSilent (m : Metrics F) : Type 0 where
    pub ttft : m.ttft ≡ some (mul (of_int (pos 0)) (of_int (pos 1000)))
    pub itl : m.itl ≡ some (mul (of_int (pos 0)) (of_int (pos 1000)))
    pub num_req : m.num_req ≡ some (of_int (pos 0))
    pub isl : m.isl ≡ some (of_int (pos 0))
    pub osl : m.osl ≡ some (of_int (pos 0))
    pub request_duration : m.request_duration ≡ some (of_int (pos 0))

  abbrev Silenced : Planner F W → Type 0
  Silenced s = IsSilent s.last_metrics

  valid_of :
      (m : Metrics F)
      → IsSilent m
      → is_nan (of_int (pos 0)) ≡ false
      → mul (of_int (pos 0)) (of_int (pos 1000)) ≡ of_int (pos 0)
      → is_valid m ≡ true
  unfolding is_valid
  valid_of m h proper zero_times = rw (h.ttft, h.itl, h.isl, h.osl, zero_times, proper) refl

  module _ (down : IsDown env.prometheus) where
    stored-IsSilent :
        (client : Adapter) (interval : String) (model : Option String) (w : W) (s : Planner F W)
        → Silenced (
            store_observation env
              (query_all env (prometheus_adapter env.prometheus client) interval model w).0
              s)
    unfolding store_observation query_all get_avg_ttft get_avg_itl get_request_count
        get_avg_request_duration get_avg_isl get_avg_osl
    stored-IsSilent client interval model w s = record {
      ttft = ap (λ k. some (mul k (of_int (pos 1000)))) (avg_of-down env.prometheus down _ _);
      itl = ap (λ k. some (mul k (of_int (pos 1000)))) (avg_of-down env.prometheus down _ _);
      num_req = ap some (increase_total-down env.prometheus down _ _);
      isl = ap some (avg_tokens-down env.prometheus down client client _ interval model _);
      osl = ap some (avg_tokens-down env.prometheus down client client _ interval model _);
      request_duration = ap some (avg_of-down env.prometheus down _ _);
    }

    exports-Silenced :
        (p n : ℤ) (o : Observation env) → Preserves Silenced (export_observation env p n o)
    unfolding set_gauge
    exports-Silenced p n o =
        export_observation-Preserves env Silenced
          (record { gauge_kept = λ s gauge x h. h; hours_kept = λ s x h. h }) p n o

    observe_load-Silenced : (p n : ℤ) (s : Planner F W) → Silenced (observe_load env p n s).1
    unfolding observe_load query_metrics on_world
    observe_load-Silenced p n s =
        let name = s.config.model_name in
        let interval = append (int_text s.config.adjustment_interval) "s" in
        let model = if str_eq name "" then none else some name in
        let (o, w) =
          query_all env (prometheus_adapter env.prometheus s.metrics_client) interval model
            s.session.world in
        let asked = record s { session = record s.session { world = w } } in
        when_exporting-Preserves env Silenced (export_observation env p n o)
          (exports-Silenced p n o) (store_observation env o asked)
          (stored-IsSilent s.metrics_client interval model s.session.world asked)

    -- Where the server answers no query, an observation that returns has every metric at zero and counts
    -- as valid, if zero is a number and zero times a thousand is zero: the adjustment goes on with it.
    pub observe_metrics-IsSilent :
        (s : Planner F W) {s' : Planner F W}
        → is_nan (of_int (pos 0)) ≡ false
        → mul (of_int (pos 0)) (of_int (pos 1000)) ≡ of_int (pos 0)
        → observe_metrics env s ≡ (ok tt, s')
        → IsSilent s'.last_metrics × (is_valid s'.last_metrics ≡ true)
    unfolding observe_metrics
    observe_metrics-IsSilent s {s'} proper zero_times e =
        let (p, middle, _, rest) =
          >>=-returned (get_num_workers env s.config.prefill_role_name)
            (λ p. get_num_workers env s.config.decode_role_name >>= observe_load env p) s e in
        let (n, before, _, loaded) =
          >>=-returned (get_num_workers env s.config.decode_role_name) (observe_load env p) middle
            rest in
        let silent =
          subst (λ (x : Result (Unit {0}) × Planner F W). Silenced x.1) loaded
            (observe_load-Silenced p n before) in
        (silent, valid_of s'.last_metrics silent proper zero_times)
