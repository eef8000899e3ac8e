-- ===== src/Planner/Steady.antt =====
-- A planner alone on its cluster: the steps of an adjustment that write nothing to it.
use rbg_planner.Prelude.{
  ℤ, pos, String, List, false, Option, none, some, if◌then◌else◌, Bool, ◌≡◌, refl, ap, ◌∙◌,
}
use rbg_planner.Python.{Result, ok, err, zero_division, pure, >>=-ok}
use rbg_planner.Python.Float.{Floating}
use rbg_planner.Python.Invariant.{Preserves, if-Preserves}
use rbg_planner.Python.Returned.{Returns, if-Returns}
use rbg_planner.Config.{PlannerConfig}
use rbg_planner.Cluster.{Rbg, ready_replicas_of}
use rbg_planner.Connector.{Connector, Session, get_rbg, get_role_ready_replicas}
use rbg_planner.Connector.Alone.{in_world, IsAlone, get_rbg-in_world}
use rbg_planner.Planner.{
  Planner, Externals, Gauge, on_session, get_num_workers, set_gauge, commit, predicted_request_rate,
  predicted_isl, predicted_osl,
}
use rbg_planner.Planner.Observe.{if_exporting, when_exporting}
use rbg_planner.Planner.Update.{update_correction_factors}
use rbg_planner.Planner.Adjust.{try_corrections, export_load, export_replicas}
use rbg_planner.Planner.Rules.{attempt-Returns, update_correction_factors-Preserves}

module _ {F W : Type 0} ⦃d : Floating F⦄ (env : Externals F W) where
  -- A planner whose gauges only have changed.
  abbrev pub with_gauges : Option (List (Gauge × F)) → Planner F W → Planner F W
  with_gauges gauges s = record s { prom_metrics = gauges }

  -- The export of the load returns where the interval is not the float zero.
  pub export_load-gauges :
      (load : F × F × F) (s : Planner F W)
      → d.eq (d.of_int s.config.adjustment_interval) (d.of_int (pos 0)) ≡ false
      → (gauges : Option (List (Gauge × F))) × (when_exporting env (export_load env load) s
          ≡ (ok tt, with_gauges gauges s))
  unfolding when_exporting export_load commit set_gauge
  export_load-gauges (num_req, isl, osl) s nonzero = go s.prom_metrics
    where
      exported : Bool → Result (Unit {0}) × Planner F W
      exported b =
          commit
            (if b
              then err zero_division
              else ok (d.quot num_req (d.of_int s.config.adjustment_interval)))
            (λ rate.
              set_gauge predicted_osl osl
                (set_gauge predicted_isl isl (set_gauge predicted_request_rate rate s)))
            s

      go :
          (o : Option (List (Gauge × F)))
          → (gauges : Option (List (Gauge × F))) × (if_exporting env o
                (export_load env (num_req, isl, osl))
                s
              ≡ (ok tt, with_gauges gauges s))
      go none = (s.prom_metrics, refl)
      go (some log) = (_, ap exported nonzero)

  pub export_replicas-gauges :
      (r : ℤ × ℤ) (s : Planner F W)
      → (gauges : Option (List (Gauge × F))) × (when_exporting env (export_replicas env r) s
          ≡ (ok tt, with_gauges gauges s))
  unfolding when_exporting export_replicas set_gauge
  export_replicas-gauges r s = go s.prom_metrics
    where
      go :
          (o : Option (List (Gauge × F)))
          → (gauges : Option (List (Gauge × F))) × (if_exporting env o (export_replicas env r) s
              ≡ (ok tt, with_gauges gauges s))
      go none = (s.prom_metrics, refl)
      go (some log) = (_, refl)

  module _ (object : W → Rbg) (c : Connector) (alone : IsAlone env.kubernetes object c) where
    -- The planner at a world, with these settings.
    abbrev pub IsAt : PlannerConfig F → W → Planner F W → Type 0
    IsAt config w s =
        ((q : Option Rbg) × (s.session ≡ in_world env.kubernetes object c q w))
        × (s.config ≡ config)

    counted :
        (name : String) (q : Option Rbg) (w : W)
        → get_role_ready_replicas env.kubernetes name (in_world env.kubernetes object c q w) ≡ (
          ok (ready_replicas_of (object w) name),
          in_world env.kubernetes object c (some (object w)) w,
        )
    unfolding get_role_ready_replicas
    counted name q w =
        >>=-ok (get_rbg env.kubernetes) (λ rbg. pure (ready_replicas_of rbg name))
          (in_world env.kubernetes object c q w)
          (get_rbg-in_world env.kubernetes object c alone q w)

    get_num_workers-IsAt :
        (config : PlannerConfig F) (w : W) (name : String)
        → Preserves (IsAt config w) (get_num_workers env name)
    unfolding get_num_workers on_session
    get_num_workers-IsAt config w name s ((q, at), same) =
        if-Preserves (IsAt config w) s.config.no_operation (pure (pos 1))
          (on_session (get_role_ready_replicas env.kubernetes name)) (λ s h. h)
          (λ t h. (
            (
              some (object w),
              ap (λ k. (get_role_ready_replicas env.kubernetes name k).1) h.0.1
                  ∙ ap (λ (x : Result ℤ × Session W). x.1) (counted name h.0.0 w),
            ),
            h.1,
          ))
          s ((q, at), same)

    -- The corrections return, and write nothing to the cluster.
    pub try_corrections-IsAt :
        (config : PlannerConfig F) (w : W) → Returns (IsAt config w) (try_corrections env)
    unfolding try_corrections set_gauge
    try_corrections-IsAt config w s h =
        if-Returns (IsAt config w) s.config.no_correction (pure (some tt)) _ (λ s h. h)
          (attempt-Returns (IsAt config w) (update_correction_factors env) (
            update_correction_factors-Preserves env (IsAt config w) (record {
              reads = record {
                workers = get_num_workers-IsAt config w;
                gauge_kept = λ s gauge x h. h;
              };
              p_kept = λ s x h. h;
              d_kept = λ s x h. h;
            })))
          s h
