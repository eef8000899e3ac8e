-- ===== src/Planner/Dry.antt =====
-- A dry run that exports nothing: no adjustment of it raises.
use rbg_planner.Prelude.{
  ℤ, pos, String, Bool, true, false, Option, none, some, if◌then◌else◌, ◌≡◌, sym, List,
}
use mathlib.Core.Path.{subst}
use rbg_planner.Python.{Method, pure, ◌>>=◌}
use rbg_planner.Python.Float.{Floating}
use rbg_planner.Python.Invariant.{Preserves, if-Preserves}
use rbg_planner.Connector.{set_replicas, get_role_ready_replicas}
use rbg_planner.Planner.{
  Planner, Externals, Gauge, set_gauge, on_session, attempt, get_num_workers, is_valid,
}
use rbg_planner.Planner.Observe.{if_exporting, when_exporting}
use rbg_planner.Planner.Correct.{predict_load}
use rbg_planner.Python.Returned.{Returned, Returns, bind-Returns, if-Returns}
use rbg_planner.Planner.Rules.{attempt-Returns, update_correction_factors-Preserves}
use rbg_planner.Planner.Update.{update_correction_factors}
use rbg_planner.Planner.Adjust.{
  targets_of, try_corrections, export_load, export_replicas, requirements, apply_scaling, finish,
  scale_to_load, after_corrections, make_adjustments,
}

module _ {F W : Type 0} ⦃d : Floating F⦄ (env : Externals F W) where
  abbrev pub IsDry : Planner F W → Type 0
  IsDry s = (s.prom_metrics ≡ none) × (s.config.no_operation ≡ true)

  get_num_workers-IsDry : (name : String) → Preserves IsDry (get_num_workers env name)
  unfolding get_num_workers on_session
  get_num_workers-IsDry name s h =
      if-Preserves IsDry s.config.no_operation (pure (pos 1))
        (on_session (get_role_ready_replicas env.kubernetes name)) (λ s h. h) (λ s h. h) s h

  update_correction_factors-IsDry : Preserves IsDry (update_correction_factors env)
  unfolding set_gauge
  update_correction_factors-IsDry = update_correction_factors-Preserves env IsDry (record {
    reads = record { workers = get_num_workers-IsDry; gauge_kept = λ s gauge x h. (rw h.0, h.1) };
    p_kept = λ s x h. h;
    d_kept = λ s x h. h;
  })

  when_exporting-Returns :
      (m : Method (Planner F W) (Unit {0})) → Returns IsDry (when_exporting env m)
  unfolding when_exporting
  when_exporting-Returns m s h =
      subst (λ (o : Option (List (Gauge × F))). Returned IsDry (if_exporting env o m s)) (sym h.0) h

  apply_scaling-Returns : (r : ℤ × ℤ) → Returns IsDry (apply_scaling env r)
  unfolding apply_scaling
  apply_scaling-Returns r s h =
      subst
        (λ (b : Bool). Returned IsDry (
          (if b
              then pure tt
              else on_session (set_replicas env.kubernetes (targets_of s.config r) false))
            s))
        (sym h.1) h

  finish-Returns : (o : Option (ℤ × ℤ)) → Returns IsDry (finish env o)
  unfolding finish
  finish-Returns none s h = h
  finish-Returns (some r) s h =
      bind-Returns IsDry (when_exporting env (export_replicas env r)) (λ _. apply_scaling env r)
        (when_exporting-Returns (export_replicas env r)) (λ _. apply_scaling-Returns r) s h

  scale_to_load-Returns : (load : Option (F × F × F)) → Returns IsDry (scale_to_load env load)
  unfolding scale_to_load
  scale_to_load-Returns none s h = h
  scale_to_load-Returns (some load) s h =
      bind-Returns IsDry (when_exporting env (export_load env load))
        (λ _. attempt (λ s. (requirements env load s, s)) >>= finish env)
        (when_exporting-Returns (export_load env load))
        (λ _.
          bind-Returns IsDry (attempt (λ s. (requirements env load s, s))) (finish env)
            (attempt-Returns IsDry (λ s. (requirements env load s, s)) (λ s h. h)) finish-Returns)
        s h

  after_corrections-Returns : (o : Option (Unit {0})) → Returns IsDry (after_corrections env o)
  unfolding after_corrections
  after_corrections-Returns none s h = h
  after_corrections-Returns (some _) s h = scale_to_load-Returns (predict_load env s) s h

  try_corrections-Returns : Returns IsDry (try_corrections env)
  unfolding try_corrections
  try_corrections-Returns s h =
      if-Returns IsDry s.config.no_correction (pure (some tt))
        (attempt (update_correction_factors env)) (λ s h. h)
        (attempt-Returns IsDry (update_correction_factors env) update_correction_factors-IsDry) s h

  -- In a dry run that exports no gauges an adjustment always returns, whatever the cluster, the
  -- profile and the libraries raise, and leaves such a run.
  pub make_adjustments-Returned :
      (s : Planner F W)
      → s.prom_metrics ≡ none
      → s.config.no_operation ≡ true
      → Returned IsDry (make_adjustments env s)
  unfolding make_adjustments
  make_adjustments-Returned s quiet dry =
      if-Returns IsDry (is_valid s.last_metrics) (try_corrections env >>= after_corrections env)
        (pure tt)
        (bind-Returns IsDry (try_corrections env) (after_corrections env) try_corrections-Returns
          after_corrections-Returns)
        (λ s h. h) s (quiet, dry)
