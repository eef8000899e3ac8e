-- ===== src/Planner/Rules/Adjust.antt =====
-- Invariants of the planner through `make_adjustments`.
use rbg_planner.Prelude.{ℤ, Option, none, some, ◌≡◌, refl}
use rbg_planner.Python.{Result, ok, err, pure, ◌>>=◌}
use rbg_planner.Python.Float.{Floating, div}
use rbg_planner.Python.Invariant.{Preserves, bind-Preserves, if-Preserves}
use rbg_planner.Planner.{Planner, Externals, caught, attempt, is_valid}
use rbg_planner.Planner.Observe.{when_exporting}
use rbg_planner.Planner.Correct.{predict_load}
use rbg_planner.Planner.Adjust.{
  try_corrections, export_load, export_replicas, requirements, apply_scaling, finish, scale_to_load,
  after_corrections, make_adjustments,
}
use rbg_planner.Planner.Rules.{commit-Preserves, when_exporting-Preserves, KeptByReads}

module _ {F W : Type 0} ⦃d : Floating F⦄ (env : Externals F W) (I : Planner F W → Type 0) where
  -- An invariant that the corrections keep, and scaling to what a state with it requires.
  pub record KeptByAdjustment : Type 0 where
    pub reads : KeptByReads env I
    pub corrected : Preserves I (try_corrections env)
    pub scaled :
        (load : F × F × F) (s : Planner F W) {r : ℤ × ℤ}
        → I s
        → requirements env load s ≡ ok r
        → Preserves I (apply_scaling env r)

  module _ (kept : KeptByAdjustment) where
    open kept.reads use {gauge_kept}

    export_load-Preserves : (load : F × F × F) → Preserves I (export_load env load)
    unfolding export_load
    export_load-Preserves (num_req, isl, osl) s h =
        commit-Preserves I (div num_req (d.of_int s.config.adjustment_interval)) _ s h
          (λ rate. gauge_kept _ _ _ (gauge_kept _ _ _ (gauge_kept s _ rate h)))

    export_replicas-Preserves : (r : ℤ × ℤ) → Preserves I (export_replicas env r)
    unfolding export_replicas
    export_replicas-Preserves (p, n) s h = gauge_kept _ _ _ (gauge_kept s _ _ h)

    finish-Preserves :
        (r : ℤ × ℤ) → Preserves I (apply_scaling env r) → Preserves I (finish env (some r))
    unfolding finish
    finish-Preserves r scaled =
        bind-Preserves I (when_exporting env (export_replicas env r)) (λ _. apply_scaling env r)
          (when_exporting-Preserves env I (export_replicas env r) (export_replicas-Preserves r))
          (λ _. scaled)

    -- The computation reads the state only, and what it returns may be written.
    compute_and_finish-Preserves :
        (load : F × F × F)
        → Preserves I (attempt (λ s. (requirements env load s, s)) >>= finish env)
    unfolding attempt finish
    compute_and_finish-Preserves load s h = go (requirements env load s) refl
      where
        go :
            (x : Result (ℤ × ℤ))
            → requirements env load s ≡ x
            → I (◌>>=◌ {A = Option (ℤ × ℤ)} {B = Unit {0}} (λ _. caught (x, s)) (finish env) s).1
        go (ok r) computed = finish-Preserves r (kept.scaled load s h computed) s h
        go (err e) computed = h

    scale_to_load-Preserves : (load : Option (F × F × F)) → Preserves I (scale_to_load env load)
    unfolding scale_to_load
    scale_to_load-Preserves none s h = h
    scale_to_load-Preserves (some load) s h =
        bind-Preserves I (when_exporting env (export_load env load))
          (λ _. attempt (λ s. (requirements env load s, s)) >>= finish env)
          (when_exporting-Preserves env I (export_load env load) (export_load-Preserves load))
          (λ _. compute_and_finish-Preserves load) s h

    after_corrections-Preserves : (o : Option (Unit {0})) → Preserves I (after_corrections env o)
    unfolding after_corrections
    after_corrections-Preserves none s h = h
    after_corrections-Preserves (some _) s h = scale_to_load-Preserves (predict_load env s) s h

    pub make_adjustments-Preserves : Preserves I (make_adjustments env)
    unfolding make_adjustments
    make_adjustments-Preserves s h =
        if-Preserves I (is_valid s.last_metrics) (try_corrections env >>= after_corrections env)
          (pure tt)
          (bind-Preserves I (try_corrections env) (after_corrections env) kept.corrected
            after_corrections-Preserves)
          (λ s h. h) s h
