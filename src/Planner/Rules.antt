-- ===== src/Planner/Rules.antt =====
-- Invariants of the planner, and calls of it that return: the rules for the ways in which its methods
-- are built, and the correction factors as the first method that they serve.
pub mod Observe
pub mod Adjust
pub mod Run
pub mod Local
use rbg_planner.Prelude.{ℤ, pos, eq_ℤ, String, List, Option, none, some}
use rbg_planner.Python.{Result, ok, err, Method, pure, modify, ◌>>◌}
use rbg_planner.Python.Float.{Floating}
use rbg_planner.Python.Invariant.{Preserves, bind-Preserves, if-Preserves}
use rbg_planner.Python.Returned.{Returned, Returns}
use rbg_planner.Planner.{
  Planner, Externals, Gauge, commit, set_gauge, caught, attempt, get_num_workers,
}
use rbg_planner.Planner.Observe.{if_exporting, when_exporting}
use rbg_planner.Planner.Correct.{
  update_p_correction, update_d_correction, export_corrections, p_factor, d_factor,
}
use rbg_planner.Planner.Update.{correct, correct_if_workers, update_correction_factors}

module _ {F W : Type 0} (I : Planner F W → Type 0) where
  pub attempt-Preserves :
      {A : Type 0} (m : Method (Planner F W) A) → Preserves I m → Preserves I (attempt m)
  unfolding attempt
  attempt-Preserves {A} m k s h = go (m s) (k s h)
    where
      go : (x : Result A × Planner F W) → I x.1 → I (caught x).1
      go (ok a, s') p = p
      go (err e, s') p = p

  -- Under `try` a call returns that only keeps the invariant.
  pub attempt-Returns :
      {A : Type 0} (m : Method (Planner F W) A) → Preserves I m → Returns I (attempt m)
  unfolding attempt
  attempt-Returns {A} m k s h = go (m s) (k s h)
    where
      go : (x : Result A × Planner F W) → I x.1 → Returned I (caught x)
      go (ok a, s') p = p
      go (err e, s') p = p

  pub commit-Preserves :
      {A : Type 0} (r : Result A) (store : A → Planner F W) (s : Planner F W)
      → I s
      → ((a : A) → I (store a))
      → I (commit r store s).1
  unfolding commit
  commit-Preserves (ok a) store s h k = k a
  commit-Preserves (err e) store s h k = h

module _ {F W : Type 0} ⦃d : Floating F⦄ (env : Externals F W) (I : Planner F W → Type 0) where
  pub when_exporting-Preserves :
      (m : Method (Planner F W) (Unit {0})) → Preserves I m → Preserves I (when_exporting env m)
  unfolding when_exporting
  when_exporting-Preserves m k s h = go s.prom_metrics
    where
      go : (o : Option (List (Gauge × F))) → I (if_exporting env o m s).1
      go none = h
      go (some log) = k s h

  -- An invariant that counting the workers keeps, and every setting of a gauge.
  pub record KeptByReads : Type 0 where
    pub workers : (name : String) → Preserves I (get_num_workers env name)
    pub gauge_kept : (s : Planner F W) (gauge : Gauge) (x : F) → I s → I (set_gauge gauge x s)

  -- An invariant that the writes to the correction factors keep too.
  pub record KeptByCorrections : Type 0 where
    pub reads : KeptByReads
    pub p_kept : (s : Planner F W) (x : F) → I s → I (record s { p_correction_factor = x })
    pub d_kept : (s : Planner F W) (x : F) → I s → I (record s { d_correction_factor = x })

  module _ (kept : KeptByCorrections) where
    correct-Preserves : (num_d : ℤ) → Preserves I (correct env num_d)
    unfolding correct update_p_correction update_d_correction export_corrections
    correct-Preserves num_d =
        bind-Preserves I (update_p_correction env >> update_d_correction env num_d)
          (λ _. modify (export_corrections env))
          (bind-Preserves I (update_p_correction env) (λ _. update_d_correction env num_d)
            (λ s h. commit-Preserves I (p_factor env s) _ s h (λ x. kept.p_kept s x h))
            (λ _ s h. commit-Preserves I (d_factor env num_d s) _ s h (λ x. kept.d_kept s x h)))
          (λ _ s h. kept.reads.gauge_kept _ _ _ (kept.reads.gauge_kept s _ _ h))

    pub update_correction_factors-Preserves : Preserves I (update_correction_factors env)
    unfolding update_correction_factors correct_if_workers
    update_correction_factors-Preserves s h =
        bind-Preserves I (get_num_workers env s.config.decode_role_name) (correct_if_workers env)
          (kept.reads.workers s.config.decode_role_name)
          (λ num_d.
            if-Preserves I (eq_ℤ num_d (pos 0)) (pure tt) (correct env num_d) (λ s h. h)
              (correct-Preserves num_d))
          s h
