-- ===== src/Planner/Writes.antt =====
-- What a planner can do to the world, adjustment by adjustment: a predicate that holds before holds
-- after, if the calls keep it.
use rbg_planner.Prelude.{
  ℤ, ◌≤ℤ◌, All, Bool, true, false, some, if◌then◌else◌, ◌≡◌, ◌⊎◌, inl, inr, sym, true-ne-false,
  Bool-cases, ◌∙◌, ap,
}
use mathlib.Core.Path.{subst}
use rbg_planner.Python.{ok, Method, pure}
use rbg_planner.Python.Float.{Floating}
use rbg_planner.Python.Invariant.{Preserves, if-Preserves}
use rbg_planner.Config.{PlannerConfig}
use rbg_planner.Replicas.Limits.{IsConsistent, AboveMin, compute-AboveMin}
use rbg_planner.Connector.{Session, set_replicas}
use rbg_planner.Connector.Safety.{KeptBy, set_replicas-Keeps}
use rbg_planner.Planner.{Planner, Externals, on_session, attempt}
use rbg_planner.Planner.Update.{update_correction_factors}
use rbg_planner.Planner.Adjust.{
  targets_of, try_corrections, requirements, apply_scaling, make_adjustments,
}
use rbg_planner.Planner.Rules.{attempt-Preserves}
use rbg_planner.Planner.Rules.Adjust.{make_adjustments-Preserves}
use rbg_planner.Planner.Reads.{
  QuietBy, Inv, on_session-Inv, reads-Inv, update_correction_factors-Inv,
}

module _ {F W : Type 0} ⦃d : Floating F⦄ (env : Externals F W) (P : W → Type 0) (Q : ℤ → Type 0)
    (kept : KeptBy env.kubernetes P Q) (quiet : QuietBy env P) (config : PlannerConfig F)
    (consistent : IsConsistent config)
    (allowed : (config.no_operation ≡ true) ⊎ ((n : ℤ) → config.min_replicas ≤ℤ n → Q n)) where
  abbrev Keep : {A : Type 0} → Method (Planner F W) A → Type 0
  Keep m = Preserves (Inv env P Q kept quiet config) m

  targets-All :
      (q : (n : ℤ) → config.min_replicas ≤ℤ n → Q n) (c : PlannerConfig F) (r : ℤ × ℤ)
      → AboveMin config r
      → All (λ t. Q t.desired_replicas) (targets_of c r)
  unfolding targets_of
  targets-All q c (p, n) (above_p, above_n) = (q p above_p, (q n above_n, tt))

  apply_scaling-Inv : (r : ℤ × ℤ) → AboveMin config r → Keep (apply_scaling env r)
  unfolding apply_scaling
  apply_scaling-Inv r above s (p, e) = elim (Bool-cases s.config.no_operation) [
    | inl dry ↦ subst (λ (b : Bool). Invariant (chosen b s).1) (sym dry) (p, e)
    | inr live ↦
        subst (λ (b : Bool). Invariant (chosen b s).1) (sym live)
          (on_session-Inv env P Q kept quiet config scale
            (set_replicas-Keeps env.kubernetes P Q kept (targets_of s.config r) false
              (elim allowed [
                | inl dry ↦ absurd (
                    true-ne-false
                      (sym dry ∙ sym (ap (λ (c : PlannerConfig F). c.no_operation) e) ∙ live))
                | inr q ↦ targets-All q s.config r above
              ]))
            s (p, e))
  ]
    where
      Invariant : Planner F W → Type 0
      Invariant = Inv env P Q kept quiet config

      scale : Method (Session W) (Unit {0})
      scale = set_replicas env.kubernetes (targets_of s.config r) false

      chosen : Bool → Method (Planner F W) (Unit {0})
      chosen b = if b then pure tt else on_session scale

  requirements-AboveMin :
      (load : F × F × F) (s : Planner F W) {r : ℤ × ℤ}
      → s.config ≡ config
      → requirements env load s ≡ ok r
      → AboveMin config r
  unfolding requirements
  requirements-AboveMin (num_req, isl, osl) s {r} e computed =
      subst (λ (c : PlannerConfig F). AboveMin c r) e
        (compute-AboveMin env.numerics s.config s.prefill_interpolator s.decode_interpolator
          s.p_correction_factor s.d_correction_factor num_req isl osl
          (subst (λ (c : PlannerConfig F). IsConsistent c) (sym e) consistent) computed)

  try_corrections-Inv : Keep (try_corrections env)
  unfolding try_corrections
  try_corrections-Inv s h =
      if-Preserves (Inv env P Q kept quiet config) s.config.no_correction (pure (some tt))
        (attempt (update_correction_factors env)) (λ s h. h)
        (attempt-Preserves (Inv env P Q kept quiet config) (update_correction_factors env)
          (update_correction_factors-Inv env P Q kept quiet config))
        s h

  -- Whatever holds of the world before an adjustment holds after it, if reading keeps it, and if
  -- so does every write of at least the minimum of replicas or the planner runs dry.
  pub make_adjustments-Inv : Keep (make_adjustments env)
  make_adjustments-Inv = make_adjustments-Preserves env (Inv env P Q kept quiet config) (record {
    reads = reads-Inv env P Q kept quiet config;
    corrected = try_corrections-Inv;
    scaled = λ load s h computed. apply_scaling-Inv _ (requirements-AboveMin load s h.1 computed);
  })
