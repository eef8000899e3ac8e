-- ===== src/Planner/Adjust.antt =====
-- `Planner.make_adjustments`.
use rbg_planner.Prelude.{ℤ, List, [], ◌∷◌, false, Option, none, some, if◌then◌else◌}
use rbg_planner.Python.{Result, ok, Method, pure, modify, ◌>>=◌, ◌>>◌}
use rbg_planner.Python.Float.{Floating, div}
use rbg_planner.Config.{PlannerConfig}
use rbg_planner.Replicas.{compute_replica_requirements}
use rbg_planner.Connector.{TargetReplica, set_replicas}
use rbg_planner.Connector.Interface.{rbg_connector}
use rbg_planner.Planner.{
  Planner, Externals, commit, predicted_request_rate, predicted_isl, predicted_osl, predicted_num_p,
  predicted_num_d, set_gauge, attempt, on_session, is_valid,
}
use rbg_planner.Planner.Observe.{when_exporting}
use rbg_planner.Planner.Correct.{predict_load}
use rbg_planner.Planner.Update.{update_correction_factors}

-- The targets of one adjustment.
unfoldable pub targets_of : {F : Type 0} → PlannerConfig F → ℤ × ℤ → List TargetReplica
targets_of config (num_p, num_d) =
    record { role_name = config.prefill_role_name; desired_replicas = num_p }
    ∷ record { role_name = config.decode_role_name; desired_replicas = num_d }
    ∷ []

module _ {F W : Type 0} ⦃d : Floating F⦄ (env : Externals F W) where
  open d use {of_int}

  -- The corrections, unless they are disabled; `none` is the early return.
  unfoldable pub try_corrections : Method (Planner F W) (Option (Unit {0}))
  unfolding attempt update_correction_factors
  try_corrections s =
      (if s.config.no_correction then pure (some tt) else attempt (update_correction_factors env)) s

  unfoldable pub export_load : F × F × F → Method (Planner F W) (Unit {0})
  unfolding set_gauge commit
  export_load (next_num_req, next_isl, next_osl) s =
      commit (div next_num_req (of_int s.config.adjustment_interval))
        (λ rate.
          set_gauge predicted_osl next_osl
            (set_gauge predicted_isl next_isl (set_gauge predicted_request_rate rate s)))
        s

  unfoldable pub export_replicas : ℤ × ℤ → Method (Planner F W) (Unit {0})
  unfolding set_gauge
  export_replicas (num_p, num_d) = do
    modify (set_gauge predicted_num_p (of_int num_p))
    modify (set_gauge predicted_num_d (of_int num_d))

  -- `self._compute_replica_requirements(...)`, on the planner's state
  unfoldable pub requirements : F × F × F → Planner F W → Result (ℤ × ℤ)
  unfolding compute_replica_requirements
  requirements (next_num_req, next_isl, next_osl) s =
      compute_replica_requirements env.numerics s.config s.prefill_interpolator
        s.decode_interpolator s.p_correction_factor s.d_correction_factor next_num_req next_isl
        next_osl

  unfoldable pub apply_scaling : ℤ × ℤ → Method (Planner F W) (Unit {0})
  unfolding on_session set_replicas targets_of
  apply_scaling replicas s =
      (if s.config.no_operation
          then pure tt
          else on_session
              ((rbg_connector env.kubernetes).set_replicas (targets_of s.config replicas) false))
        s

  -- From the computed replicas on; `none` is the exception that was caught.
  unfoldable pub finish : Option (ℤ × ℤ) → Method (Planner F W) (Unit {0})
  unfolding when_exporting export_replicas apply_scaling
  finish none = pure tt
  finish (some replicas) = do when_exporting env (export_replicas replicas); apply_scaling replicas

  -- From the predicted load on.
  unfoldable pub scale_to_load : Option (F × F × F) → Method (Planner F W) (Unit {0})
  unfolding when_exporting export_load requirements finish attempt
  scale_to_load none = pure tt
  scale_to_load (some load) = do
    when_exporting env (export_load load)
    replicas ← attempt (λ s. (requirements load s, s))
    finish replicas

  -- From the corrections on.
  unfoldable pub after_corrections : Option (Unit {0}) → Method (Planner F W) (Unit {0})
  unfolding predict_load scale_to_load
  after_corrections none s = (ok tt, s)
  after_corrections (some _) s = scale_to_load (predict_load env s) s

  unfoldable pub make_adjustments : Method (Planner F W) (Unit {0})
  unfolding is_valid try_corrections after_corrections
  make_adjustments s =
      (if is_valid s.last_metrics then try_corrections >>= after_corrections else pure tt) s
