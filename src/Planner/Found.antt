-- ===== src/Planner/Found.antt =====
-- An adjustment that finds what it needs, as one call of `_apply_scaling`.
use rbg_planner.Prelude.{
  ℤ, pos, List, Bool, true, false, Option, some, if◌then◌else◌, ◌≡◌, inl, inr, Bool-cases, ap, ◌∙◌,
}
use rbg_planner.Python.{Result, ok, err-ne-ok, pure, ◌>>=◌, >>=-ok}
use rbg_planner.Python.Pure.{>>=-eq-ok}
use rbg_planner.Python.Float.{Floating, div}
use rbg_planner.Config.{PlannerConfig}
use rbg_planner.Replicas.{compute_replica_requirements, prefill_demand}
use rbg_planner.Planner.{Planner, Externals, Gauge, attempt, caught, is_valid}
use rbg_planner.Planner.Observe.{when_exporting}
use rbg_planner.Planner.Correct.{predict_load}
use rbg_planner.Planner.Adjust.{
  try_corrections, export_load, export_replicas, requirements, apply_scaling, finish, scale_to_load,
  after_corrections, make_adjustments,
}
use rbg_planner.Planner.Steady.{with_gauges, export_load-gauges, export_replicas-gauges}

module _ {F W : Type 0} ⦃d : Floating F⦄ (env : Externals F W) where
  -- The interval is no float zero.
  abbrev pub IsLasting : PlannerConfig F → Type 0
  IsLasting config = d.eq (d.of_int config.adjustment_interval) (d.of_int (pos 0)) ≡ false

  div-ok-nonzero : (x y : F) {z : F} → div x y ≡ ok z → d.eq y (d.of_int (pos 0)) ≡ false
  div-ok-nonzero x y e = elim (Bool-cases (d.eq y (d.of_int (pos 0)))) [
    | inl zero_divisor ↦ absurd (err-ne-ok (rw zero_divisor at e))
    | inr nonzero ↦ nonzero
  ]

  -- Requirements are only computed of intervals that are no float zero.
  requirements-IsLasting :
      (load : F × F × F) (s : Planner F W) {r : ℤ × ℤ}
      → requirements env load s ≡ ok r
      → IsLasting s.config
  unfolding requirements compute_replica_requirements prefill_demand
  requirements-IsLasting (num_req, isl, osl) s e =
      let (_, demanded, _) =
        >>=-eq-ok (prefill_demand s.config s.prefill_interpolator s.p_correction_factor num_req isl)
          _ e in
      let (_, divided, _) =
        >>=-eq-ok (div (d.mul num_req isl) (d.of_int s.config.adjustment_interval)) _ demanded in
      div-ok-nonzero (d.mul num_req isl) (d.of_int s.config.adjustment_interval) divided

  finish-gauges :
      (r : ℤ × ℤ) (s : Planner F W)
      → (gauges : Option (List (Gauge × F))) × (finish env (some r) s
          ≡ apply_scaling env r (with_gauges env gauges s))
  unfolding finish
  finish-gauges r s =
      let (gauges, exported) = export_replicas-gauges env r s in
      (
        gauges,
        >>=-ok (when_exporting env (export_replicas env r)) (λ _. apply_scaling env r) s exported,
      )

  -- From the computation on, where it gives this.
  abbrev pub computed : Planner F W → Result (ℤ × ℤ) → Result (Unit {0}) × Planner F W
  computed s x = ◌>>=◌ {A = Option (ℤ × ℤ)} {B = Unit {0}} (λ _. caught (x, s)) (finish env) s

  pub scale_to_load-computed :
      (load : F × F × F) (s : Planner F W)
      → IsLasting s.config
      → (gauges : Option (List (Gauge × F))) × (scale_to_load env (some load) s
          ≡ computed (with_gauges env gauges s) (requirements env load s))
  unfolding scale_to_load attempt requirements
  scale_to_load-computed load s lasting =
      let (gauges, exported) = export_load-gauges env load s lasting in
      (
        gauges,
        >>=-ok (when_exporting env (export_load env load))
            (λ _. attempt (λ s. (requirements env load s, s)) >>= finish env) s exported,
      )

  pub adjusting :
      (s : Planner F W) (o : Option (Unit {0})) (sc : Planner F W)
      → is_valid s.last_metrics ≡ true
      → try_corrections env s ≡ (ok o, sc)
      → make_adjustments env s ≡ after_corrections env o sc
  unfolding make_adjustments
  adjusting s o sc valid corrected =
      ap (λ (b : Bool). (if b then try_corrections env >>= after_corrections env else pure tt) s)
        valid
      ∙ >>=-ok (try_corrections env) (after_corrections env) s corrected

  pub loaded :
      (sc : Planner F W) (o : Option (F × F × F))
      → predict_load env sc ≡ o
      → after_corrections env (some tt) sc ≡ scale_to_load env o sc
  unfolding after_corrections
  loaded sc o predicted = ap (λ k. scale_to_load env k sc) predicted

  -- What the adjustment has found: the state after the corrections, a load, and the requirements.
  pub record Found (s : Planner F W) (r : ℤ × ℤ) : Type 0 where
    pub valid : is_valid s.last_metrics ≡ true
    pub after : Planner F W
    pub corrected : try_corrections env s ≡ (ok (some tt), after)
    pub load : F × F × F
    pub predicted : predict_load env after ≡ some load
    pub required : requirements env load after ≡ ok r

  -- An adjustment that has found all that comes down to the scaling.
  pub Found-applied :
      (s : Planner F W) (r : ℤ × ℤ) (f : Found s r)
      → (gauges : Option (List (Gauge × F))) × (make_adjustments env s
          ≡ apply_scaling env r (with_gauges env gauges f.after))
  unfolding caught
  Found-applied s r f =
      let (load_gauges, scaled) =
        scale_to_load-computed f.load f.after (requirements-IsLasting f.load f.after f.required) in
      let (gauges, finished) = finish-gauges r (with_gauges env load_gauges f.after) in
      (
        gauges,
        adjusting s (some tt) f.after f.valid f.corrected
            ∙ loaded f.after (some f.load) f.predicted
            ∙ scaled
            ∙ ap (computed (with_gauges env load_gauges f.after)) f.required
            ∙ finished,
      )
