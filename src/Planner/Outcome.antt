-- ===== src/Planner/Outcome.antt =====
-- Whole adjustments of a planner that is alone on its cluster.
use rbg_planner.Prelude.{
  ℤ, Bool, true, Option, none, some, if◌then◌else◌, ◌≡◌, ◌⊎◌, inl, inr, Bool-cases, Option-cases,
  sym, ap, ◌∙◌, pos, ◌≤ℤ◌, arith,
}
use mathlib.Core.Path.{subst}
use rbg_planner.Python.{Result, ok, Result-cases, pure, ◌>>=◌}
use rbg_planner.Python.Float.{Floating}
use rbg_planner.Python.Returned.{Returned, Returned-result}
use rbg_planner.Config.{PlannerConfig}
use rbg_planner.Cluster.{Rbg, rbg_ready}
use rbg_planner.Connector.{Connector}
use rbg_planner.Connector.Alone.{IsAlone, IsCount, max_count}
use rbg_planner.Replicas.Limits.{IsConsistent, AboveMin, compute-AboveMin}
use rbg_planner.Planner.{Planner, Externals, caught, is_valid}
use rbg_planner.Planner.Correct.{predict_load}
use rbg_planner.Planner.Adjust.{
  try_corrections, requirements, finish, scale_to_load, after_corrections, make_adjustments,
}
use rbg_planner.Planner.Steady.{with_gauges, IsAt, try_corrections-IsAt}
use rbg_planner.Planner.Scales.{
  IsLive, HasRoles, IsSmall, IsTooLarge, IsSmall-IsTooLarge, IsTaken, Ends, Scales,
  apply_scaling-Scales, apply_scaling-not_ready,
}
use rbg_planner.Planner.Found.{
  IsLasting, computed, scale_to_load-computed, adjusting, loaded, Found, Found-applied,
}

module _ {F W : Type 0} ⦃d : Floating F⦄ (env : Externals F W) (object : W → Rbg) (c : Connector)
    (alone : IsAlone env.kubernetes object c) (config : PlannerConfig F)
    (live : IsLive env object c alone config) where
  -- The corrections have left the planner where it was.
  Found-IsAt :
      (w : W) (r : ℤ × ℤ) (s : Planner F W)
      → IsAt env object c alone config w s
      → (f : Found env s r) → IsAt env object c alone config w f.after
  Found-IsAt w r s at f =
      subst (λ x. Returned (IsAt env object c alone config w) x) f.corrected
        (try_corrections-IsAt env object c alone config w s at)

  least-IsCount : (lo n : ℤ) → pos 0 ≤ℤ lo → lo ≤ℤ n → n ≤ℤ max_count → IsCount n
  least-IsCount lo n least above small = (omega arith, small)

  -- Requirements are never below the minimum.
  Found-IsTaken :
      (w : W) (r : ℤ × ℤ) (s : Planner F W)
      → IsAt env object c alone config w s
      → Found env s r
      → IsSmall env object c alone config r
      → IsTaken env object c alone config r
  unfolding requirements
  Found-IsTaken w (p, n) s at f (small_p, small_n) =
      let k = f.after in
      let same = (Found-IsAt w (p, n) s at f).1 in
      let (above_p, above_n) =
        subst (λ (conf : PlannerConfig F). AboveMin conf (p, n)) same
          (compute-AboveMin env.numerics k.config k.prefill_interpolator k.decode_interpolator
            k.p_correction_factor k.d_correction_factor f.load.0 f.load.1 f.load.2
            (subst IsConsistent (sym same) live.consistent) f.required) in
      (
        least-IsCount config.min_replicas p live.least above_p small_p,
        least-IsCount config.min_replicas n live.least above_n small_n,
      )

  -- Alone on a ready object that has the two roles, each with the key `replicas`, and no scaling
  -- adapter, an adjustment of a live planner that has found the requirements of a valid observation
  -- returns, and leaves the roles with just the replicas that were computed, and every other role as
  -- it was. It is supposed that the names of the roles differ, that the minimum is neither negative
  -- nor above a maximum, and that the requirements are 32-bit numbers.
  pub make_adjustments-Scales :
      (w : W) (r : ℤ × ℤ) (s : Planner F W)
      → HasRoles env object c alone config w
      → rbg_ready (object w) ≡ true
      → IsSmall env object c alone config r
      → IsAt env object c alone config w s
      → Found env s r
      → Scales env object c alone config w r (make_adjustments env s)
  make_adjustments-Scales w r s roles ready small at f =
      let (gauges, applied) = Found-applied env s r f in
      subst (Scales env object c alone config w r) (sym applied) (
        apply_scaling-Scales env object c alone config live w r (with_gauges env gauges f.after)
          roles ready (Found-IsTaken w r s at f small) (Found-IsAt w r s at f))

  -- An adjustment that scales nothing, or to requirements that it has found, or has found more than
  -- the API takes.
  abbrev pub Adjusted : W → Planner F W → Result (Unit {0}) × Planner F W → Type 0
  Adjusted w s x =
      Ends env object c alone config w x
      ⊎ ((r : ℤ × ℤ) × Found env s r × Scales env object c alone config w r x)
      ⊎ ((r : ℤ × ℤ) × Found env s r × IsTooLarge env object c alone config r)

  applied-Adjusted :
      (w : W) (r : ℤ × ℤ) (s : Planner F W)
      → HasRoles env object c alone config w
      → IsAt env object c alone config w s
      → Found env s r
      → Adjusted w s (make_adjustments env s)
  applied-Adjusted w r s roles at f = elim (Bool-cases (rbg_ready (object w))) [
    | inl ready ↦ elim (IsSmall-IsTooLarge env object c alone config r) [
      | inl small ↦ inr (inl (r, f, make_adjustments-Scales w r s roles ready small at f))
      | inr large ↦ inr (inr (r, f, large))
    ]
    | inr not_ready ↦
        let (gauges, applied) = Found-applied env s r f in
        inl (
          subst (Ends env object c alone config w) (sym applied) (
            apply_scaling-not_ready env object c alone config live w r
              (with_gauges env gauges f.after) not_ready (Found-IsAt w r s at f)))
  ]

  -- From a load on, whatever the computation gives.
  load-Adjusted :
      (w : W) (s sc : Planner F W) (load : F × F × F)
      → HasRoles env object c alone config w
      → IsLasting env config
      → IsAt env object c alone config w s
      → IsAt env object c alone config w sc
      → is_valid s.last_metrics ≡ true
      → try_corrections env s ≡ (ok (some tt), sc)
      → predict_load env sc ≡ some load
      → Adjusted w s (make_adjustments env s)
  unfolding caught finish
  load-Adjusted w s sc load roles lasting at after valid corrected predicted =
      elim (Result-cases (requirements env load sc)) [
        | inl (r, required) ↦ applied-Adjusted w r s roles at (record {
          valid = valid;
          after = sc;
          corrected = corrected;
          load = load;
          predicted = predicted;
          required = required;
        })
        | inr (e, failed) ↦
            let (gauges, scaled) =
              scale_to_load-computed env load sc (subst (IsLasting env) (sym after.1) lasting) in
            inl (
              with_gauges env gauges sc,
              adjusting env s (some tt) sc valid corrected
                  ∙ loaded env sc (some load) predicted
                  ∙ scaled
                  ∙ ap (computed env (with_gauges env gauges sc)) failed,
              after,
            )
      ]

  -- After the corrections, whatever they come to.
  corrected-Adjusted :
      (w : W) (s sc : Planner F W) (o : Option (Unit {0}))
      → HasRoles env object c alone config w
      → IsLasting env config
      → IsAt env object c alone config w s
      → IsAt env object c alone config w sc
      → is_valid s.last_metrics ≡ true
      → try_corrections env s ≡ (ok o, sc)
      → Adjusted w s (make_adjustments env s)
  unfolding after_corrections scale_to_load
  corrected-Adjusted w s sc none roles lasting at after valid corrected =
      inl (sc, adjusting env s none sc valid corrected, after)
  corrected-Adjusted w s sc (some tt) roles lasting at after valid corrected =
      elim (Option-cases (predict_load env sc)) [
        | inl missing ↦
            inl
              (sc, adjusting env s (some tt) sc valid corrected ∙ loaded env sc none missing, after)
        | inr (load, predicted) ↦
            load-Adjusted w s sc load roles lasting at after valid corrected predicted
      ]

  -- Alone on an object that has the two roles, each with the key `replicas`, and no scaling adapter,
  -- ready or not, every adjustment of a live planner whose interval is no float zero comes to one of
  -- three: it returns and the cluster is as it was; it returns and the two roles have the replicas
  -- that were computed, for the load that was predicted after the corrections, and every other role
  -- is as it was; or one of the computed numbers is above 2 ^ 31 - 1. It is supposed that the names
  -- of the roles differ and that the minimum is neither negative nor above a maximum.
  pub make_adjustments-Adjusted :
      (w : W) (s : Planner F W)
      → HasRoles env object c alone config w
      → IsLasting env config
      → IsAt env object c alone config w s
      → Adjusted w s (make_adjustments env s)
  unfolding make_adjustments
  make_adjustments-Adjusted w s roles lasting at = elim (Bool-cases (is_valid s.last_metrics)) [
    | inr invalid ↦ inl (
      s,
      ap (λ (b : Bool). (if b then try_corrections env >>= after_corrections env else pure tt) s)
          invalid,
      at,
    )
    | inl valid ↦
        let (o, sc, corrected, after) =
          Returned-result (IsAt env object c alone config w) (try_corrections env s)
            (try_corrections-IsAt env object c alone config w s at) in
        corrected-Adjusted w s sc o roles lasting at after valid corrected
  ]
