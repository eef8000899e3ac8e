-- ===== src/Planner/Correct.antt =====
-- `Planner._update_correction_factors` and `Planner.predict_load`.
use rbg_planner.Prelude.{ℤ, pos, Option, none, some, if◌then◌else◌}
use rbg_planner.Python.{Result, ok, err, Method}
use rbg_planner.Python.Pure.{◌>>=◌}
use rbg_planner.Python.Float.{Floating, div}
use rbg_planner.Predictor.{predict_next}
use rbg_planner.Interpolation.{interpolate_ttft, interpolate_itl}
use rbg_planner.Planner.{
  Planner, Externals, commit, p_correction_factor, d_correction_factor, set_gauge, number,
}

module _ {F W : Type 0} ⦃d : Floating F⦄ (env : Externals F W) where
  open d use {of_int, add, mul, lt}

  -- `if expected > 0: factor = observed / expected`
  unfoldable pub corrected : F → Option F → F → Result F
  corrected factor observed expected =
      if lt (of_int (pos 0)) expected then number observed >>= (λ x. div x expected) else ok factor

  -- The first half: TTFT, observed over expected.
  unfoldable pub p_factor : Planner F W → Result F
  unfolding interpolate_ttft corrected
  p_factor s = do
    isl ← number s.last_metrics.isl
    expect_ttft ← interpolate_ttft s.prefill_interpolator isl
    corrected s.p_correction_factor s.last_metrics.ttft expect_ttft

  -- The second half: ITL, observed over expected, at the observed concurrency.
  unfoldable pub d_factor : ℤ → Planner F W → Result F
  unfolding interpolate_itl corrected
  d_factor num_d s = do
    num_req ← number s.last_metrics.num_req
    per_worker ← div num_req (of_int num_d)
    request_duration ← number s.last_metrics.request_duration
    concurrency ← div (mul per_worker request_duration) (of_int s.config.adjustment_interval)
    isl ← number s.last_metrics.isl
    osl ← number s.last_metrics.osl
    half ← div osl (of_int (pos 2))
    expect_itl ← interpolate_itl env.numerics s.decode_interpolator concurrency (add isl half)
    corrected s.d_correction_factor s.last_metrics.itl expect_itl

  unfoldable pub export_corrections : Planner F W → Planner F W
  unfolding set_gauge
  export_corrections s =
      set_gauge d_correction_factor s.d_correction_factor
        (set_gauge p_correction_factor s.p_correction_factor s)

  -- `self.p_correction_factor = ...`, and the same for decode.
  unfoldable pub update_p_correction : Method (Planner F W) (Unit {0})
  unfolding p_factor commit
  update_p_correction s =
      commit (p_factor s) (λ factor. record s { p_correction_factor = factor }) s

  unfoldable pub update_d_correction : ℤ → Method (Planner F W) (Unit {0})
  unfolding d_factor commit
  update_d_correction num_d s =
      commit (d_factor num_d s) (λ factor. record s { d_correction_factor = factor }) s

  -- The three forecasts, or the first exception of them.
  unfoldable pub forecasts : Planner F W → Result (F × F × F)
  unfolding predict_next
  forecasts s = do
    num_req ← predict_next env.forecasters s.num_req_predictor
    isl ← predict_next env.forecasters s.isl_predictor
    osl ← predict_next env.forecasters s.osl_predictor
    ok (num_req, isl, osl)

  -- `predict_load`, with `none` for the triple of `None`
  unfoldable pub predict_load : Planner F W → Option (F × F × F)
  unfolding forecasts
  predict_load s = elim (forecasts s) [ ok load ↦ some load | err e ↦ none ]
