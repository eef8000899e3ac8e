-- ===== src/Replicas.antt =====
-- From a predicted load to numbers of replicas: `Planner._compute_replica_requirements`
-- (python/planner/rbg_planner/planner.py). What the profiling interpolators answer enters through
-- their two methods, so the method is modelled from its inputs to the pair that it returns.

pub mod Limits
pub mod Budget
use rbg_planner.Prelude.{ℤ, pos, ◌+ℤ◌, ◌-ℤ◌, ◌*ℤ◌, max_ℤ, min_ℤ, ltb_ℤ, if◌then◌else◌}
use rbg_planner.Python.{Result, ok, err}
use rbg_planner.Python.Pure.{◌>>=◌}
use rbg_planner.Python.Float.{Floating, div, div_int, ceil, round}
use rbg_planner.Config.{PlannerConfig}
use rbg_planner.Interpolation.{
  Numerics, PrefillInterpolator, DecodeInterpolator, prefill_thpt_per_gpu,
  find_best_throughput_per_gpu,
}

-- `min(max(n, min_replicas), max_replicas)`
unfoldable pub clamp_replicas : ℤ → ℤ → ℤ → ℤ
unfolding max_ℤ min_ℤ
clamp_replicas min_replicas max_replicas n = min_ℤ (max_ℤ n min_replicas) max_replicas

module _ {F : Type 0} ⦃d : Floating F⦄ where
  open d use {of_int, add, mul, le}

  -- The GPUs that a pair of numbers of replicas takes.
  unfoldable pub total_gpu : PlannerConfig F → ℤ × ℤ → ℤ
  unfolding ◌+ℤ◌ ◌*ℤ◌
  total_gpu config (num_p, num_d) =
      num_p *ℤ config.prefill_engine_num_gpu +ℤ num_d *ℤ config.decode_engine_num_gpu

  -- The prefill replicas that carry the predicted prompt tokens.
  unfoldable pub prefill_demand : PlannerConfig F → PrefillInterpolator F → F → F → F → Result ℤ
  unfolding prefill_thpt_per_gpu
  prefill_demand config prefill p_correction_factor next_num_req next_isl = do
    per_second ← div (mul next_num_req next_isl) (of_int config.adjustment_interval)
    let pred_prefill_throughput = mul per_second p_correction_factor
    thpt ← prefill_thpt_per_gpu prefill next_isl
    let prefill_engine_cap = mul thpt (of_int config.prefill_engine_num_gpu)
    engines ← div pred_prefill_throughput prefill_engine_cap
    ceil engines

  -- The ITL target that the decode engines are searched for.
  unfoldable pub corrected_itl : PlannerConfig F → F → Result F
  corrected_itl config d_correction_factor =
      if le d_correction_factor (of_int (pos 0))
      then ok config.itl_sla
      else div config.itl_sla d_correction_factor

  -- The decode replicas that carry the predicted output tokens within the ITL target.
  unfoldable pub decode_demand :
      Numerics F → PlannerConfig F → DecodeInterpolator F → F → F → F → F → Result ℤ
  unfolding corrected_itl find_best_throughput_per_gpu
  decode_demand numerics config decode d_correction_factor next_num_req next_isl next_osl = do
    itl ← corrected_itl config d_correction_factor
    half ← div next_osl (of_int (pos 2))
    (pred_decode_thpt_per_gpu, _, _) ←
        find_best_throughput_per_gpu numerics decode itl (add next_isl half)
    pred_decode_throughput ← div (mul next_num_req next_osl) (of_int config.adjustment_interval)
    let decode_engine_cap = mul pred_decode_thpt_per_gpu (of_int config.decode_engine_num_gpu)
    engines ← div pred_decode_throughput decode_engine_cap
    ceil engines

  -- The branch of a total above the budget: prefill shrinks in proportion, decode takes the rest.
  unfoldable pub scale_to_budget : PlannerConfig F → ℤ → ℤ → Result (ℤ × ℤ)
  unfolding total_gpu max_ℤ ◌-ℤ◌ ◌*ℤ◌
  scale_to_budget config num_p num_d = do
    scale ← div_int ⦃d = d⦄ config.max_gpu_budget (total_gpu config (num_p, num_d))
    scaled ← round (mul (of_int num_p) scale)
    let next_num_p = max_ℤ config.min_replicas scaled
    rest ←
        div_int ⦃d = d⦄ (config.max_gpu_budget -ℤ next_num_p *ℤ config.prefill_engine_num_gpu)
          config.decode_engine_num_gpu
    left ← round rest
    ok (next_num_p, max_ℤ config.min_replicas left)

  -- The limits per role, then the GPU budget.
  unfoldable pub apply_limits : PlannerConfig F → ℤ → ℤ → Result (ℤ × ℤ)
  unfolding clamp_replicas total_gpu scale_to_budget
  apply_limits config num_p num_d =
      let p = clamp_replicas config.min_replicas config.max_prefill_replicas num_p in
      let n = clamp_replicas config.min_replicas config.max_decode_replicas num_d in
      if ltb_ℤ config.max_gpu_budget (total_gpu config (p, n))
      then scale_to_budget config p n
      else ok (p, n)

  unfoldable pub compute_replica_requirements :
      Numerics F
      → PlannerConfig F
      → PrefillInterpolator F
      → DecodeInterpolator F
      → F
      → F
      → F
      → F
      → F
      → Result (ℤ × ℤ)
  unfolding prefill_demand decode_demand apply_limits
  compute_replica_requirements numerics config prefill decode p_correction_factor
        d_correction_factor next_num_req next_isl next_osl =
      do
        num_p ← prefill_demand config prefill p_correction_factor next_num_req next_isl
        num_d ←
            decode_demand numerics config decode d_correction_factor next_num_req next_isl next_osl
        apply_limits config num_p num_d
