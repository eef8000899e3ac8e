-- ===== src/Tests/Replicas.antt =====
-- Replica requirements of small loads, and the theorems on them.
use rbg_planner.Prelude.{ℕ, ◌/◌, ◌+◌, ℤ, pos, ◌≤ℤ◌, ◌+ℤ◌, ◌*ℤ◌, ◌≡◌, ◌⊎◌, refl, arith}
use rbg_planner.Python.{Result, ok}
use rbg_planner.Replicas.{
  compute_replica_requirements, prefill_demand, decode_demand, total_gpu, apply_limits,
}
use rbg_planner.Replicas.Limits.{
  AboveMin, Demands, IsClamp, IsAnswer, compute-AboveMin, compute_within_budget,
}
use rbg_planner.Replicas.Budget.{compute_near_budget}
use rbg_planner.Tests.Fixed.{num, fixed_Floating, fixed-IsNearest}
use rbg_planner.Tests.Profile.{
  small_config, small_config-IsConsistent, small_numerics, small_prefill, small_decode,
}

-- The requirements of so many requests, of an input and an output length.
abbrev required : ℕ → ℕ → ℕ → Result (ℤ × ℤ)
required requests isl osl =
    compute_replica_requirements small_numerics small_config small_prefill small_decode (num 1)
      (num 1) (num requests) (num isl) (num osl)

-- The total is 9 GPUs, on a budget of 8.
required_over : required 6 10 20 ≡ ok (pos 3, pos 2)
unfolding compute_replica_requirements
required_over = refl

required_within : required 1 10 10 ≡ ok (pos 1, pos 1)
unfolding compute_replica_requirements
required_within = refl

-- With prefill engines of 8 GPUs and decode engines of 1, a budget of 15 lifts the decode replicas
-- from their maximum of 5 to 7.
apply_limits_lifts :
    apply_limits
      (record small_config {
        prefill_engine_num_gpu = pos 8;
        decode_engine_num_gpu = pos 1;
        max_gpu_budget = pos 15;
      })
      (pos 2)
      (pos 5)
    ≡ ok (pos 1, pos 7)
unfolding apply_limits
apply_limits_lifts = refl

compute-AboveMin_example : AboveMin small_config (pos 3, pos 2)
compute-AboveMin_example =
    compute-AboveMin small_numerics small_config small_prefill small_decode (num 1) (num 1) (num 6)
      (num 10) (num 20) small_config-IsConsistent required_over

small-Demands :
    Demands small_numerics small_config small_prefill small_decode
      (num 1)
      (num 1)
      (num 1)
      (num 10)
      (num 10)
      (pos 1)
      (pos 1)
unfolding prefill_demand decode_demand ◌*ℤ◌ ◌+ℤ◌
small-Demands = (refl, refl)

compute_within_budget_example :
    (p : ℤ) × (n : ℤ) × IsClamp (pos 1) (pos 100) (pos 1) p
    × IsClamp (pos 1) (pos 5) (pos 1) n
    × IsAnswer small_config p n (required 1 10 10)
compute_within_budget_example =
    compute_within_budget small_numerics small_config small_prefill small_decode (num 1) (num 1)
      (num 1) (num 10) (num 10) (pos 1) (pos 1) small_config-IsConsistent small-Demands

compute_near_budget_example :
    (total_gpu small_config (pos 3, pos 2) ≤ℤ pos (8 + 3 / 2)) ⊎ (pos 2 ≡ pos 1)
compute_near_budget_example =
    compute_near_budget fixed-IsNearest small_config 8 1 3 1 refl refl refl refl (omega arith)
      (omega arith) small_numerics small_prefill small_decode (num 1) (num 1) (num 6) (num 10)
      (num 20) required_over
