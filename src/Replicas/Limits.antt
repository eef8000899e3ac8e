-- ===== src/Replicas/Limits.antt =====
-- The numbers of replicas against the limits per role.
use rbg_planner.Prelude.{
  ℤ, ◌≤ℤ◌, ◌-ℤ◌, ◌*ℤ◌, max_ℤ, le-max_ℤ, ltb_ℤ, ◌≡◌, ◌⊎◌, inl, inr, sym, Bool-cases, ltb-false→le,
  arith, true, refl, ◌+ℤ◌,
}
use rbg_planner.Python.{Result, ok, ok-injective}
use rbg_planner.Python.Pure.{>>=-eq-ok}
use rbg_planner.Python.Float.{Floating, div_int, round}
use rbg_planner.Config.{PlannerConfig}
use rbg_planner.Interpolation.{Numerics, PrefillInterpolator, DecodeInterpolator}
use rbg_planner.Replicas.{
  clamp_replicas, total_gpu, prefill_demand, decode_demand, scale_to_budget, apply_limits,
  compute_replica_requirements,
}

pub clamp_replicas_bounds :
    (lo hi n : ℤ) → lo ≤ℤ hi → (lo ≤ℤ clamp_replicas lo hi n) × (clamp_replicas lo hi n ≤ℤ hi)
unfolding clamp_replicas
clamp_replicas_bounds lo hi n h = ground arith

-- What a demand comes to within its limits: itself where it keeps to them, and else the limit that it
-- is beyond.
abbrev pub IsClamp : ℤ → ℤ → ℤ → ℤ → Type 0
IsClamp lo hi n r =
    ((lo ≤ℤ n) × (n ≤ℤ hi) × (r ≡ n))
    ⊎ ((ltb_ℤ n lo ≡ true) × (r ≡ lo))
    ⊎ ((ltb_ℤ hi n ≡ true) × (r ≡ hi))

clamp_below : (lo hi n : ℤ) → lo ≤ℤ hi → ltb_ℤ n lo ≡ true → clamp_replicas lo hi n ≡ lo
unfolding clamp_replicas
clamp_below lo hi n h below = ground arith

clamp_above : (lo hi n : ℤ) → lo ≤ℤ n → ltb_ℤ hi n ≡ true → clamp_replicas lo hi n ≡ hi
unfolding clamp_replicas
clamp_above lo hi n h above = ground arith

clamp_within : (lo hi n : ℤ) → lo ≤ℤ n → n ≤ℤ hi → clamp_replicas lo hi n ≡ n
unfolding clamp_replicas
clamp_within lo hi n h k = ground arith

clamp_replicas-IsClamp : (lo hi n : ℤ) → lo ≤ℤ hi → IsClamp lo hi n (clamp_replicas lo hi n)
clamp_replicas-IsClamp lo hi n h = elim (Bool-cases (ltb_ℤ n lo)) [
  | inl below ↦ inr (inl (below, clamp_below lo hi n h below))
  | inr not_below ↦
      let low = ltb-false→le _ _ not_below in
      elim (Bool-cases (ltb_ℤ hi n)) [
        | inl above ↦ inr (inr (above, clamp_above lo hi n low above))
        | inr not_above ↦
            let high = ltb-false→le _ _ not_above in inl (low, high, clamp_within lo hi n low high)
      ]
]

module _ {F : Type 0} ⦃d : Floating F⦄ (config : PlannerConfig F) where
  -- Both roles stay at or above the minimum.
  abbrev pub AboveMin : ℤ × ℤ → Type 0
  AboveMin (p, n) = (config.min_replicas ≤ℤ p) × (config.min_replicas ≤ℤ n)

  -- The settings that the limits presuppose: no minimum above a maximum.
  pub record IsConsistent : Type 0 where
    pub prefill_le : config.min_replicas ≤ℤ config.max_prefill_replicas
    pub decode_le : config.min_replicas ≤ℤ config.max_decode_replicas

  -- The steps of a scaling that returned `r`.
  pub record Scaling (p n : ℤ) (r : ℤ × ℤ) : Type 0 where
    pub scale : F
    pub scaled : ℤ
    pub rest : F
    pub left : ℤ
    pub scale_eq : div_int config.max_gpu_budget (total_gpu config (p, n)) ≡ ok scale
    pub scaled_eq : round (d.mul (d.of_int p) scale) ≡ ok scaled
    pub rest_eq :
        div_int
          (config.max_gpu_budget
            -ℤ max_ℤ config.min_replicas scaled *ℤ config.prefill_engine_num_gpu)
          config.decode_engine_num_gpu
        ≡ ok rest
    pub left_eq : round rest ≡ ok left
    pub result : r ≡ (max_ℤ config.min_replicas scaled, max_ℤ config.min_replicas left)

  pub scale_to_budget-Scaling :
      (p n : ℤ) {r : ℤ × ℤ} → scale_to_budget config p n ≡ ok r → Scaling p n r
  unfolding scale_to_budget
  scale_to_budget-Scaling p n e =
      let total = total_gpu config (p, n) in
      let (scale, scale_eq, e₁) = >>=-eq-ok (div_int ⦃d = d⦄ config.max_gpu_budget total) _ e in
      let (scaled, scaled_eq, e₂) = >>=-eq-ok (round (d.mul (d.of_int p) scale)) _ e₁ in
      let room =
        config.max_gpu_budget
        -ℤ max_ℤ config.min_replicas scaled *ℤ config.prefill_engine_num_gpu in
      let (rest, rest_eq, e₃) =
        >>=-eq-ok (div_int ⦃d = d⦄ room config.decode_engine_num_gpu) _ e₂ in
      let (left, left_eq, e₄) = >>=-eq-ok (round rest) _ e₃ in
      record {
        scale = scale;
        scaled = scaled;
        rest = rest;
        left = left;
        scale_eq = scale_eq;
        scaled_eq = scaled_eq;
        rest_eq = rest_eq;
        left_eq = left_eq;
        result = sym (ok-injective _ _ e₄);
      }

  -- Two demands, each clamped to its limits.
  abbrev pub clamped : ℤ → ℤ → ℤ × ℤ
  clamped p n = (
    clamp_replicas config.min_replicas config.max_prefill_replicas p,
    clamp_replicas config.min_replicas config.max_decode_replicas n,
  )

  -- What `apply_limits` makes of two demands: the clamped pair, or a scaled one if that is too much.
  abbrev pub Outcome : ℤ → ℤ → ℤ × ℤ → Type 0
  Outcome p n r =
      let cp = clamp_replicas config.min_replicas config.max_prefill_replicas p in
      let cn = clamp_replicas config.min_replicas config.max_decode_replicas n in
      ((r ≡ (cp, cn)) × (total_gpu config (cp, cn) ≤ℤ config.max_gpu_budget)) ⊎ Scaling cp cn r

  pub apply_limits-Outcome : (p n : ℤ) {r : ℤ × ℤ} → apply_limits config p n ≡ ok r → Outcome p n r
  unfolding apply_limits
  apply_limits-Outcome p n e =
      let cp = clamp_replicas config.min_replicas config.max_prefill_replicas p in
      let cn = clamp_replicas config.min_replicas config.max_decode_replicas n in
      elim (Bool-cases (ltb_ℤ config.max_gpu_budget (total_gpu config (cp, cn)))) [
        | inl over ↦ inr (scale_to_budget-Scaling cp cn (rw over at e))
        | inr within ↦ inl (sym (ok-injective _ _ (rw within at e)), ltb-false→le _ _ within)
      ]

  Outcome-AboveMin : (p n : ℤ) (r : ℤ × ℤ) → IsConsistent → Outcome p n r → AboveMin r
  Outcome-AboveMin p n r c (inl (same, _)) = rw same (
    (clamp_replicas_bounds config.min_replicas config.max_prefill_replicas p c.prefill_le).0,
    (clamp_replicas_bounds config.min_replicas config.max_decode_replicas n c.decode_le).0,
  )
  Outcome-AboveMin p n r c (inr w) =
      rw w.result
        ((le-max_ℤ config.min_replicas w.scaled).0, (le-max_ℤ config.min_replicas w.left).0)

  -- The GPUs of two numbers of engines.
  abbrev pub gpus : ℤ → ℤ → ℤ
  gpus p n = p *ℤ config.prefill_engine_num_gpu +ℤ n *ℤ config.decode_engine_num_gpu

  -- Two clamped demands are the answer where the budget has GPUs for both, and are scaled where it has
  -- not.
  abbrev pub IsAnswer : ℤ → ℤ → Result (ℤ × ℤ) → Type 0
  IsAnswer cp cn r =
      ((gpus cp cn ≤ℤ config.max_gpu_budget) × (r ≡ ok (cp, cn)))
      ⊎ ((ltb_ℤ config.max_gpu_budget (gpus cp cn) ≡ true) × (r ≡ scale_to_budget config cp cn))

  apply_limits-IsAnswer :
      (p n : ℤ)
      → IsAnswer
          (clamp_replicas config.min_replicas config.max_prefill_replicas p)
          (clamp_replicas config.min_replicas config.max_decode_replicas n)
          (apply_limits config p n)
  unfolding apply_limits total_gpu
  apply_limits-IsAnswer p n =
      let cp = clamp_replicas config.min_replicas config.max_prefill_replicas p in
      let cn = clamp_replicas config.min_replicas config.max_decode_replicas n in
      elim (Bool-cases (ltb_ℤ config.max_gpu_budget (gpus cp cn))) [
        | inl over ↦ inr (over, rw over refl)
        | inr within ↦ inl (ltb-false→le _ _ within, rw within refl)
      ]

module _ {F : Type 0} ⦃d : Floating F⦄ (numerics : Numerics F) (config : PlannerConfig F)
    (prefill : PrefillInterpolator F) (decode : DecodeInterpolator F) (p_factor d_factor : F)
    (num_req isl osl : F) where
  -- The two demands before any limit, with the numbers of replicas that came out of them.
  abbrev pub Demands : ℤ → ℤ → Type 0
  Demands p n =
      (prefill_demand config prefill p_factor num_req isl ≡ ok p)
      × (decode_demand numerics config decode d_factor num_req isl osl ≡ ok n)

  pub compute-Demands :
      {r : ℤ × ℤ}
      → compute_replica_requirements numerics config prefill decode p_factor d_factor num_req isl
          osl
        ≡ ok r
      → (p n : ℤ) × Demands p n × (apply_limits config p n ≡ ok r)
  unfolding compute_replica_requirements
  compute-Demands e =
      let (p, p_eq, e₁) = >>=-eq-ok (prefill_demand config prefill p_factor num_req isl) _ e in
      let (n, n_eq, e₂) =
        >>=-eq-ok (decode_demand numerics config decode d_factor num_req isl osl) _ e₁ in
      (p, n, (p_eq, n_eq), e₂)

  -- Whatever the load and the profile, the pair that the method returns gives each role at least the
  -- minimum, if the minimum is not above a maximum; also after the budget has scaled it down.
  pub compute-AboveMin :
      {r : ℤ × ℤ}
      → IsConsistent config
      → compute_replica_requirements numerics config prefill decode p_factor d_factor num_req isl
          osl
        ≡ ok r
      → AboveMin config r
  compute-AboveMin {r} c e =
      let (p, n, _, limited) = compute-Demands e in
      Outcome-AboveMin config p n r c (apply_limits-Outcome config p n limited)

  -- Each demand is met exactly where it keeps to the limits of its role, and by the limit that it is
  -- beyond where it does not. The method returns these two numbers where the GPU budget has enough for
  -- both, and otherwise what the scaling to the budget makes of them. It is supposed that the minimum
  -- is not above a maximum.
  pub compute_within_budget :
      (p n : ℤ)
      → IsConsistent config
      → Demands p n
      → (cp : ℤ) × (cn : ℤ) × IsClamp config.min_replicas config.max_prefill_replicas p cp
        × IsClamp config.min_replicas config.max_decode_replicas n cn
        × IsAnswer config cp cn (
            compute_replica_requirements numerics config prefill decode p_factor d_factor num_req
              isl osl)
  unfolding compute_replica_requirements
  compute_within_budget p n c (p_eq, n_eq) = (
    _,
    _,
    clamp_replicas-IsClamp config.min_replicas config.max_prefill_replicas p c.prefill_le,
    clamp_replicas-IsClamp config.min_replicas config.max_decode_replicas n c.decode_le,
    rw (p_eq, n_eq) (apply_limits-IsAnswer config p n),
  )
