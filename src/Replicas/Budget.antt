-- ===== src/Replicas/Budget.antt =====
-- The GPU total of a pair that the budget has scaled down.
use rbg_planner.Prelude.{
  ℕ, ◌+◌, ◌-◌, ◌*◌, ◌/◌, ◌<◌, ◌≤◌, ℤ, pos, negsuc, pos_part, ◌≤ℤ◌, ◌+ℤ◌, ◌-ℤ◌, ◌*ℤ◌, max_ℤ, ltb_ℤ,
  if◌then◌else◌, ◌≡◌, ◌⊎◌, inl, inr, refl, arith, le_or_gt, Bool-cases,
}
use mathlib.Core.Path.{subst}
use mathlib.Core.Bool.{Bool, true, false}
use rbg_planner.Python.{ok}
use rbg_planner.Python.Float.{Floating, div_int, round, to_int-eq-ok}
use rbg_planner.Config.{PlannerConfig}
use rbg_planner.Interpolation.{Numerics, PrefillInterpolator, DecodeInterpolator}
use rbg_planner.Replicas.{total_gpu, compute_replica_requirements}
use rbg_planner.Replicas.Limits.{Scaling, clamped, apply_limits-Outcome, compute-Demands}

-- The size up to which the quotient of two integers rounds to the nearest integer.
abbrev pub quotient_limit : ℕ
quotient_limit = 4503599627370496

-- `round(a / b)` is off by at most a half, and not above zero for a negative `a`.
pub record IsNearest (F : Type 0) ⦃d : Floating F⦄ : Type 0 where
  pub near :
      (a b : ℕ)
      → 0 < b
      → a ≤ quotient_limit
      → 2 * (pos_part (d.round_int (d.quot_int (pos a) (pos b))) * b) ≤ 2 * a + b
  pub negative : (a b : ℕ) → 0 < b → d.round_int (d.quot_int (negsuc a) (pos b)) ≤ℤ pos 0

max_ℤ-pos : (m : ℕ) (s : ℤ) → (k : ℕ) × (max_ℤ (pos m) s ≡ pos k) × (m ≤ k)
unfolding max_ℤ
max_ℤ-pos m (pos s) = if_cases (ltb_ℤ (pos m) (pos s)) refl
  where
    if_cases :
        (b : Bool)
        → ltb_ℤ (pos m) (pos s) ≡ b
        → (k : ℕ) × ((if b then pos s else pos m) ≡ pos k) × (m ≤ k)
    if_cases true e = (s, refl, ground arith)
    if_cases false e = (m, refl, omega arith)
max_ℤ-pos m (negsuc s) = (m, ground arith, omega arith)

max_ℤ-cases :
    (m : ℕ) (k : ℤ)
    → (max_ℤ (pos m) k ≡ pos m) ⊎ ((max_ℤ (pos m) k ≡ pos (pos_part k)) × (m < pos_part k))
unfolding max_ℤ
max_ℤ-cases m (pos k) = elim (Bool-cases (ltb_ℤ (pos m) (pos k))) [
  | inl less ↦ inr (rw less, ground arith)
  | inr not_less ↦ inl (rw not_less)
]
max_ℤ-cases m (negsuc k) = inl (ground arith)

-- The products and sums of the source, on numbers that are not negative.
total_pos : (p g n h : ℕ) → pos p *ℤ pos g +ℤ pos n *ℤ pos h ≡ pos (p * g + n * h)
unfolding ◌+ℤ◌ ◌*ℤ◌
total_pos p g n h = ground arith

room_pos : (b p g : ℕ) → p * g ≤ b → pos b -ℤ pos p *ℤ pos g ≡ pos (b - p * g)
unfolding ◌-ℤ◌ ◌*ℤ◌
room_pos b p g h = ground arith

room_negative : (b p g : ℕ) → b < p * g → pos b -ℤ pos p *ℤ pos g ≡ negsuc (p * g - b - 1)
unfolding ◌-ℤ◌ ◌*ℤ◌
room_negative b p g h = ground arith

module _ {F : Type 0} ⦃d : Floating F⦄ (nearest : IsNearest F) where
  open nearest use {near, negative}

  round-div_int :
      (a : ℤ) (g : ℕ) {x : F} {k : ℤ}
      → 0 < g
      → div_int a (pos g) ≡ ok x
      → round x ≡ ok k
      → d.round_int (d.quot_int a (pos g)) ≡ k
  round-div_int a g {x} h q r =
      (to_int-eq-ok d.round_int (d.quot_int a (pos g)) (rw (quotient) r)).1
    where
      quotient : d.quot_int a (pos g) ≡ x
      quotient = ground arith

  -- The decode replicas that the remaining budget pays for, by the sign of what remains.
  left_near :
      (b p g h : ℕ) {x : F} {left : ℤ}
      → 0 < h
      → b ≤ quotient_limit
      → div_int (pos b -ℤ pos p *ℤ pos g) (pos h) ≡ ok x
      → round x ≡ ok left
      → (2 * (pos_part left * h) + 2 * (p * g) ≤ 2 * b + h) ⊎ (pos_part left ≡ 0)
  left_near b p g h {x} {left} pos_h small q r = elim (le_or_gt (p * g) b) [
    | inl fits ↦
        let k_eq = round-div_int (pos (b - p * g)) h pos_h (rw (room_pos b p g fits) at q) r in
        let bound = near (b - p * g) h pos_h (omega arith) in
        inl
          (omega (arith, subst (λ (k : ℤ). 2 * (pos_part k * h) ≤ 2 * (b - p * g) + h) k_eq bound))
    | inr over ↦
        let k_eq =
          round-div_int (negsuc (p * g - b - 1)) h pos_h (rw (room_negative b p g over) at q) r in
        let bound = negative (p * g - b - 1) h pos_h in
        inr (nonpos left (subst (λ (k : ℤ). k ≤ℤ pos 0) k_eq bound))
  ]
    where
      nonpos : (k : ℤ) → k ≤ℤ pos 0 → pos_part k ≡ 0
      nonpos (pos n) h = omega arith
      nonpos (negsuc n) h = refl

  module _ (config : PlannerConfig F) (b g h m : ℕ) (budget_eq : config.max_gpu_budget ≡ pos b)
      (prefill_gpu_eq : config.prefill_engine_num_gpu ≡ pos g)
      (decode_gpu_eq : config.decode_engine_num_gpu ≡ pos h) (min_eq : config.min_replicas ≡ pos m)
      (decode_gpu_pos : 0 < h) (small : b ≤ quotient_limit) where
    -- At most half a decode engine above the budget, unless decode is down to its minimum.
    abbrev NearBudget : ℤ × ℤ → Type 0
    NearBudget r = (total_gpu config r ≤ℤ pos (b + h / 2)) ⊎ (r.1 ≡ pos m)

    total_gpu-pos : (p n : ℕ) → total_gpu config (pos p, pos n) ≡ pos (p * g + n * h)
    unfolding total_gpu
    total_gpu-pos p n = rw (prefill_gpu_eq, decode_gpu_eq) (total_pos p g n h)

    le_half : {c : ℤ} (t : ℤ) → c ≡ pos b → t ≤ℤ c → t ≤ℤ pos (b + h / 2)
    le_half t e within = let below : t ≤ℤ pos b = rw e at within in omega arith

    Scaling-NearBudget : (p n : ℤ) (r : ℤ × ℤ) → Scaling config p n r → NearBudget r
    Scaling-NearBudget p n r w =
        let (x, x_eq, _) = max_ℤ-pos m w.scaled in
        let k = pos_part w.left in
        let room = rw (budget_eq, prefill_gpu_eq, decode_gpu_eq, min_eq, x_eq) at w.rest_eq in
        let near_left = left_near b x g h decode_gpu_pos small room w.left_eq in
        elim (max_ℤ-cases m w.left) [
          | inl least ↦ inr (rw (w.result, min_eq) least)
          | inr (left_eq, more) ↦ elim near_left [
            | inr nothing ↦ absurd (omega arith)
            | inl bound ↦
                let pair : r ≡ (pos x, pos k) = rw (w.result, min_eq, x_eq, left_eq) refl in
                inl (rw (pair, total_gpu-pos x k) (omega arith))
          ]
        ]

    -- If budget, GPU counts and minimum are not negative, a decode engine has a GPU, the budget is at
    -- most 2 ^ 52 and a quotient up to there rounds to the nearest integer, then a pair that the
    -- method returns takes at most half a decode engine more than the GPU budget, unless it has the
    -- decode role at its minimum.
    pub compute_near_budget :
        (numerics : Numerics F) (prefill : PrefillInterpolator F) (decode : DecodeInterpolator F)
        (p_factor d_factor num_req isl osl : F) {r : ℤ × ℤ}
        → compute_replica_requirements numerics config prefill decode p_factor d_factor num_req isl
            osl
          ≡ ok r
        → (total_gpu config r ≤ℤ pos (b + h / 2)) ⊎ (r.1 ≡ pos m)
    compute_near_budget numerics prefill decode p_factor d_factor num_req isl osl {r} e =
        let (p, n, _, limited) =
          compute-Demands numerics config prefill decode p_factor d_factor num_req isl osl e in
        elim (apply_limits-Outcome config p n limited) [
          | inl (same, within) ↦
              inl (rw same (le_half (total_gpu config (clamped config p n)) budget_eq within))
          | inr w ↦ Scaling-NearBudget _ _ r w
        ]
