-- ===== src/Profiler/Recorded/Sweeps.antt =====
-- Which input lengths the decode phase skips, and which it sweeps (`profile_decode`).
use rbg_planner.Prelude.{
  ℤ, pos, ◌+ℤ◌, ◌≤ℤ◌, +ℤ_parts, min_ℤ, ltb_ℤ, ltb-true→lt, ltb-false→le, List, true, Option, none,
  some, ◌≡◌, refl, sym, ap, ◌∙◌, ◌⊎◌, inl, inr, Bool-cases, arith,
}
use mathlib.Core.Path.{subst}
use rbg_planner.Python.{ok, ok-injective}
use rbg_planner.Python.Pure.{>>=-eq-ok}
use rbg_planner.Python.Division.{floor_div}
use rbg_planner.Python.Float.{Floating}
use rbg_planner.Profiler.{Target}
use rbg_planner.Profiler.Decode.{Sweep, concurrency_points, levels_within, sweep_of}

module _ (F : Type 0) ⦃d : Floating F⦄ (t : Target) (sweep : Sweep) where
  -- Why an input length is skipped: with its answers it does not fit into the context, or no request
  -- of it fits into the KV cache.
  abbrev pub IsSkipped : ℤ → Type 0
  IsSkipped isl =
      (t.max_context_length ≤ℤ isl +ℤ sweep.osl)
      ⊎ ((fitting : ℤ) × (floor_div sweep.max_kv_tokens (isl +ℤ sweep.osl) ≡ ok fitting)
          × (fitting ≤ℤ pos 0))

  -- What a sweep is about: a length that fits into the context with its answers, the length of the
  -- context halfway, and the levels of the sweep.
  pub record IsSwept (isl context_length : ℤ) (concs : List ℤ) : Type 0 where
    pub room : isl +ℤ sweep.osl +ℤ pos 1 ≤ℤ t.max_context_length
    pub half : ℤ
    pub has_half : floor_div sweep.osl (pos 2) ≡ ok half
    pub halfway : isl +ℤ half ≡ context_length
    pub levels : sweep_of F t sweep isl ≡ ok (some (context_length, concs))

  -- What `sweep_of` answers, by its answer.
  abbrev pub Answers : ℤ → Option (ℤ × List ℤ) → Type 0
  Answers isl none = IsSkipped isl
  Answers isl (some (context_length, concs)) = IsSwept isl context_length concs

  min_small : (a : ℤ) → ltb_ℤ (min_ℤ a (pos 512)) (pos 1) ≡ true → a ≤ℤ pos 0
  unfolding min_ℤ
  min_small a h = ground arith

  within-Answers :
      (isl half fitting : ℤ) (levels : Option (ℤ × List ℤ))
      → isl +ℤ sweep.osl +ℤ pos 1 ≤ℤ t.max_context_length
      → floor_div sweep.osl (pos 2) ≡ ok half
      → floor_div sweep.max_kv_tokens (isl +ℤ sweep.osl) ≡ ok fitting
      → sweep_of F t sweep isl ≡ ok levels
      → levels_within F sweep (isl +ℤ half) (min_ℤ fitting (pos 512)) ≡ ok levels
      → Answers isl levels
  unfolding levels_within
  within-Answers isl half fitting levels room halved divided found e =
      elim (Bool-cases (ltb_ℤ (min_ℤ fitting (pos 512)) (pos 1))) [
        | inl short ↦
            subst (Answers isl) (ok-injective none levels (rw short at e))
              (inr (fitting, divided, min_small fitting short))
        | inr enough ↦
            let (points, _, same) =
              >>=-eq-ok (concurrency_points F (min_ℤ fitting (pos 512)) sweep.granularity) _
                (rw enough at e) in
            let answered = ok-injective (some (isl +ℤ half, points)) levels same in
            subst (Answers isl) answered (record {
              room = room;
              half = half;
              has_half = halved;
              halfway = refl;
              levels = found ∙ ap ok (sym answered);
            })
      ]

  pub sweep_of-Answers :
      (isl : ℤ) (levels : Option (ℤ × List ℤ))
      → sweep_of F t sweep isl ≡ ok levels
      → Answers isl levels
  unfolding sweep_of
  sweep_of-Answers isl levels found =
      elim (Bool-cases (ltb_ℤ (isl +ℤ sweep.osl) t.max_context_length)) [
        | inr full ↦
            subst (Answers isl) (ok-injective none levels (rw full at found))
              (inl (ltb-false→le _ _ full))
        | inl room ↦
            let (half, halved, r₁) = >>=-eq-ok (floor_div sweep.osl (pos 2)) _ (rw room at found) in
            let (fitting, divided, r₂) =
              >>=-eq-ok (floor_div sweep.max_kv_tokens (isl +ℤ sweep.osl)) _ r₁ in
            within-Answers isl half fitting levels
              (omega (arith, ltb-true→lt _ _ room, +ℤ_parts (isl +ℤ sweep.osl) (pos 1))) halved
              divided found r₂
      ]
