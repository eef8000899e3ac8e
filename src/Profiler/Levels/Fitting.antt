-- ===== src/Profiler/Levels/Fitting.antt =====
-- What a sweep of one input length asks of the KV cache, and when it cannot be made
-- (`profile_decode`).
use rbg_planner.Prelude.{
  ℕ, suc, ◌*◌, ◌/◌, ◌≤◌, ◌<◌, ◌+◌, map, ◌⊎◌, le_or_gt, eq_of_parts, +ℤ_parts, ◌≤ℤ◌, ltb-false→le, ℤ,
  pos, negsuc, ◌+ℤ◌, ◌-ℤ◌, min_ℤ, ltb_ℤ, List, [], ◌∷◌, All, All-weaken, true, false, Option, some,
  ◌≡◌, refl, sym, ap, ◌∙◌, inl, inr, Bool-cases, arith,
}
use rbg_planner.Python.{Result, ok, err, lift, ok-injective, zero_division, ◌>>=◌, err-ne-ok}
use rbg_planner.Python.Returns.{>>=-returned, lift-returned}
use rbg_planner.Python.Pure.{>>=-eq-ok}
use rbg_planner.Python.Division.{floor_div, times_le, mul_le, le_div}
use rbg_planner.Python.Float.{Floating}
use rbg_planner.Profiler.{Benchmark, Target}
use rbg_planner.Profiler.Decode.{
  DecodeProfile, Sweep, concurrency_points, levels_within, sweep_of, decode_sweep, decode_lengths,
  no_decode, profile_decode,
}
use rbg_planner.Profiler.Levels.{Ascends, Within, IsSpaced, concurrency_points-Within}

-- A level of a sweep: from 1 to 512, and its requests of `len` tokens fit into the KV cache together.
abbrev pub IsLevel : ℕ → ℕ → ℤ → Type 0
IsLevel tokens len conc = (c : ℕ) × (conc ≡ pos c) × (1 ≤ c) × (c ≤ 512) × (c * len ≤ tokens)

Within-IsLevel :
    (tokens len k m : ℕ)
    → k ≤ 512
    → k ≤ m
    → m * len ≤ tokens
    → (conc : ℤ) → Within k conc
    → IsLevel tokens len conc
Within-IsLevel tokens len k m small less fit (pos c) (above, below) =
    (c, refl, ground arith, omega arith, omega (arith, mul_le c m len (omega arith)))
Within-IsLevel tokens len k m small less fit (negsuc c) (above, below) = absurd (ground arith)

min_of_pos :
    (a b : ℕ)
    → (m : ℕ) × (min_ℤ (pos a) (pos b) ≡ pos m)
      × (m ≤ a)
      × (m ≤ b)
      × ((k : ℕ) → k ≤ a → k ≤ b → k ≤ m)
unfolding min_ℤ
min_of_pos a b = elim (Bool-cases (ltb_ℤ (pos b) (pos a))) [
  | inl less ↦ (b, rw (less) refl, ground arith, omega arith, λ k h l. l)
  | inr other ↦ (a, rw (other) refl, omega arith, ground arith, λ k h l. h)
]

abbrev levels_in : Result (Option (ℤ × List ℤ)) → List ℤ
levels_in (ok (some (context_length, levels))) = levels
levels_in _ = []

module _ (F : Type 0) ⦃d : Floating F⦄ where
  module _ (t : Target) (sweep : Sweep) where
    fitting_known :
        (isl : ℤ) (tokens len : ℕ)
        → sweep.max_kv_tokens ≡ pos tokens
        → isl +ℤ sweep.osl ≡ pos (suc len)
        → floor_div sweep.max_kv_tokens (isl +ℤ sweep.osl) ≡ floor_div (pos tokens) (pos (suc len))
    fitting_known isl tokens len known sized =
        ap (λ k. floor_div k (isl +ℤ sweep.osl)) known ∙ ap (floor_div (pos tokens)) sized

    levels_within-points :
        (c m : ℤ) {context_length : ℤ} {levels : List ℤ}
        → levels_within F sweep c m ≡ ok (some (context_length, levels))
        → concurrency_points F m sweep.granularity ≡ ok levels
    unfolding levels_within
    levels_within-points c m e = elim (Bool-cases (ltb_ℤ m (pos 1))) [
      | inl short ↦ absurd (cc (rw (short) at e))
      | inr enough ↦
          let (points, found, same) =
            >>=-eq-ok (concurrency_points F m sweep.granularity) _ (rw (enough) at e) in
          found ∙ ap (λ r. ok (levels_in r)) same
    ]

    levels_within_one :
        (c : ℤ) (m : ℕ)
        → 2 ≤ m
        → sweep.granularity ≡ pos 1
        → levels_within F sweep c (pos m) ≡ err zero_division
    unfolding levels_within concurrency_points ◌-ℤ◌
    levels_within_one c m two one = rw (one, positive, fewer) refl
      where
        positive : ltb_ℤ (pos m) (pos 1) ≡ false
        positive = ground arith

        fewer : ltb_ℤ (pos 1) (pos m) ≡ true
        fewer = ground arith

    sweep_of_one :
        (isl : ℤ) (tokens len osl : ℕ)
        → sweep.granularity ≡ pos 1
        → sweep.osl ≡ pos osl
        → sweep.max_kv_tokens ≡ pos tokens
        → isl +ℤ sweep.osl ≡ pos (suc len)
        → ltb_ℤ (isl +ℤ sweep.osl) t.max_context_length ≡ true
        → 2 * suc len ≤ tokens
        → sweep_of F t sweep isl ≡ err zero_division
    unfolding sweep_of floor_div
    sweep_of_one isl tokens len osl one answer known sized room two =
        let (m, same, _, _, greatest) = min_of_pos (tokens / suc len) 512 in
        let enough = greatest 2 (le_div tokens (suc len) 2 (omega arith) two) (omega arith) in
        let halved : floor_div sweep.osl (pos 2) ≡ ok (pos (osl / 2)) =
          ap (λ k. floor_div k (pos 2)) answer in
        let divided : floor_div sweep.max_kv_tokens (isl +ℤ sweep.osl)
            ≡ ok (pos (tokens / suc len)) =
          fitting_known isl tokens len known sized in
        rw (room, halved, divided, same) (levels_within_one (isl +ℤ pos (osl / 2)) m enough one)

  module _ (spaced : IsSpaced F) (t : Target) (sweep : Sweep) where
    levels-IsLevel :
        (tokens len : ℕ) (fitting : ℤ) {levels : List ℤ}
        → floor_div (pos tokens) (pos (suc len)) ≡ ok fitting
        → concurrency_points F (min_ℤ fitting (pos 512)) sweep.granularity ≡ ok levels
        → Ascends (pos 0) levels × All (IsLevel tokens (suc len)) levels
    unfolding floor_div
    levels-IsLevel tokens len fitting {levels} divided e =
        let (m, same, fits, small, _) = min_of_pos (tokens / suc len) 512 in
        let same_fitting = ok-injective (pos (tokens / suc len)) fitting divided in
        let points : concurrency_points F (pos m) sweep.granularity ≡ ok levels =
          ap (λ k. concurrency_points F k sweep.granularity)
            (sym same ∙ ap (λ k. min_ℤ k (pos 512)) same_fitting)
          ∙ e in
        let (ascends, within) =
          concurrency_points-Within F spaced m small sweep.granularity points in
        (
          ascends,
          All-weaken
              (Within-IsLevel tokens (suc len) m m small (omega arith)
                (times_le tokens (suc len) m fits))
              levels within,
        )

    -- A sweep never asks for more than there is: where the prompt and its answer have `len` tokens,
    -- its levels ascend strictly from at least 1 to at most 512, and at each of them that many
    -- requests of `len` tokens fit into the KV cache; provided that floats space points evenly up to
    -- rounding.
    pub sweep_of-IsLevel :
        (isl context_length : ℤ) (tokens len : ℕ) {levels : List ℤ}
        → isl +ℤ sweep.osl ≡ pos (suc len)
        → sweep.max_kv_tokens ≡ pos tokens
        → sweep_of F t sweep isl ≡ ok (some (context_length, levels))
        → Ascends (pos 0) levels × All (IsLevel tokens (suc len)) levels
    unfolding sweep_of
    sweep_of-IsLevel isl context_length tokens len sized known e =
        elim (Bool-cases (ltb_ℤ (isl +ℤ sweep.osl) t.max_context_length)) [
          | inr full ↦ absurd (cc (rw (full) at e))
          | inl room ↦
              let (half, _, r₁) = >>=-eq-ok (floor_div sweep.osl (pos 2)) _ (rw (room) at e) in
              let (fitting, divided, r₂) =
                >>=-eq-ok (floor_div sweep.max_kv_tokens (isl +ℤ sweep.osl)) _ r₁ in
              levels-IsLevel tokens len fitting
                (sym (fitting_known t sweep isl tokens len known sized) ∙ divided)
                (levels_within-points t sweep (isl +ℤ half) (min_ℤ fitting (pos 512)) r₂)
        ]

  module _ {W : Type 0} (bench : Benchmark F W) (t : Target) (sweep : Sweep) where
    -- An input length of which no two requests can be swept: with the answer it leaves no room in the
    -- context, or two of its requests do not fit into the KV cache together.
    abbrev pub IsLone : ℕ → ℕ → ℕ → Type 0
    IsLone tokens osl n = (t.max_context_length ≤ℤ pos n +ℤ sweep.osl) ⊎ (tokens < 2 * (n + osl))

    sweep_of-IsLone :
        (n tokens osl : ℕ)
        → sweep.granularity ≡ pos 1
        → sweep.osl ≡ pos (suc osl)
        → sweep.max_kv_tokens ≡ pos tokens
        → IsLone tokens (suc osl) n ⊎ (sweep_of F t sweep (pos n) ≡ err zero_division)
    unfolding ◌+ℤ◌
    sweep_of-IsLone n tokens osl one answer known =
        elim (Bool-cases (ltb_ℤ (pos n +ℤ sweep.osl) t.max_context_length)) [
          | inr full ↦ inl (inl (ltb-false→le _ _ full))
          | inl room ↦ elim (le_or_gt (2 * suc (n + osl)) tokens) [
            | inr few ↦ inl (inr (omega (arith, few)))
            | inl two ↦ inr (
                sweep_of_one t sweep (pos n) tokens (n + osl) (suc osl) one answer known
                  (ap (λ k. pos n +ℤ k) answer
                    ∙ eq_of_parts _ _ (omega (arith, +ℤ_parts (pos n) (pos (suc osl)))))
                  room two)
          ]
        ]

    decode_lengths-IsLone :
        (ns : List ℕ) (tokens osl : ℕ) (p : DecodeProfile F) (w : W) {q : DecodeProfile F} {w' : W}
        → sweep.granularity ≡ pos 1
        → sweep.osl ≡ pos (suc osl)
        → sweep.max_kv_tokens ≡ pos tokens
        → decode_lengths bench t sweep (map pos ns) p w ≡ (ok q, w')
        → All (IsLone tokens (suc osl)) ns
    unfolding decode_lengths
    decode_lengths-IsLone [] tokens osl p w one answer known e = tt
    decode_lengths-IsLone (n ∷ ns) tokens osl p w one answer known e =
        let next = λ (levels : Option (ℤ × List ℤ)).
          decode_sweep bench t sweep (pos n) p levels
          >>= decode_lengths bench t sweep (map pos ns) in
        let (levels, w₁, found, rest) =
          >>=-returned (lift {S = W} (sweep_of F t sweep (pos n))) next w e in
        let (middle, w₂, _, later) =
          >>=-returned (decode_sweep bench t sweep (pos n) p levels)
            (decode_lengths bench t sweep (map pos ns)) w₁ rest in
        let swept = (lift-returned (sweep_of F t sweep (pos n)) w found).0 in
        (
          elim (sweep_of-IsLone n tokens osl one answer known) [
            | inl lone ↦ lone
            | inr raised ↦ absurd (err-ne-ok (sym raised ∙ swept))
          ],
          decode_lengths-IsLone ns tokens osl middle w₂ one answer known later,
        )

    -- With a granularity of one the decode phase cannot sweep two requests: where it returns, on any
    -- list of input lengths, each of them leaves no room in the context, or two of its requests do not
    -- fit into the KV cache. At any other length it has raised. Answers have at least one token.
    pub profile_decode_one :
        (ns : List ℕ) (tokens osl : ℕ) (w : W) {q : DecodeProfile F} {w' : W}
        → sweep.granularity ≡ pos 1
        → sweep.osl ≡ pos (suc osl)
        → sweep.max_kv_tokens ≡ pos tokens
        → profile_decode bench t sweep (map pos ns) w ≡ (ok q, w')
        → All (IsLone tokens (suc osl)) ns
    unfolding profile_decode
    profile_decode_one ns tokens osl w one answer known e =
        decode_lengths-IsLone ns tokens osl no_decode w one answer known e
