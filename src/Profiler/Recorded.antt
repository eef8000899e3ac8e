-- ===== src/Profiler/Recorded.antt =====
-- What the prefill phase has recorded (`profile_prefill`): which points, and from which results of the
-- benchmark. The children are about the decode phase.
pub mod Decode
pub mod Sweeps
use rbg_planner.Prelude.{
  ℤ, pos, List, [], ◌∷◌, true, false, Option, none, some, ◌≡◌, refl, sym, ap, ◌⊎◌, inl, inr,
  Bool-cases, arith, ◌+ℤ◌, ◌≤ℤ◌, -ℤ_parts, +ℤ_parts, ltb-true→lt, ltb-false→le,
}
use mathlib.Core.Path.{subst}
use rbg_planner.Python.{ok, lift, ok-injective}
use rbg_planner.Python.Pure.{>>=-eq-ok}
use rbg_planner.Python.Returns.{>>=-returned, lift-returned}
use rbg_planner.Python.Float.{Floating, div}
use rbg_planner.Profiler.{BenchCase, BenchResult, Benchmark, Target, run_bench}
use rbg_planner.Profiler.Attempts.{Measured, run_bench-Measured}
use rbg_planner.Profiler.Prefill.{
  PrefillProfile, ttft_of, prefill_thpt, append_prefill, add_ttft, add_prefill, prefill_case,
  has_room, prefill_round, prefill_rounds, no_prefill, profile_prefill,
}
use rbg_planner.Profiler.Grown.{IsAligned, grown, grown-IsAligned, HasTtft, ttft_of-HasTtft}

module _ {F : Type 0} ⦃d : Floating F⦄ where
  open d use {of_int, le}

  module _ {W : Type 0} (bench : Benchmark F W) (t : Target) where
    -- A run of the benchmark at a length: five prompts of it, and answers of five tokens.
    pub record IsRun (isl : ℤ) (c : BenchCase) : Type 0 where
      pub prompts : c.num_prompts ≡ pos 5
      pub at_length : c.input_len ≡ isl
      pub answers : c.output_len ≡ pos 5

    -- A point that may be recorded: its length leaves room for 512 tokens and more in the context, and
    -- its numbers come from a result of the benchmark at that length, with a TTFT that is not zero or
    -- less.
    pub record Point (isl : ℤ) (ttft_ms thpt : F) : Type 0 where
      pub room : isl +ℤ pos 513 ≤ℤ t.max_context_length
      pub run : BenchCase
      pub is_run : IsRun isl run
      pub result : BenchResult F
      pub source : Measured bench t run result
      pub has_ttft : HasTtft result ttft_ms
      pub positive : le ttft_ms (of_int (pos 0)) ≡ false
      pub per_ms : F
      pub has_rate : div (of_int isl) ttft_ms ≡ ok per_ms
      pub has_thpt : div (d.mul per_ms (of_int (pos 1000))) (of_int t.num_gpus) ≡ ok thpt

    -- Why a length is left out: it leaves no room, the benchmark gave no result, or the result has no
    -- TTFT, or one that is zero or less.
    abbrev pub IsLeftOut : ℤ → Type 0
    IsLeftOut isl =
        (t.max_context_length ≤ℤ isl +ℤ pos 512)
        ⊎ ((w : W) × ((run_bench bench t (prefill_case t isl) w).0 ≡ ok none))
        ⊎ ((result : BenchResult F) × Measured bench t (prefill_case t isl) result
            × ((ttft_of result ≡ none)
                ⊎ ((x : F) × HasTtft result x × (le x (of_int (pos 0)) ≡ true))))

    -- How the input lengths, one after the other, lead from one profile to the next.
    pub data Recorded : List ℤ → PrefillProfile F → PrefillProfile F → Type 0 where
      finished : {p : PrefillProfile F} → Recorded [] p p
      left_out :
          {isl : ℤ} {isls : List ℤ} {p q : PrefillProfile F}
          → IsLeftOut isl
          → Recorded isls p q
          → Recorded (isl ∷ isls) p q
      recorded :
          {isl : ℤ} {isls : List ℤ} {p q : PrefillProfile F} {ttft_ms thpt : F}
          → Point isl ttft_ms thpt
          → Recorded isls (grown isl ttft_ms thpt p) q
          → Recorded (isl ∷ isls) p q

    -- What one input length does to the profile.
    abbrev Changed : ℤ → PrefillProfile F → PrefillProfile F → Type 0
    Changed isl p q =
        (IsLeftOut isl × (p ≡ q))
        ⊎ ((ttft_ms : F) × (thpt : F) × Point isl ttft_ms thpt × (grown isl ttft_ms thpt p ≡ q))

    case-IsRun : (isl : ℤ) → IsRun isl (prefill_case t isl)
    unfolding prefill_case
    case-IsRun isl = record { prompts = refl; at_length = refl; answers = refl }

    has_room-true : (isl : ℤ) → has_room t isl ≡ true → isl +ℤ pos 513 ≤ℤ t.max_context_length
    unfolding has_room
    has_room-true isl h =
        omega (
          arith,
          ltb-true→lt _ _ h,
          -ℤ_parts t.max_context_length (pos 512),
          +ℤ_parts isl (pos 513),
        )

    has_room-false : (isl : ℤ) → has_room t isl ≡ false → t.max_context_length ≤ℤ isl +ℤ pos 512
    unfolding has_room
    has_room-false isl h =
        omega (
          arith,
          ltb-false→le _ _ h,
          -ℤ_parts t.max_context_length (pos 512),
          +ℤ_parts isl (pos 512),
        )

    Changed-Recorded :
        {isl : ℤ} {isls : List ℤ} {p q r : PrefillProfile F}
        → Changed isl p q
        → Recorded isls q r
        → Recorded (isl ∷ isls) p r
    Changed-Recorded {isls = isls} {r = r} (inl (why, same)) rest =
        left_out why (subst (λ k. Recorded isls k r) (sym same) rest)
    Changed-Recorded {isls = isls} {r = r} (inr (ttft_ms, thpt, point, same)) rest =
        recorded point (subst (λ k. Recorded isls k r) (sym same) rest)

    add_ttft-Changed :
        (isl : ℤ) (o : Option F) (result : BenchResult F) {p q : PrefillProfile F}
        → has_room t isl ≡ true
        → Measured bench t (prefill_case t isl) result
        → ttft_of result ≡ o
        → add_ttft t.num_gpus isl o p ≡ ok q
        → Changed isl p q
    unfolding add_ttft prefill_thpt append_prefill
    add_ttft-Changed isl none result room source has e =
        inl (inr (inr (result, source, inl has)), ok-injective _ _ e)
    add_ttft-Changed isl (some ttft_ms) result {p} {q} room source has e =
        elim (Bool-cases (le ttft_ms (of_int (pos 0)))) [
          | inl invalid ↦ inl (
            inr (inr (result, source, inr (ttft_ms, ttft_of-HasTtft result has, invalid))),
            ok-injective p q (rw invalid at e),
          )
          | inr positive ↦
              let (thpt, found, same) =
                >>=-eq-ok (prefill_thpt isl ttft_ms t.num_gpus)
                  (λ thpt. ok (append_prefill isl ttft_ms thpt p)) (rw positive at e) in
              let (per_ms, has_rate, has_thpt) =
                >>=-eq-ok (div (of_int isl) ttft_ms)
                  (λ x. div (d.mul x (of_int (pos 1000))) (of_int t.num_gpus)) found in
              inr (
                ttft_ms,
                thpt,
                record {
                  room = has_room-true isl room;
                  run = prefill_case t isl;
                  is_run = case-IsRun isl;
                  result = result;
                  source = source;
                  has_ttft = ttft_of-HasTtft result has;
                  positive = positive;
                  per_ms = per_ms;
                  has_rate = has_rate;
                  has_thpt = has_thpt;
                },
                ok-injective _ q same,
              )
        ]

    add_prefill-Changed :
        (isl : ℤ) (o : Option (BenchResult F)) (w : W) {w' : W} {p q : PrefillProfile F}
        → has_room t isl ≡ true
        → run_bench bench t (prefill_case t isl) w ≡ (ok o, w')
        → add_prefill t.num_gpus isl o p ≡ ok q
        → Changed isl p q
    unfolding add_prefill
    add_prefill-Changed isl none w room ran e =
        inl (inr (inl (w, ap (λ x. x.0) ran)), ok-injective _ _ e)
    add_prefill-Changed isl (some result) w room ran e =
        add_ttft-Changed isl (ttft_of result) result room
          (run_bench-Measured bench t (prefill_case t isl) w ran) refl e

    prefill_round-Changed :
        (isl : ℤ) (p : PrefillProfile F) (w : W) {q : PrefillProfile F} {w' : W}
        → prefill_round bench t isl p w ≡ (ok q, w')
        → Changed isl p q
    unfolding prefill_round
    prefill_round-Changed isl p w {q} e = elim (Bool-cases (has_room t isl)) [
      | inl room ↦
          let add = λ (r : Option (BenchResult F)). lift {S = W} (add_prefill t.num_gpus isl r p) in
          let (o, middle, ran, added) =
            >>=-returned (run_bench bench t (prefill_case t isl)) add w (rw room at e) in
          add_prefill-Changed isl o w room ran
            (lift-returned (add_prefill t.num_gpus isl o p) middle added).0
      | inr full ↦ inl (
        inl (has_room-false isl full),
        ok-injective p q (lift-returned (ok p) w (rw full at e)).0,
      )
    ]

    prefill_rounds-Recorded :
        (isls : List ℤ) (p : PrefillProfile F) (w : W) {q : PrefillProfile F} {w' : W}
        → prefill_rounds bench t isls p w ≡ (ok q, w')
        → Recorded isls p q
    unfolding prefill_rounds
    prefill_rounds-Recorded [] p w {q} e =
        subst (λ k. Recorded [] p k) (ok-injective p q (lift-returned (ok p) w e).0) finished
    prefill_rounds-Recorded (isl ∷ isls) p w e =
        let (middle, w₁, first, rest) =
          >>=-returned (prefill_round bench t isl p) (prefill_rounds bench t isls) w e in
        Changed-Recorded (prefill_round-Changed isl p w first)
          (prefill_rounds-Recorded isls middle w₁ rest)

    pub profile_prefill-Recorded :
        (isl_points : List ℤ) (w : W) {p : PrefillProfile F} {w' : W}
        → profile_prefill bench t isl_points w ≡ (ok p, w')
        → Recorded isl_points no_prefill p
    unfolding profile_prefill
    profile_prefill-Recorded isl_points w e = prefill_rounds-Recorded isl_points no_prefill w e

    pub Recorded-IsAligned :
        {isls : List ℤ} {p q : PrefillProfile F} → Recorded isls p q → IsAligned p → IsAligned q
    Recorded-IsAligned finished h = h
    Recorded-IsAligned (left_out why rest) h = Recorded-IsAligned rest h
    Recorded-IsAligned {p = p} (recorded {isl = isl} {ttft_ms = ttft_ms} {thpt = thpt} point rest)
          h =
        Recorded-IsAligned rest (grown-IsAligned isl ttft_ms thpt p h)
