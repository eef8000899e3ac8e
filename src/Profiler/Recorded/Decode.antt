-- ===== src/Profiler/Recorded/Decode.antt =====
-- What `profile_decode` has recorded.
use rbg_planner.Prelude.{
  ℤ, pos, ap, List, [], ◌∷◌, Option, none, some, ◌≡◌, refl, sym, ◌⊎◌, inl, inr,
}
use mathlib.Core.Path.{subst}
use rbg_planner.Python.{ok, lift, ok-injective, ◌>>=◌}
use rbg_planner.Python.Pure.{>>=-eq-ok}
use rbg_planner.Python.Returns.{>>=-returned, lift-returned}
use rbg_planner.Python.Float.{Floating, div, div_int}
use rbg_planner.Profiler.{BenchCase, BenchResult, Benchmark, Target, run_bench}
use rbg_planner.Profiler.Attempts.{Measured, run_bench-Measured}
use rbg_planner.Profiler.Recorded.Sweeps.{IsSkipped, IsSwept, sweep_of-Answers}
use rbg_planner.Profiler.Decode.{
  DecodeProfile, Sweep, itl_of, kv_usage_of, append_decode, add_measured, add_decode, decode_case,
  sweep_of, decode_round, decode_levels, decode_sweep, decode_lengths, no_decode, profile_decode,
}
use rbg_planner.Profiler.Grown.Decode.{IsAligned, grown, grown-IsAligned, HasItl, itl_of-HasItl}

module _ {F : Type 0} ⦃d : Floating F⦄ where
  module _ {W : Type 0} (bench : Benchmark F W) (t : Target) (sweep : Sweep) where
    -- A run of the benchmark at a length and a level: as many prompts as the level.
    pub record IsRun (isl conc : ℤ) (c : BenchCase) : Type 0 where
      pub prompts : c.num_prompts ≡ conc
      pub at_length : c.input_len ≡ isl
      pub answers : c.output_len ≡ sweep.osl

    -- A point that may be recorded for an input length and a level: its numbers come from a result of
    -- the benchmark there, and the share of the KV cache is of prompts with half of their answers.
    pub record Point (isl conc : ℤ) (kv_usage itl_ms thpt : F) : Type 0 where
      pub run : BenchCase
      pub is_run : IsRun isl conc run
      pub result : BenchResult F
      pub throughput : F
      pub source : Measured bench t run result
      pub has_itl : HasItl result itl_ms
      pub has_throughput : result.output_throughput ≡ some throughput
      pub has_thpt : div throughput (d.of_int t.num_gpus) ≡ ok thpt
      pub half : F
      pub has_half : div_int sweep.osl (pos 2) ≡ ok half
      pub has_usage :
          div (d.mul (d.add (d.of_int isl) half) (d.of_int conc)) (d.of_int sweep.max_kv_tokens)
          ≡ ok kv_usage

    -- Why a level is left out: the benchmark gave no result, or one without an ITL or a throughput.
    abbrev pub IsLeftOut : ℤ → ℤ → Type 0
    IsLeftOut isl conc =
        ((w : W) × ((run_bench bench t (decode_case t sweep isl conc) w).0 ≡ ok none))
        ⊎ ((result : BenchResult F) × Measured bench t (decode_case t sweep isl conc) result
            × ((itl_of result ≡ none) ⊎ (result.output_throughput ≡ none)))

    -- How the levels of one input length lead from one profile to the next.
    pub data Levels (isl context_length : ℤ)
        : List ℤ → DecodeProfile F → DecodeProfile F → Type 0 where
      finished : {p : DecodeProfile F} → Levels isl context_length [] p p
      left_out :
          {conc : ℤ} {concs : List ℤ} {p q : DecodeProfile F}
          → IsLeftOut isl conc
          → Levels isl context_length concs p q
          → Levels isl context_length (conc ∷ concs) p q
      recorded :
          {conc : ℤ} {concs : List ℤ} {p q : DecodeProfile F} {kv_usage itl_ms thpt : F}
          → Point isl conc kv_usage itl_ms thpt
          → Levels isl context_length concs (grown context_length kv_usage itl_ms thpt p) q
          → Levels isl context_length (conc ∷ concs) p q

    -- How the input lengths do.
    pub data Recorded : List ℤ → DecodeProfile F → DecodeProfile F → Type 0 where
      finished : {p : DecodeProfile F} → Recorded [] p p
      skipped :
          {isl : ℤ} {isls : List ℤ} {p q : DecodeProfile F}
          → IsSkipped F t sweep isl
          → Recorded isls p q
          → Recorded (isl ∷ isls) p q
      swept :
          {isl context_length : ℤ} {concs isls : List ℤ} {p q r : DecodeProfile F}
          → IsSwept F t sweep isl context_length concs
          → Levels isl context_length concs p q
          → Recorded isls q r
          → Recorded (isl ∷ isls) p r

    -- What one level does to the profile.
    abbrev Changed : ℤ → ℤ → ℤ → DecodeProfile F → DecodeProfile F → Type 0
    Changed isl context_length conc p q =
        (IsLeftOut isl conc × (p ≡ q))
        ⊎ ((kv_usage : F) × (itl_ms : F) × (thpt : F) × Point isl conc kv_usage itl_ms thpt
            × (grown context_length kv_usage itl_ms thpt p ≡ q))

    case-IsRun : (isl conc : ℤ) → IsRun isl conc (decode_case t sweep isl conc)
    unfolding decode_case
    case-IsRun isl conc = record { prompts = refl; at_length = refl; answers = refl }

    Changed-Levels :
        {isl context_length conc : ℤ} {concs : List ℤ} {p q r : DecodeProfile F}
        → Changed isl context_length conc p q
        → Levels isl context_length concs q r
        → Levels isl context_length (conc ∷ concs) p r
    Changed-Levels {isl} {context_length} {concs = concs} {r = r} (inl (why, same)) rest =
        left_out why (subst (λ k. Levels isl context_length concs k r) (sym same) rest)
    Changed-Levels {isl} {context_length} {concs = concs} {r = r} (inr (_, _, _, point, same))
          rest =
        recorded point (subst (λ k. Levels isl context_length concs k r) (sym same) rest)

    add_measured-Changed :
        (isl context_length conc : ℤ) (itl throughput : Option F) (result : BenchResult F)
        {p q : DecodeProfile F}
        → Measured bench t (decode_case t sweep isl conc) result
        → itl_of result ≡ itl
        → result.output_throughput ≡ throughput
        → add_measured t sweep isl context_length conc itl throughput p ≡ ok q
        → Changed isl context_length conc p q
    unfolding add_measured append_decode kv_usage_of
    add_measured-Changed isl context_length conc (some itl_ms) (some throughput) result {p} {q}
          source has_itl has_throughput e =
        let (thpt, has_thpt, rest) = >>=-eq-ok (div throughput (d.of_int t.num_gpus)) _ e in
        let (kv_usage, found, same) = >>=-eq-ok (kv_usage_of sweep isl conc) _ rest in
        let (half, has_half, has_usage) =
          >>=-eq-ok (div_int {F = F} sweep.osl (pos 2))
            (λ x.
              div (d.mul (d.add (d.of_int isl) x) (d.of_int conc)) (d.of_int sweep.max_kv_tokens))
            found in
        inr (
          kv_usage,
          itl_ms,
          thpt,
          record {
            run = decode_case t sweep isl conc;
            is_run = case-IsRun isl conc;
            result = result;
            throughput = throughput;
            source = source;
            has_itl = itl_of-HasItl result has_itl;
            has_throughput = has_throughput;
            has_thpt = has_thpt;
            half = half;
            has_half = has_half;
            has_usage = has_usage;
          },
          ok-injective _ q same,
        )
    add_measured-Changed isl context_length conc (some itl_ms) none result source has_itl
          has_throughput e =
        inl (inr (result, source, inr has_throughput), ok-injective _ _ e)
    add_measured-Changed isl context_length conc none throughput result source has_itl
          has_throughput e =
        inl (inr (result, source, inl has_itl), ok-injective _ _ e)

    add_decode-Changed :
        (isl context_length conc : ℤ) (o : Option (BenchResult F)) (w : W) {w' : W}
        {p q : DecodeProfile F}
        → run_bench bench t (decode_case t sweep isl conc) w ≡ (ok o, w')
        → add_decode t sweep isl context_length conc o p ≡ ok q
        → Changed isl context_length conc p q
    unfolding add_decode
    add_decode-Changed isl context_length conc none w ran e =
        inl (inl (w, ap (λ x. x.0) ran), ok-injective _ _ e)
    add_decode-Changed isl context_length conc (some result) w ran e =
        add_measured-Changed isl context_length conc (itl_of result) result.output_throughput result
          (run_bench-Measured bench t (decode_case t sweep isl conc) w ran) refl refl e

    decode_levels-Levels :
        (isl context_length : ℤ) (concs : List ℤ) (p : DecodeProfile F) (w : W)
        {q : DecodeProfile F} {w' : W}
        → decode_levels bench t sweep isl context_length concs p w ≡ (ok q, w')
        → Levels isl context_length concs p q
    unfolding decode_levels decode_round
    decode_levels-Levels isl context_length [] p w {q} e =
        subst (λ k. Levels isl context_length [] p k)
          (ok-injective p q (lift-returned (ok p) w e).0) finished
    decode_levels-Levels isl context_length (conc ∷ concs) p w e =
        let add = λ (r : Option (BenchResult F)).
          lift {S = W} (add_decode t sweep isl context_length conc r p) in
        let (middle, w₁, first, rest) =
          >>=-returned (decode_round bench t sweep isl context_length conc p)
            (decode_levels bench t sweep isl context_length concs) w e in
        let (o, w₂, ran, added) =
          >>=-returned (run_bench bench t (decode_case t sweep isl conc)) add w first in
        Changed-Levels
          (add_decode-Changed isl context_length conc o w ran
            (lift-returned (add_decode t sweep isl context_length conc o p) w₂ added).0)
          (decode_levels-Levels isl context_length concs middle w₁ rest)

    decode_sweep-Recorded :
        (isl : ℤ) (levels : Option (ℤ × List ℤ)) (p : DecodeProfile F) (w : W)
        {q r : DecodeProfile F} {w' : W} {isls : List ℤ}
        → sweep_of F t sweep isl ≡ ok levels
        → decode_sweep bench t sweep isl p levels w ≡ (ok q, w')
        → Recorded isls q r
        → Recorded (isl ∷ isls) p r
    unfolding decode_sweep
    decode_sweep-Recorded isl none p w {q} {r} {isls = isls} found e rest =
        skipped (sweep_of-Answers F t sweep isl none found) (
          subst (λ k. Recorded isls k r) (sym (ok-injective p q (lift-returned (ok p) w e).0)) rest)
    decode_sweep-Recorded isl (some (context_length, concs)) p w found e rest =
        swept (sweep_of-Answers F t sweep isl (some (context_length, concs)) found)
          (decode_levels-Levels isl context_length concs p w e) rest

    decode_lengths-Recorded :
        (isls : List ℤ) (p : DecodeProfile F) (w : W) {q : DecodeProfile F} {w' : W}
        → decode_lengths bench t sweep isls p w ≡ (ok q, w')
        → Recorded isls p q
    unfolding decode_lengths
    decode_lengths-Recorded [] p w {q} e =
        subst (λ k. Recorded [] p k) (ok-injective p q (lift-returned (ok p) w e).0) finished
    decode_lengths-Recorded (isl ∷ isls) p w e =
        let next = λ (levels : Option (ℤ × List ℤ)).
          decode_sweep bench t sweep isl p levels >>= decode_lengths bench t sweep isls in
        let (levels, w₁, found, rest) =
          >>=-returned (lift {S = W} (sweep_of F t sweep isl)) next w e in
        let (middle, w₂, first, later) =
          >>=-returned (decode_sweep bench t sweep isl p levels) (decode_lengths bench t sweep isls)
            w₁ rest in
        decode_sweep-Recorded isl levels p w₁ (lift-returned (sweep_of F t sweep isl) w found).0
          first (decode_lengths-Recorded isls middle w₂ later)

    pub profile_decode-Recorded :
        (isl_points : List ℤ) (w : W) {p : DecodeProfile F} {w' : W}
        → profile_decode bench t sweep isl_points w ≡ (ok p, w')
        → Recorded isl_points no_decode p
    unfolding profile_decode
    profile_decode-Recorded isl_points w e = decode_lengths-Recorded isl_points no_decode w e

    Levels-IsAligned :
        {isl context_length : ℤ} {concs : List ℤ} {p q : DecodeProfile F}
        → Levels isl context_length concs p q
        → IsAligned p
        → IsAligned q
    Levels-IsAligned finished h = h
    Levels-IsAligned (left_out why rest) h = Levels-IsAligned rest h
    Levels-IsAligned {context_length = context_length} {p = p}
          (recorded {kv_usage = kv_usage} {itl_ms = itl_ms} {thpt = thpt} point rest) h =
        Levels-IsAligned rest (grown-IsAligned context_length kv_usage itl_ms thpt p h)

    pub Recorded-IsAligned :
        {isls : List ℤ} {p q : DecodeProfile F} → Recorded isls p q → IsAligned p → IsAligned q
    Recorded-IsAligned finished h = h
    Recorded-IsAligned (skipped _ rest) h = Recorded-IsAligned rest h
    Recorded-IsAligned (swept _ levels rest) h = Recorded-IsAligned rest (Levels-IsAligned levels h)
