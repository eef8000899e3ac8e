-- ===== src/Profiler/Attempts.antt =====
-- What a run of the benchmark has gone through.
use rbg_planner.Prelude.{
  ℕ, zero, suc, pos, eq_ℤ, String, List, Option, none, some, eq_ℤ→≡, ◌⊎◌, ◌≡◌, refl, ap, ◌∙◌,
  Bool-cases, inl, inr,
}
use mathlib.Core.List.{get_last?}
use rbg_planner.Python.{Result, ok, err, file_not_found, json_decode_error, Method}
use rbg_planner.Python.Pure.{>>=-eq-ok}
use rbg_planner.Python.Returns.{>>=-returned, lift-returned}
use rbg_planner.Profiler.{
  BenchResult, Benchmark, Target, BenchCase, command, stripped, handled, or_else, after_run,
  last_result, load_line, read_result, attempts, run_bench,
}

handled-some :
    {A : Type 0} (x : Result (Option A)) {a : A} → handled x ≡ ok (some a) → x ≡ ok (some a)
handled-some (ok o) e = e
handled-some (err file_not_found) e = absurd (cc)
handled-some (err json_decode_error) e = absurd (cc)
handled-some (err x) e = absurd (cc)

ok_some-injective :
    {A : Type 0} (a b : A) → ◌≡◌ {A = Result (Option A)} (ok (some a)) (ok (some b)) → a ≡ b
ok_some-injective a b e = cc

module _ {F W : Type 0} (bench : Benchmark F W) (t : Target) (c : BenchCase) where
  -- A result that a run has written: the exit code was zero, and the last line of the file that is
  -- not blank was the result's JSON.
  pub record Measured (r : BenchResult F) : Type 0 where
    pub before : W
    pub after : W
    pub exit_code : bench.run (command t c) before ≡ (ok (pos 0), after)
    pub lines : List String
    pub read : (bench.read_lines c.result_file after).0 ≡ ok lines
    pub line : String
    pub is_last : get_last? (stripped lines) ≡ some line
    pub parsed : bench.loads line ≡ ok r

  load_line-some :
      (o : Option String) {r : BenchResult F}
      → load_line bench o ≡ ok (some r)
      → (line : String) × (o ≡ some line) × (bench.loads line ≡ ok r)
  load_line-some none e = absurd (cc)
  load_line-some (some line) {r} e =
      let (r', parsed, same) = >>=-eq-ok (bench.loads line) (λ x. ok (some x)) e in
      (line, refl, parsed ∙ ap ok (ok_some-injective r' r same))

  read_result-Measured :
      {before after w' : W} {r : BenchResult F}
      → bench.run (command t c) before ≡ (ok (pos 0), after)
      → read_result bench c.result_file after ≡ (ok (some r), w')
      → Measured r
  unfolding read_result last_result
  read_result-Measured {before} {after} {w'} {r} ran e =
      let (handled_ok, _) = lift-returned _ _ e in
      let (lines, read, loaded) =
        >>=-eq-ok (bench.read_lines c.result_file after).0 (last_result bench)
          (handled-some _ handled_ok) in
      let (line, is_last, parsed) = load_line-some (get_last? (stripped lines)) loaded in
      record {
        before = before;
        after = after;
        exit_code = ran;
        lines = lines;
        read = read;
        line = line;
        is_last = is_last;
        parsed = parsed;
      }

  or_else-Measured :
      (o : Option (BenchResult F)) (again : Method W (Option (BenchResult F)))
      {before after middle w' : W} {r : BenchResult F}
      → bench.run (command t c) before ≡ (ok (pos 0), after)
      → read_result bench c.result_file after ≡ (ok o, middle)
      → or_else again o middle ≡ (ok (some r), w')
      → (again middle ≡ (ok (some r), w')) ⊎ Measured r
  or_else-Measured none again ran read e = inl e
  or_else-Measured (some r') again {w' = w'} {r = r} ran read e =
      inr (read_result-Measured ran (read ∙ e))

  attempts-Measured :
      (n : ℕ) (w : W) {w' : W} {r : BenchResult F}
      → attempts bench n t c w ≡ (ok (some r), w')
      → Measured r
  unfolding attempts
  attempts-Measured zero w e = absurd (cc)
  attempts-Measured (suc n) w {w'} {r} e =
      let again = attempts bench n t c in
      let (code, after, ran, rest) =
        >>=-returned (bench.run (command t c)) (after_run bench again c.result_file) w e in
      elim (Bool-cases (eq_ℤ code (pos 0))) [
        | inl zero_code ↦
            let (o, middle, read, next) =
              >>=-returned (read_result bench c.result_file) (or_else again) after
                (rw zero_code at rest) in
            elim (or_else-Measured o again
              (ran ∙ ap (λ k. (ok k, after)) (eq_ℤ→≡ code (pos 0) zero_code)) read next) [
                | inl later ↦ attempts-Measured n middle later
                | inr found ↦ found
              ]
        | inr other ↦ attempts-Measured n (bench.sleep 5 after) (rw other at rest)
      ]

  -- A result of `run_bench` was measured: some run of exactly its command ended with exit code 0, and
  -- it is the JSON on the last line that is not blank of the result file as it was read then.
  pub run_bench-Measured :
      (w : W) {w' : W} {r : BenchResult F} → run_bench bench t c w ≡ (ok (some r), w') → Measured r
  unfolding run_bench
  run_bench-Measured w e = attempts-Measured 3 w e
