-- ===== src/Profiler/Complete.antt =====
-- What a run of the profiler that returns leaves behind (`run_profiling`).
use rbg_planner.Prelude.{
  ℕ, zero, suc, ◌+◌, ◌≤◌, ◌<◌, ℤ, String, List, [], ◌∷◌, Bool, true, false, Option, some, ◌≡◌, refl,
  sym, ap, ◌∙◌, length, arith, true-ne-false,
}
use rbg_planner.Python.{ok, lift, modify, ◌>>=◌, ◌>>◌, >>=-ok}
use rbg_planner.Python.Float.{Floating}
use rbg_planner.Python.Text.{join_path}
use rbg_planner.Interpolation.{min_items, max_items}
use rbg_planner.Profiler.{Benchmark, Target}
use rbg_planner.Profiler.Prefill.{PrefillProfile, prefill_items, profile_prefill}
use rbg_planner.Profiler.Decode.{DecodeProfile, Sweep, decode_items, profile_decode}
use rbg_planner.Profiler.Store.{body, ConfigMap}
use rbg_planner.Kubeconfig.{connect}
use rbg_planner.Profiler.Stored.{IsStore, update_configmap-Put}
use rbg_planner.Profiler.Options.{ProfilerArgs}
use rbg_planner.Profiler.Pipeline.{
  Outside, points_of, target_of, sweep_with, item_at, summary_lines, ranges_of, summary, print_json,
  store, finish, report, profile, run_profiling,
}
use rbg_planner.Profiler.Recorded as Prefills
use rbg_planner.Profiler.Recorded.Decode as Decodes

module _ {F : Type 0} where
  item_at-ok : (items : List F) (i : ℕ) → i < length items → (x : F) × (item_at items i ≡ ok x)
  unfolding item_at
  item_at-ok [] i h = absurd (omega arith)
  item_at-ok (x ∷ xs) zero h = (x, refl)
  item_at-ok (x ∷ xs) (suc i) h = item_at-ok xs i (omega arith)

  summary_lines-ok :
      (p : PrefillProfile F) (i : ℕ) (isls : List ℤ)
      → i + length isls ≤ length p.prefill_ttft
      → i + length isls ≤ length p.prefill_thpt_per_gpu
      → summary_lines p i isls ≡ ok tt
  unfolding summary_lines
  summary_lines-ok p i [] h k = refl
  summary_lines-ok p i (isl ∷ isls) h k =
      let (ttft, e) = item_at-ok p.prefill_ttft i (omega arith) in
      let (thpt, e') = item_at-ok p.prefill_thpt_per_gpu i (omega arith) in
      rw (e, e') (summary_lines-ok p (suc i) isls (omega arith) (omega arith))

module _ {F : Type 0} ⦃d : Floating F⦄ where
  items-ok :
      (xs : List F) (n : ℕ)
      → length xs ≡ suc n
      → ((a : F) × (min_items xs ≡ ok a)) × ((b : F) × (max_items xs ≡ ok b))
  unfolding min_items max_items
  items-ok [] n h = absurd (omega arith)
  items-ok (x ∷ xs) n h = ((_, refl), (_, refl))

  ranges_of-ok :
      (q : DecodeProfile F) (xs : List F)
      → length q.z_thpt_per_gpu ≡ length xs
      → length q.z_itl ≡ length xs
      → ranges_of q xs ≡ ok tt
  unfolding ranges_of
  ranges_of-ok q [] h k = refl
  ranges_of-ok q (x ∷ xs) h k =
      let ((_, a), (_, b)) = items-ok q.z_thpt_per_gpu (length xs) h in
      let ((_, a'), (_, b')) = items-ok q.z_itl (length xs) k in rw (a, b, a', b') refl

  module _ {W : Type 0} (bench : Benchmark F W) (t : Target) (sweep : Sweep) where
    -- The summary raises nothing: whatever profiles the two phases return, every point that it prints
    -- is in all lists, and the ranges are taken of lists that are not empty.
    summary_ok :
        (prefill_points decode_points : List ℤ) (w : W) {p : PrefillProfile F} {q : DecodeProfile F}
        {w' w'' : W}
        → profile_prefill bench t prefill_points w ≡ (ok p, w')
        → profile_decode bench t sweep decode_points w' ≡ (ok q, w'')
        → summary p q ≡ ok tt
    unfolding summary
    summary_ok prefill_points decode_points w {p} {q} {w'} prefilled decoded =
        let grown_p = Prefills.profile_prefill-Recorded bench t prefill_points w prefilled in
        let grown_q = Decodes.profile_decode-Recorded bench t sweep decode_points w' decoded in
        let (same_ttft, same_thpt) = Prefills.Recorded-IsAligned bench t grown_p (refl, refl) in
        let (_, _, same) = Decodes.Recorded-IsAligned bench t sweep grown_q (refl, refl, refl) in
        rw (summary_lines-ok p 0 p.prefill_isl (omega arith) (omega arith))
          (ranges_of-ok q q.z_thpt_per_gpu refl (sym same))

-- What the profiler relies on of its surroundings once both phases have returned: ConfigMaps that
-- behave as documented, a client that connects, files that can be written, and prints that touch no
-- ConfigMap.
pub record IsWorking {F W : Type 0} (out : Outside F W)
    (find : String → String → W → Option ConfigMap) : Type 0 where
  pub is_store : IsStore out.config_api find
  pub connects : (w : W) → connect out.config_api.kubeconfig w ≡ (ok tt, w)
  pub writes : (path text : String) (w : W) → (w' : W) × (out.write_file path text w ≡ (ok tt, w'))
  pub prints : (name ns text : String) (w : W) → find name ns (out.print text w) ≡ find name ns w

module _ {F W : Type 0} (out : Outside F W) (find : String → String → W → Option ConfigMap) where
  -- The texts of two profiles are in the ConfigMap of the arguments.
  abbrev pub Stores : ProfilerArgs → PrefillProfile F → DecodeProfile F → W → Type 0
  Stores args p q w =
      find args.output_configmap args.namespace w
      ≡ some (
          body args.output_configmap args.namespace (out.dumps (prefill_items p))
            (out.dumps (decode_items args.max_kv_tokens q)))

module _ {F W : Type 0} ⦃d : Floating F⦄ (out : Outside F W)
    (find : String → String → W → Option ConfigMap) (working : IsWorking out find) where
  open working use {is_store, connects, writes, prints}

  print_json-find :
      (name ns a b : String) (w : W) → find name ns (print_json out a b w) ≡ find name ns w
  print_json-find name ns a b w =
      let step = λ (text : String) (v : W). prints name ns text v in
      step _ _ ∙ step _ _ ∙ step _ _ ∙ step _ _ ∙ step _ _ ∙ step _ _

  store-Stores :
      (args : ProfilerArgs) (p : PrefillProfile F) (q : DecodeProfile F) (w : W) (b : Bool)
      → args.update_configmap ≡ b
      → (w' : W) × (store out args
            (out.dumps (prefill_items p))
            (out.dumps (decode_items args.max_kv_tokens q))
            w
          ≡ (ok tt, w'))
        × (args.update_configmap ≡ true → Stores out find args p q w')
  store-Stores args p q w true asked =
      let (w', done, (found, _)) =
        update_configmap-Put out.config_api find is_store args.output_configmap args.namespace
          (out.dumps (prefill_items p)) (out.dumps (decode_items args.max_kv_tokens q)) w
          (connects w) in
      (w', rw (asked) done, λ _. found)
  store-Stores args p q w false asked =
      (w, rw (asked) refl, λ yes. absurd (true-ne-false (sym yes ∙ asked)))

  report-Stores :
      (args : ProfilerArgs) (p : PrefillProfile F) (q : DecodeProfile F) (w : W)
      → summary p q ≡ ok tt
      → (w' : W) × (report out args p q w ≡ (ok tt, w'))
        × (args.update_configmap ≡ true → Stores out find args p q w')
  unfolding report
  report-Stores args p q w summed =
      let a = out.dumps (prefill_items p) in
      let b = out.dumps (decode_items args.max_kv_tokens q) in
      let (w₁, first) = writes (join_path args.output_dir "prefill_raw_data.json") a w in
      let (w₂, second) = writes (join_path args.output_dir "decode_raw_data.json") b w₁ in
      let (w₃, stored, found) = store-Stores args p q w₂ args.update_configmap refl in
      let finished : finish out args p q w₂ ≡ (ok tt, print_json out a b w₃) =
        >>=-ok (lift (summary p q)) (λ _. store out args a b >> modify (print_json out a b)) w₂
          (ap (λ r. (r, w₂)) summed)
        ∙ >>=-ok (store out args a b) (λ _. modify (print_json out a b)) w₂ stored in
      let write_second = out.write_file (join_path args.output_dir "decode_raw_data.json") b in
      (
        print_json out a b w₃,
        >>=-ok (out.write_file (join_path args.output_dir "prefill_raw_data.json") a)
              (λ _. write_second >> finish out args p q) w first
            ∙ (>>=-ok write_second (λ _. finish out args p q) w₁ second ∙ finished),
        λ yes. print_json-find args.output_configmap args.namespace a b w₃ ∙ found yes,
      )

  -- Once the points are read and both phases have returned, nothing can fail in surroundings that
  -- work: `run_profiling` returns, and where the update is asked for, the ConfigMap of the arguments
  -- then holds the JSON of exactly the two profiles that the phases returned.
  pub run_profiling-Stores :
      (args : ProfilerArgs) (prefill_points decode_points : List ℤ) {w w₁ w₂ w₃ : W}
      {p : PrefillProfile F} {q : DecodeProfile F}
      → out.makedirs args.output_dir w ≡ (ok tt, w₁)
      → points_of args.prefill_isl_points ≡ ok prefill_points
      → points_of args.decode_isl_points ≡ ok decode_points
      → profile_prefill out.bench (target_of out.executable args) prefill_points w₁ ≡ (ok p, w₂)
      → profile_decode out.bench (target_of out.executable args) (sweep_with args) decode_points w₂
        ≡ (ok q, w₃)
      → (w' : W) × (run_profiling out args w ≡ (ok tt, w'))
        × (args.update_configmap ≡ true → Stores out find args p q w')
  unfolding run_profiling profile
  run_profiling-Stores args prefill_points decode_points {w} {w₁} {w₂} {w₃} {p} {q} made read_p
        read_q prefilled decoded =
      let t = target_of out.executable args in
      let (w', reported, found) = report-Stores args p q w₃ (
        summary_ok out.bench t (sweep_with args) prefill_points decode_points w₁ prefilled
          decoded) in
      let decode = profile_decode out.bench t (sweep_with args) decode_points in
      let profiled : profile out args prefill_points decode_points w₁ ≡ (ok tt, w') =
        >>=-ok (profile_prefill out.bench t prefill_points) (λ k. decode >>= report out args k) w₁
          prefilled
        ∙ (>>=-ok decode (report out args p) w₂ decoded ∙ reported) in
      let on_prefill = λ (points : List ℤ).
        lift {S = W} (points_of args.decode_isl_points) >>= profile out args points in
      let points = lift {S = W} (points_of args.prefill_isl_points) in
      (
        w',
        >>=-ok (out.makedirs args.output_dir) (λ _. points >>= on_prefill) w made
            ∙ (>>=-ok points on_prefill w₁ (ap (λ r. (r, w₁)) read_p)
                ∙ (>>=-ok (lift {S = W} (points_of args.decode_isl_points))
                      (profile out args prefill_points) w₁ (ap (λ r. (r, w₁)) read_q)
                    ∙ profiled)),
        found,
      )
