-- ===== src/Profiler/Mounted.antt =====
-- From the profiler to the planner: the ConfigMap that the profiler leaves behind, mounted as the
-- directory from which the planner loads its profile.
use rbg_planner.Prelude.{ℤ, String, List, true, false, Option, none, some, All, map, ◌≡◌, refl, ◌∙◌}
use mathlib.Core.List.{map-map, map-id}
use text.Mathlib.Text.{◌==◌ as str_eq}
use rbg_planner.Python.{ok}
use rbg_planner.Python.Float.{Floating}
use rbg_planner.Python.Text.{join_path}
use rbg_planner.Profile.{
  PrefillData, DecodeData, json_tokens, int_number, float_number, float_of, ProfileFiles, tokens_of,
  read_prefill, read_decode, load_prefill, load_decode,
}
use rbg_planner.Profiler.Prefill.{PrefillProfile, prefill_items, profile_prefill}
use rbg_planner.Profiler.Decode.{DecodeProfile, decode_items, profile_decode}
use rbg_planner.Profiler.Store.{body, ConfigMap}
use rbg_planner.Profiler.Options.{ProfilerArgs}
use rbg_planner.Profiler.Pipeline.{Outside, points_of, target_of, sweep_with, run_profiling}
use rbg_planner.Profiler.Complete.{IsWorking, run_profiling-Stores}

module _ {F : Type 0} where
  -- What a ConfigMap is as a volume: one file for each key, with its text, and no folders.
  pub record IsVolume (files : ProfileFiles F) (dir : String) (cm : ConfigMap) : Type 0 where
    pub texts : All (λ e. files.text_at (join_path dir e.0) ≡ some e.1) cm.entries
    pub no_npz : (folder name : String) → files.npz (join_path (join_path dir folder) name) ≡ none

module _ {F : Type 0} ⦃d : Floating F⦄ where
  -- The numbers of a profile, the way that numpy holds them: lengths as floats.
  abbrev pub prefill_data : PrefillProfile F → PrefillData F
  prefill_data p = record {
    prefill_isl = map d.of_int p.prefill_isl;
    prefill_ttft = p.prefill_ttft;
    prefill_thpt_per_gpu = p.prefill_thpt_per_gpu;
  }

  abbrev pub decode_data : ℤ → DecodeProfile F → DecodeData F
  decode_data tokens q = record {
    x_kv_usage = q.x_kv_usage;
    y_context_length = map d.of_int q.y_context_length;
    z_itl = q.z_itl;
    z_thpt_per_gpu = q.z_thpt_per_gpu;
    max_kv_tokens = json_tokens tokens;
  }

  floats_back : (xs : List F) → map float_of (map float_number xs) ≡ xs
  floats_back xs = map-map float_of float_number xs ∙ map-id xs

  ints_back : (ns : List ℤ) → map float_of (map int_number ns) ≡ map d.of_int ns
  ints_back ns = map-map float_of int_number ns

  -- The planner reads the keys that the profiler writes.
  read_prefill-prefill_items :
      (p : PrefillProfile F) → read_prefill (prefill_items p) ≡ ok (prefill_data p)
  unfolding read_prefill prefill_items
  read_prefill-prefill_items p =
      rw (ints_back p.prefill_isl, floats_back p.prefill_ttft, floats_back p.prefill_thpt_per_gpu)
        refl

  read_decode-decode_items :
      (tokens : ℤ) (q : DecodeProfile F)
      → read_decode tokens_of (decode_items tokens q) ≡ ok (decode_data tokens q)
  unfolding read_decode decode_items
  read_decode-decode_items tokens q =
      rw
        (
          floats_back q.x_kv_usage,
          ints_back q.y_context_length,
          floats_back q.z_itl,
          floats_back q.z_thpt_per_gpu,
        )
        refl

  load_prefill-volume :
      (files : ProfileFiles F) (dir name ns a b : String) (p : PrefillProfile F)
      → IsVolume files dir (body name ns a b)
      → str_eq dir "" ≡ false
      → files.json_load a ≡ ok (prefill_items p)
      → load_prefill (some dir) files none ≡ ok (prefill_data p)
  unfolding load_prefill
  load_prefill-volume files dir name ns a b p volume named read =
      rw (named, volume.no_npz _ _, volume.texts.0, read) (read_prefill-prefill_items p)

  load_decode-volume :
      (files : ProfileFiles F) (dir name ns a b : String) (tokens : ℤ) (q : DecodeProfile F)
      → IsVolume files dir (body name ns a b)
      → str_eq dir "" ≡ false
      → files.json_load b ≡ ok (decode_items tokens q)
      → load_decode (some dir) files none ≡ ok (decode_data tokens q)
  unfolding load_decode
  load_decode-volume files dir name ns a b tokens q volume named read =
      rw (named, volume.no_npz _ _, volume.texts.1.0, read) (read_decode-decode_items tokens q)

  module _ {W : Type 0} (out : Outside F W) (find : String → String → W → Option ConfigMap)
      (working : IsWorking out find) where
    -- A profile goes from the profiler to the planner unchanged. In surroundings that work, the output
    -- directory is made, the profiler's points are read, both phases return, and the update is asked
    -- for. In every world in which the ConfigMap of the arguments holds a text for each of its two
    -- keys, a directory, whose name is not empty, is its volume, and `json.load` reads the texts that
    -- `json.dumps` makes of the two dictionaries as those dictionaries. Then `run_profiling` returns, and
    -- afterwards the planner finds the two files and the keys in them, and loads exactly the lists of
    -- the two profiles, lengths as floats, and the number of KV tokens of the arguments.
    pub run_profiling-loads :
        (args : ProfilerArgs) (prefill_points decode_points : List ℤ) {w w₁ w₂ w₃ : W}
        {p : PrefillProfile F} {q : DecodeProfile F} (dir : String) (files : W → ProfileFiles F)
        → out.makedirs args.output_dir w ≡ (ok tt, w₁)
        → points_of args.prefill_isl_points ≡ ok prefill_points
        → points_of args.decode_isl_points ≡ ok decode_points
        → profile_prefill out.bench (target_of out.executable args) prefill_points w₁ ≡ (ok p, w₂)
        → profile_decode out.bench
            (target_of out.executable args)
            (sweep_with args)
            decode_points
            w₂
          ≡ (ok q, w₃)
        → args.update_configmap ≡ true
        → str_eq dir "" ≡ false
        → ((v : W) (a b : String)
            → find args.output_configmap args.namespace v
              ≡ some (body args.output_configmap args.namespace a b)
            → IsVolume (files v) dir (body args.output_configmap args.namespace a b))
        → ((v : W) → (files v).json_load (out.dumps (prefill_items p)) ≡ ok (prefill_items p))
        → ((v : W)
            → (files v).json_load (out.dumps (decode_items args.max_kv_tokens q))
              ≡ ok (decode_items args.max_kv_tokens q))
        → (w' : W) × (run_profiling out args w ≡ (ok tt, w'))
          × (load_prefill (some dir) (files w') none ≡ ok (prefill_data p))
          × (load_decode (some dir) (files w') none ≡ ok (decode_data args.max_kv_tokens q))
    run_profiling-loads args prefill_points decode_points {p = p} {q} dir files made read_p read_q
          prefilled decoded asked named mounted reads_p reads_q =
        let (w', done, stored) =
          run_profiling-Stores out find working args prefill_points decode_points made read_p read_q
            prefilled decoded in
        let volume = mounted w' _ _ (stored asked) in
        (
          w',
          done,
          load_prefill-volume (files w') dir args.output_configmap args.namespace _ _ p volume named
              (reads_p w'),
          load_decode-volume (files w') dir args.output_configmap args.namespace _ _
              args.max_kv_tokens q volume named (reads_q w'),
        )
