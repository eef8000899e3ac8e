-- ===== src/Tests/Mounted.antt =====
-- The ConfigMap of a whole run of the profiler, mounted as the planner's directory.
use Prim.Native.String.{◌++◌ as append}
use text.Mathlib.Text.{◌==◌ as str_eq}
use rbg_planner.Prelude.{
  pos, String, List, [], ◌∷◌, Option, none, some, if◌then◌else◌, ◌≡◌, refl, ap,
}
use rbg_planner.Python.{ok, err, json_decode_error}
use rbg_planner.Python.Text.{join_path}
use rbg_planner.Profile.{ProfileFiles, load_prefill, load_decode}
use rbg_planner.Profiler.Prefill.{prefill_items}
use rbg_planner.Profiler.Decode.{decode_items}
use rbg_planner.Profiler.Store.{body, ConfigMap}
use rbg_planner.Profiler.Pipeline.{run_profiling}
use rbg_planner.Profiler.Mounted.{IsVolume, prefill_data, decode_data, run_profiling-loads}
use rbg_planner.Tests.Fixed.{Fixed, fixed_Floating}
use rbg_planner.Tests.Profiler.{World, empty}
use rbg_planner.Tests.Stored.{
  find, small_outside, small_outside-IsWorking, small_args, prefill_points, decode_points,
  prefilled, decoded,
}

-- The text of the file at a path, of the files that the entries are under a directory.
file_at : String → String → List (String × String) → Option String
file_at dir path [] = none
file_at dir path ((key, text) ∷ entries) =
    let rest = file_at dir path entries in
    if str_eq path (append dir (append "/" key)) then some text else rest

file_of : String → String → Option ConfigMap → Option String
unfolding file_at
file_of dir path none = none
file_of dir path (some cm) = file_at dir path cm.entries

abbrev volume_at : String → World → ProfileFiles Fixed
volume_at dir w = record {
  npz = λ path. none;
  text_at = λ path. file_of dir path (find "profiling-results" "default" w);
  json_load = λ text.
      if str_eq text "{}"
      then ok (prefill_items prefilled.0)
      else if str_eq text "[]"
      then ok (decode_items (pos 5000) decoded.0)
      else err json_decode_error;
}

volume_at-IsVolume :
    (w : World) (a b : String)
    → find "profiling-results" "default" w ≡ some (body "profiling-results" "default" a b)
    → IsVolume (volume_at "/profile" w) "/profile" (body "profiling-results" "default" a b)
unfolding file_of join_path
volume_at-IsVolume w a b stored = record {
  texts = (
    ap (file_of "/profile" (join_path "/profile" "prefill_raw_data.json")) stored,
    (ap (file_of "/profile" (join_path "/profile" "decode_raw_data.json")) stored, tt),
  );
  no_npz = λ folder name. refl;
}

run_profiling-loads_example :
    (w : World) × (run_profiling small_outside small_args empty ≡ (ok tt, w))
    × (load_prefill (some "/profile") (volume_at "/profile" w) none ≡ ok (prefill_data prefilled.0))
    × (load_decode (some "/profile") (volume_at "/profile" w) none
        ≡ ok (decode_data (pos 5000) decoded.0))
unfolding prefill_items decode_items
run_profiling-loads_example =
    run_profiling-loads small_outside find small_outside-IsWorking small_args
      (pos 128 ∷ pos 256 ∷ []) (pos 256 ∷ []) "/profile" (volume_at "/profile") refl prefill_points
      decode_points prefilled.1 decoded.1 refl refl volume_at-IsVolume (λ w. refl) (λ w. refl)
