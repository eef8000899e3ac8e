-- ===== src/Tests/Create.antt =====
-- A planner that was just created.
use Prim.Native.String.{◌++◌ as append}
use text.Mathlib.Text.{◌==◌ as str_eq}
use rbg_planner.Prelude.{String, [], ◌∷◌, true, Option, none, some, pos, ◌≡◌, refl, if◌then◌else◌}
use rbg_planner.Python.{Result, ok, err, json_decode_error, profiling_data_not_found}
use rbg_planner.Profile.{Items, array, number, int_number, float_number, ProfileFiles}
use rbg_planner.Planner.{Planner}
use rbg_planner.Planner.Create.{create_planner}
use rbg_planner.Tests.Fixed.{Fixed, num, fixed_Floating}
use rbg_planner.Tests.Profile.{small_config, small_numerics}
use rbg_planner.Tests.Cluster.{World}

abbrev prefill_dict : Items Fixed
prefill_dict =
    ("prefill_isl", array (int_number (pos 10) ∷ int_number (pos 90) ∷ []))
    ∷ ("prefill_ttft", array (float_number (num 100) ∷ float_number (num 200) ∷ []))
    ∷ ("prefill_thpt_per_gpu", array (float_number (num 2) ∷ float_number (num 3) ∷ []))
    ∷ []

abbrev decode_dict : Items Fixed
decode_dict =
    ("x_kv_usage", array (float_number (num 0) ∷ float_number (num 1) ∷ []))
    ∷ ("y_context_length", array (int_number (pos 50) ∷ int_number (pos 100) ∷ []))
    ∷ ("z_itl", array (float_number (num 20) ∷ float_number (num 40) ∷ []))
    ∷ ("z_thpt_per_gpu", array (float_number (num 1) ∷ float_number (num 2) ∷ []))
    ∷ ("max_kv_tokens", number (int_number (pos 1000)))
    ∷ []

-- The texts of a directory with JSON files, and of one without the second of them.
abbrev complete_texts : String → String → Option String
complete_texts dir path =
    if str_eq path (append dir "/prefill_raw_data.json")
    then some "{}"
    else if str_eq path (append dir "/decode_raw_data.json")
    then some "[]"
    else none

abbrev partial_texts : String → String → Option String
partial_texts dir path =
    if str_eq path (append dir "/prefill_raw_data.json") then some "{}" else none

abbrev files_of : (String → Option String) → ProfileFiles Fixed
files_of texts = record {
  npz = λ path. none;
  text_at = texts;
  json_load = λ text.
      if str_eq text "{}"
      then ok prefill_dict
      else if str_eq text "[]"
      then ok decode_dict
      else err json_decode_error;
}

abbrev pub complete : String → ProfileFiles Fixed
complete dir = files_of (complete_texts dir)

abbrev partial : String → ProfileFiles Fixed
partial dir = files_of (partial_texts dir)

abbrev created : Result (Planner Fixed World)
created = create_planner small_numerics small_config none (complete "/profile") (num 5) true (0, [])

created_ok : (s : Planner Fixed World) × (created ≡ ok s)
unfolding create_planner
created_ok = (_, refl)

missing_profile :
    create_planner {W = World} small_numerics small_config none
      (partial "/profile")
      (num 5)
      true
      (0, [])
    ≡ err (profiling_data_not_found "/profile")
unfolding create_planner
missing_profile = refl
