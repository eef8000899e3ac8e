-- ===== src/Tests/Stored.antt =====
-- A cluster that keeps ConfigMaps, and a whole run of the profiler on it.
use rbg_planner.Prelude.{
  pos, ◌*ℤ◌, arith, String, [], ◌∷◌, Bool, true, false, ◌&&◌, Option, none, some, if◌then◌else◌,
  ◌≡◌, refl, ap, Bool-cases, inl, inr,
}
use text.Mathlib.Text.{◌==◌ as str_eq}
use text.Mathlib.TextEquality.{eq_iff}
use rbg_planner.Python.{ok, err, api_exception}
use rbg_planner.Profiler.Prefill.{PrefillProfile, profile_prefill}
use rbg_planner.Profiler.Decode.{DecodeProfile, profile_decode}
use rbg_planner.Profile.{Items}
use rbg_planner.Kubeconfig.{connect}
use rbg_planner.Tests.Cluster.{small_kubeconfig}
use rbg_planner.Profiler.Store.{body, ConfigMap, ConfigApi, update_configmap}
use rbg_planner.Profiler.Stored.{IsStore, Put, update_configmap-Put}
use rbg_planner.Profiler.Options.{ProfilerArgs}
use rbg_planner.Profiler.Pipeline.{Outside, points_of, target_of, sweep_with, run_profiling}
use rbg_planner.Profiler.Complete.{IsWorking, Stores, run_profiling-Stores}
use rbg_planner.Python.Text.{int_text}
use rbg_planner.Profiler.Points.{points_of-comma_text}
use rbg_planner.Tests.Fixed.{Fixed, fixed_Floating}
use rbg_planner.Tests.Profiler.{World, empty, small_bench}

abbrev pub find : String → String → World → Option ConfigMap
find name ns w = w name ns

abbrev names : String → String → String → String → Bool
names name ns name' ns' = str_eq name' name && str_eq ns' ns

abbrev put : ConfigMap → World → World
put cm w name ns = if names cm.name cm.namespace name ns then some cm else w name ns

abbrev small_api : ConfigApi World
small_api = record {
  kubeconfig = small_kubeconfig;
  read_config_map =
      λ name ns w. (elim (w name ns) [ none ↦ err (api_exception 404) | some cm ↦ ok tt ], w);
  replace_config_map = λ name ns cm w. (ok tt, put cm w);
  create_config_map = λ ns cm w. (ok tt, put cm w);
}

and_true : (a b : Bool) → a ≡ true → b ≡ true → (a && b) ≡ true
and_true a b h k = ground arith

names_self : (name ns : String) → names name ns name ns ≡ true
names_self name ns = and_true _ _ ((eq_iff name name).1 refl) ((eq_iff ns ns).1 refl)

both_true : (a b : Bool) → (a && b) ≡ true → (a ≡ true) × (b ≡ true)
both_true a b h = ground arith

names_other :
    (name ns name' ns' : String)
    → ((name' ≡ name) × (ns' ≡ ns) → ⊥)
    → names name ns name' ns' ≡ false
names_other name ns name' ns' other = elim (Bool-cases (names name ns name' ns')) [
  | inl same ↦
      let (a, b) = both_true (str_eq name' name) (str_eq ns' ns) same in
      absurd (other ((eq_iff name' name).0 a, (eq_iff ns' ns).0 b))
  | inr different ↦ different
]

put-Put : (cm : ConfigMap) (w : World) → Put small_api find cm.name cm.namespace cm w (put cm w)
put-Put cm w = (
  ap (λ b. if b then some cm else w cm.name cm.namespace) (names_self cm.name cm.namespace),
  λ name ns other.
      ap (λ b. if b then some cm else w name ns) (names_other cm.name cm.namespace name ns other),
)

small_api-IsStore : IsStore small_api find
small_api-IsStore = record {
  read_missing = λ name ns w e.
      ap
        (λ (o : Option ConfigMap). (elim o [ none ↦ err (api_exception 404) | some cm ↦ ok tt ], w))
        e;
  read_present = λ name ns w e.
      ap
        (λ (o : Option ConfigMap). (elim o [ none ↦ err (api_exception 404) | some cm ↦ ok tt ], w))
        e;
  replaced = λ cm w e. (put cm w, refl, put-Put cm w);
  created = λ cm w e. (put cm w, refl, put-Put cm w);
}

api_connects : (w : World) → connect small_api.kubeconfig w ≡ (ok tt, w)
unfolding connect
api_connects w = refl

update_configmap-Put_example :
    (w : World) × (update_configmap small_api "profiling-results" "default" "{}" "[]" empty
      ≡ (ok tt, w))
    × Put small_api find "profiling-results" "default"
        (body "profiling-results" "default" "{}" "[]")
        empty
        w
update_configmap-Put_example =
    update_configmap-Put small_api find small_api-IsStore "profiling-results" "default" "{}" "[]"
      empty (api_connects empty)

-- Two texts that tell a prefill profile from any other dictionary.
abbrev dumped : Items Fixed → String
dumped [] = "[]"
dumped ((name, value) ∷ items) = if str_eq name "prefill_isl" then "{}" else "[]"

abbrev pub small_outside : Outside Fixed World
small_outside = record {
  bench = small_bench;
  config_api = small_api;
  makedirs = λ path w. (ok tt, w);
  write_file = λ path text w. (ok tt, w);
  print = λ text w. w;
  dumps = dumped;
  executable = "python3";
}

pub small_outside-IsWorking : IsWorking small_outside find
small_outside-IsWorking = record {
  is_store = small_api-IsStore;
  connects = api_connects;
  writes = λ path text w. (w, refl);
  prints = λ name ns text w. refl;
}

abbrev pub small_args : ProfilerArgs
small_args = record {
  base_url = "http://localhost:8000";
  model_name = "model";
  tokenizer = "tokenizer";
  num_gpus = pos 2;
  max_kv_tokens = pos 5000;
  max_context_length = pos 2000;
  namespace = "default";
  output_configmap = "profiling-results";
  output_dir = "/out";
  update_configmap = true;
  prefill_isl_points = "128, 256";
  decode_isl_points = "256";
  decode_granularity = pos 3;
}

pub prefill_points : points_of "128, 256" ≡ ok (pos 128 ∷ pos 256 ∷ [])
unfolding points_of
prefill_points = refl

pub decode_points : points_of "256" ≡ ok (pos 256 ∷ [])
unfolding points_of
decode_points = refl

points_of-comma_text_example : points_of "128,256,512" ≡ ok (pos 128 ∷ pos 256 ∷ pos 512 ∷ [])
unfolding int_text
points_of-comma_text_example = points_of-comma_text (pos 128) (pos 256 ∷ pos 512 ∷ [])

pub prefilled :
    (p : PrefillProfile Fixed) × (profile_prefill small_bench
        (target_of "python3" small_args)
        (pos 128 ∷ pos 256 ∷ [])
        empty
      ≡ (ok p, empty))
unfolding profile_prefill target_of
prefilled = (_, refl)

pub decoded :
    (q : DecodeProfile Fixed) × (profile_decode small_bench
        (target_of "python3" small_args)
        (sweep_with small_args)
        (pos 256 ∷ [])
        empty
      ≡ (ok q, empty))
unfolding profile_decode target_of sweep_with ◌*ℤ◌
decoded = (_, refl)

run_profiling-Stores_example :
    (w : World) × (run_profiling small_outside small_args empty ≡ (ok tt, w))
    × (true ≡ true → Stores small_outside find small_args prefilled.0 decoded.0 w)
run_profiling-Stores_example =
    run_profiling-Stores small_outside find small_outside-IsWorking small_args
      (pos 128 ∷ pos 256 ∷ []) (pos 256 ∷ []) refl prefill_points decode_points prefilled.1
      decoded.1
