-- ===== src/Tests/Reached.antt =====
-- A cluster whose world is its one object, and two targets on it.
use rbg_planner.Prelude.{
  String, [], ◌∷◌, All, true, false, none, some, ◌≡◌, Option, refl, arith, sym, true-ne-false,
}
use text.Mathlib.TextEquality.{eq_iff}
use rbg_planner.Python.{ok, err, api_exception}
use rbg_planner.Cluster.{Rbg, Kubernetes, roles_of, find_role, rbg_ready}
use rbg_planner.Connector.{Connector, set_replicas}
use rbg_planner.Connector.Effect.{replace_replicas}
use rbg_planner.Connector.Alone.{in_world, IsAlone, IsScalable}
use rbg_planner.Connector.Reached.{Reached, set_replicas_reaches}
use rbg_planner.Connector.Again.{set_replicas_again}
use rbg_planner.Tests.Cluster.{rbg_of, grow_decode, keep_prefill}

abbrev pub patching : Kubernetes Rbg
patching = record {
  get_object = λ ns name w. (ok w, w);
  patch_scale = λ ns name n w. (err (api_exception 404), w);
  patch_object = λ ns name p w. (ok tt, replace_replicas p.role_index p.value w);
  sleep = λ t w. w;
}

abbrev pub same_object : Rbg → Rbg
same_object w = w

abbrev pub demo : Connector
demo = record {
  rbg_name = "demo";
  namespace = "default";
  prefill_role_name = "prefill";
  decode_role_name = "decode";
  cached_rbg = none;
}

pub patching-IsAlone : IsAlone patching same_object demo
patching-IsAlone = record {
  reads = λ w. refl;
  no_adapter = λ adapter n w. refl;
  patches = λ i n w role e keyed count. (replace_replicas i n w, refl, refl);
}

pub ready : rbg_ready (rbg_of "True") ≡ true
unfolding rbg_ready
ready = refl

pub existing : All (IsScalable (roles_of (rbg_of "True"))) (keep_prefill ∷ grow_decode ∷ [])
unfolding find_role roles_of
existing = (
  ((_, refl, (_, refl)), (omega arith, omega arith)),
  (((_, refl, (_, refl)), (omega arith, omega arith)), tt),
)

pub names_differ : ◌≡◌ {A = String} "prefill" "decode" → ⊥
names_differ e = true-ne-false (sym ((eq_iff "prefill" "decode").1 e))

set_replicas_reaches_example :
    (q : Option Rbg) × (w : Rbg) × (set_replicas patching
        (keep_prefill ∷ grow_decode ∷ [])
        false
        (in_world patching same_object demo none (rbg_of "True"))
      ≡ (ok tt, in_world patching same_object demo q w))
    × Reached patching same_object demo (keep_prefill ∷ grow_decode ∷ []) (rbg_of "True") w
set_replicas_reaches_example =
    set_replicas_reaches patching same_object demo patching-IsAlone keep_prefill (grow_decode ∷ [])
      none (rbg_of "True") ready ((names_differ, tt), (tt, tt)) existing

set_replicas_again_example :
    (q : Option Rbg) × (w : Rbg) × (set_replicas patching
        (keep_prefill ∷ grow_decode ∷ [])
        false
        (in_world patching same_object demo none (rbg_of "True"))
      ≡ (ok tt, in_world patching same_object demo q w))
    × (set_replicas patching
          (keep_prefill ∷ grow_decode ∷ [])
          false
          (in_world patching same_object demo q w)
        ≡ (ok tt, in_world patching same_object demo (some w) w))
set_replicas_again_example =
    set_replicas_again patching same_object demo patching-IsAlone keep_prefill (grow_decode ∷ [])
      none (rbg_of "True") ready ((names_differ, tt), (tt, tt)) existing
