-- ===== src/Tests/Cluster.antt =====
-- A small cluster, whose world is a clock in seconds and the list of the numbers that were written,
-- and the theorems on the connector and on the planner that scales it.
use rbg_planner.Prelude.{
  ℕ, ℤ, pos, ◌≤ℤ◌, eq_ℤ, ◌+◌, List, [], ◌∷◌, All, String, true, false, none, some, ◌≡◌, inr, refl,
  arith,
}
use rbg_planner.Python.{ok, err, api_exception, config_exception}
use rbg_planner.Kubeconfig.{Kubeconfig}
use rbg_planner.Cluster.{
  Role, Rbg, Kubernetes, role_index, roles_of, rbg_ready, find_role, replicas_of,
}
use rbg_planner.Connector.{Session, get_rbg, TargetReplica, set_replicas, wait_for_ready}
use rbg_planner.Connector.Safety.{KeptBy, set_replicas-Keeps}
use rbg_planner.Connector.Skips.{fetched, set_replicas_current}
use rbg_planner.Connector.Roles.{IsPosition, role_index-IsPosition}
use rbg_planner.Connector.Waiting.{
  Waited, poll, none_yet, wait_for_ready-Waited, wait_for_ready_returns,
}
use rbg_planner.Metrics.{sglang}
use rbg_planner.Predictor.{Predictor}
use rbg_planner.Planner.{Planner, Externals}
use rbg_planner.Planner.Run.{run}
use rbg_planner.Planner.Reads.{QuietBy}
use rbg_planner.Planner.Always.{run-Inv}
use rbg_planner.Tests.Fixed.{Fixed, num, fixed_Floating}
use rbg_planner.Tests.Profile.{
  small_config, small_config-IsConsistent, small_numerics, small_prefill, small_decode,
  small_forecasters,
}

abbrev small_roles : List Role
small_roles =
    record { name = some "prefill"; replicas = some (pos 2) }
    ∷ record { name = some "decode"; replicas = some (pos 1) }
    ∷ []

-- The object of the cluster, with its condition `Ready`.
abbrev pub rbg_of : String → Rbg
rbg_of ready = record {
  spec = some (record { roles = some small_roles });
  status = some (record {
    role_statuses = some (
        record { name = some "prefill"; ready_replicas = some (pos 2) }
        ∷ record { name = some "decode"; ready_replicas = some (pos 1) }
        ∷ []);
    conditions = some (record { type = some "Ready"; status = some ready } ∷ []);
  });
}

abbrev pub World : Type 0
World = ℕ × List ℤ

-- No scaling adapter exists, so every write is a patch of the object.
abbrev pub api_of : String → Kubernetes World
api_of ready = record {
  get_object = λ ns name w. (ok (rbg_of ready), w);
  patch_scale = λ ns name n w. (err (api_exception 404), w);
  patch_object = λ ns name p w. (ok tt, (w.0, p.value ∷ w.1));
  sleep = λ t w. (w.0 + t, w.1);
}

abbrev small_session : Session World
small_session = record {
  connector = record {
    rbg_name = "demo";
    namespace = "default";
    prefill_role_name = "prefill";
    decode_role_name = "decode";
    cached_rbg = none;
  };
  world = (0, []);
}

abbrev pub grow_decode : TargetReplica
grow_decode = record { role_name = "decode"; desired_replicas = pos 3 }

abbrev pub keep_prefill : TargetReplica
keep_prefill = record { role_name = "prefill"; desired_replicas = pos 2 }

-- Only the role that differs is written.
set_replicas_writes :
    (set_replicas (api_of "True") (keep_prefill ∷ grow_decode ∷ []) false small_session).1.world
    ≡ (0, pos 3 ∷ [])
unfolding set_replicas
set_replicas_writes = refl

abbrev pub Positive : ℤ → Type 0
Positive n = pos 1 ≤ℤ n

abbrev pub AllPositive : World → Type 0
AllPositive w = All Positive w.1

pub Positive-kept : KeptBy (api_of "True") AllPositive Positive
Positive-kept = record {
  get_object = λ ns name w h. h;
  patch_scale = λ ns name n w q h. h;
  patch_object = λ ns name p w q h. (q, h);
  sleep = λ t w h. h;
}

set_replicas-Keeps_example :
    AllPositive
      (set_replicas (api_of "True") (keep_prefill ∷ grow_decode ∷ []) false small_session).1.world
set_replicas-Keeps_example =
    set_replicas-Keeps (api_of "True") AllPositive Positive Positive-kept
      (keep_prefill ∷ grow_decode ∷ []) false (omega arith, (omega arith, tt)) small_session tt

-- The process runs in the cluster or, as here, finds a file of its user.
abbrev pub small_kubeconfig : {W : Type 0} → Kubeconfig W
small_kubeconfig = record {
  load_incluster_config = λ w. (err config_exception, w);
  load_kube_config = λ w. (ok tt, w);
}

is_ready_now : rbg_ready (rbg_of "True") ≡ true
unfolding rbg_ready
is_ready_now = refl

prefill_current :
    find_role (roles_of (rbg_of "True")) "prefill"
    ≡ some (record { name = some "prefill"; replicas = some (pos 2) })
unfolding find_role roles_of
prefill_current = refl

prefill_same :
    eq_ℤ (replicas_of (record { name = some "prefill"; replicas = some (pos 2) })) (pos 2) ≡ true
unfolding replicas_of
prefill_same = refl

set_replicas_current_example :
    set_replicas (api_of "True") (keep_prefill ∷ []) false small_session
    ≡ (ok tt, fetched (api_of "True") small_session (rbg_of "True") (0, []))
set_replicas_current_example =
    set_replicas_current (api_of "True") small_session (rbg_of "True") (0, []) keep_prefill [] refl
      is_ready_now
      (
        (record { name = some "prefill"; replicas = some (pos 2) }, prefill_current, prefill_same),
        tt,
      )

role_index-IsPosition_example : IsPosition small_roles "decode" (role_index 0 small_roles "decode")
role_index-IsPosition_example = role_index-IsPosition small_roles "decode"

polled :
    poll (api_of "True") 10 small_session
    ≡ (ok (rbg_of "True"), fetched (api_of "True") small_session (rbg_of "True") (10, []))
unfolding poll get_rbg
polled = refl

wait_for_ready-Waited_example :
    Waited (api_of "False") 10 3 small_session (wait_for_ready (api_of "False") 3 10 small_session)
wait_for_ready-Waited_example = wait_for_ready-Waited (api_of "False") 10 3 small_session

wait_for_ready_returns_example :
    wait_for_ready (api_of "True") 3 10 small_session
    ≡ (ok tt, fetched (api_of "True") small_session (rbg_of "True") (10, []))
wait_for_ready_returns_example =
    wait_for_ready_returns (api_of "True") 10 3 0 small_session small_session (rbg_of "True")
      (omega arith) none_yet polled is_ready_now

abbrev pub small_env : Externals Fixed World
small_env = record {
  kubernetes = api_of "True";
  prometheus = record {
    custom_query = λ query w. (ok (record { value = some ("0" ∷ "3" ∷ []) } ∷ []), w);
  };
  forecasters = small_forecasters;
  numerics = small_numerics;
  time = λ w. (num w.0, w);
  pause = λ t w. (w.0 + 20, w.1);
}

abbrev small_predictor : Predictor Fixed
small_predictor =
    Predictor.arima (record { minimum_data_points = 5; window_size = pos 3; data_buffer = [] })

abbrev pub small_planner : Planner Fixed World
small_planner = record {
  config = small_config;
  session = small_session;
  metrics_client = sglang;
  num_req_predictor = small_predictor;
  isl_predictor = small_predictor;
  osl_predictor = small_predictor;
  prefill_interpolator = small_prefill;
  decode_interpolator = small_decode;
  last_metrics = record {
    ttft = none;
    itl = none;
    num_req = none;
    isl = none;
    osl = none;
    request_duration = none;
  };
  last_adjustment_time = num 0;
  p_correction_factor = num 1;
  d_correction_factor = num 1;
  cumulative_gpu_hours = num 0;
  prom_metrics = some [];
}

pub small_env-quiet : QuietBy small_env AllPositive
small_env-quiet = record { custom_query = λ query w h. h; time = λ w h. h; pause = λ t w h. h }

run-Inv_example :
    AllPositive (run small_env 2 small_planner).1.session.world
    × ((run small_env 2 small_planner).1.config ≡ small_config)
run-Inv_example =
    run-Inv small_env AllPositive Positive Positive-kept small_env-quiet small_config
      small_config-IsConsistent (inr (λ n h. h)) 2 small_planner tt refl

-- In the second of two rounds the prefill role is scaled to 7; the decode role stays at 1.
run_writes : (run small_env 2 small_planner).1.session.world.1 ≡ pos 7 ∷ []
unfolding run
run_writes = refl
