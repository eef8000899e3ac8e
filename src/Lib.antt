-- ===== src/Lib.antt =====
-- A model of the planner of role based groups, the Python package under python/planner/rbg_planner,
-- and of its profiler under python/profiler/rbg_profiler. In a loop the planner reads the latencies
-- and the load of an inference service off Prometheus, predicts the next load, computes from a
-- profile how many prefill and decode replicas carry it, and scales the two roles of a
-- RoleBasedGroup in Kubernetes. The profiler makes that profile: it runs a benchmark against the
-- service and stores the results in a ConfigMap, which the planner reads as files.
--
-- The parts, and the files that model them:
--   Prelude      names of the libraries, Python's `int` as a type of signed integers, Boolean tests
--   Python       exceptions as values; a method as a function of the object's state to a result and
--                the state that is left; `float` as a parameter, the record `Floating` of its
--                operations; Text (`str(n)`, `int(text)`, strip, split) and Division (`//`)
--   Config       config.py and main.py: the settings from the environment and the command line, with
--                Options (parse_args)
--   Profile      the profiling data, and how utils/perf_interpolation.py loads it
--   Predictor    utils/load_predictor.py: the constant, ARIMA and prophet predictors
--   Interpolation  utils/perf_interpolation.py: the prefill curves and the decode grids
--   Metrics      metrics/: the four adapters, their queries, and what they read off an answer;
--                Interface (metrics/base.py) is what the planner asks of them
--   Kubeconfig   the loading of the client's configuration, which the connector and the profiler share
--   Cluster      the RoleBasedGroup object as the keys that the code reads, and the calls of the
--                Kubernetes client
--   Connector    rbg_connector.py, TargetReplica of planner_connector.py, and its abstract class in
--                Interface
--   Replicas     Planner._compute_replica_requirements of planner.py
--   Planner      the rest of planner.py: Create (__init__), Observe (observe_metrics), Correct and
--                Update (predict_load, _update_correction_factors), Adjust (make_adjustments), Run
--                (run) and Main (main of main.py)
--   Profiler     profiler.py (run_bench), with Prefill and Decode (profile_prefill, profile_decode),
--                Store (_update_configmap), Options (the arguments of main.py) and Pipeline
--                (run_profiling, and main.py)
--   Tests        a concrete arithmetic, a small profile and cluster, and runs of the model
-- The other modules below a part hold theorems on it. In Planner, Rules has the rules by which an
-- invariant goes through each method; Reads and Writes lead up to Always, Steady, Scales and Found to
-- Outcome, and Marked to Paced. Profiler.Mounted takes a profile from the profiler to the planner.
--
-- State. The planner's object is the record `Planner.Planner`; it holds the connector's object with
-- the world, a type of the reader's choice in which everything outside the process lives. A method
-- is a function `S → Result A × S`, since an exception leaves what was written before it. A
-- predictor is one constructor of `Predictor`, an adapter one of `Adapter`. The gauges that the
-- planner exports are the list of their settings.
--
-- Parameters. The calls of the Kubernetes client, of the Prometheus client, of pmdarima, prophet,
-- scipy and numpy, the clock and the sleeps are records of functions: `Kubernetes`, `Prometheus`,
-- `Forecasters`, `Numerics`, `Externals`; the benchmark's process, the files, `json` and the
-- ConfigMaps are `Benchmark`, `ProfileFiles`, `ConfigApi` and `Outside`. The arithmetic of floats
-- is the record `Floating`; a theorem that needs a law of it says so (`IsOrdered`, `IsLinear`,
-- `IsNearest`, `IsTruncation`, `IsClip`, `IsSpaced`), and each law holds of the three-decimal
-- numbers of the tests. The bounds in these laws are 2 ^ 53, up to which a float holds every
-- integer, and 2 ^ 52, up to which a quotient of integers rounds to the nearest.
--
-- Loops. The main loop never ends by itself: `rounds n` is its first n rounds, and a theorem on it
-- holds for every n. `wait_for_ready` recurses on its own number of attempts. `run_bench` recurses
-- on its three attempts. The digits of a number are written on a fuel of its value plus one, which
-- is more than it has digits.
--
-- Not modelled: how argparse splits the command line (`CommandLine` is what it finds), logging, the
-- names and labels of the exported gauges, texts of more than 4300 digits and digits outside ASCII in
-- `int(text)`, and the Go operator with its charts. Of the profiling data, values are numbers and lists
-- of numbers; one of the wrong kind is a `TypeError` in the model, where numpy may raise another
-- exception later in the same constructor, and the KV tokens of an NPZ file are integers.
pub mod Cluster
pub mod Config
pub mod Connector
pub mod Interpolation
pub mod Kubeconfig
pub mod Metrics
pub mod Planner
pub mod Predictor
pub mod Prelude
pub mod Profile
pub mod Profiler
pub mod Python
pub mod Replicas
pub mod Tests
