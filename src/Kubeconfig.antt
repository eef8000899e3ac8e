-- ===== src/Kubeconfig.antt =====
-- The configuration of the kubernetes client, which the connector and the profiler load in the same
-- way (`RBGConnector.__init__` of python/planner/rbg_planner/rbg_connector.py, `_update_configmap` of
-- python/profiler/rbg_profiler/profiler.py).
use rbg_planner.Python.{Error, ok, err, config_exception, Method, raise}

pub record Kubeconfig (W : Type 0) : Type 0 where
  pub load_incluster_config : Method W (Unit {0})
  pub load_kube_config : Method W (Unit {0})

module _ {W : Type 0} where
  -- A `try` of a call, with what its handler does in the state that the call has left.
  abbrev pub recover : Method W (Unit {0}) → (Error → Method W (Unit {0})) → Method W (Unit {0})
  recover m handler w = let (r, w') = m w in elim r [ ok _ ↦ (ok tt, w') | err e ↦ handler e w' ]

  -- `except ConfigException`
  abbrev pub or_kube : Method W (Unit {0}) → Error → Method W (Unit {0})
  or_kube kube config_exception = kube
  or_kube kube e = raise e

  unfoldable pub connect : Kubeconfig W → Method W (Unit {0})
  connect loader = recover loader.load_incluster_config (or_kube loader.load_kube_config)
