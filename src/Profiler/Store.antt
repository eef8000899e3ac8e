-- ===== src/Profiler/Store.antt =====
-- `_update_configmap`: the ConfigMap that the planner mounts as its profile directory.
use rbg_planner.Prelude.{String, List, [], ◌∷◌, if◌then◌else◌, ◌==◌}
use rbg_planner.Python.{Error, api_exception, Method, ◌>>◌, raise}
use rbg_planner.Kubeconfig.{Kubeconfig, recover, connect}

-- The body of the request: the name, the namespace, and the entries of `data`.
pub record ConfigMap : Type 0 where
  pub name : String
  pub namespace : String
  pub entries : List (String × String)

-- The calls of the kubernetes client. What the read answers is not looked at.
pub record ConfigApi (W : Type 0) : Type 0 where
  pub kubeconfig : Kubeconfig W
  pub read_config_map : String → String → Method W (Unit {0})
  pub replace_config_map : String → String → ConfigMap → Method W (Unit {0})
  pub create_config_map : String → ConfigMap → Method W (Unit {0})

-- The body of the request for the two texts that `json.dumps` makes of the profiles.
abbrev pub body : String → String → String → String → ConfigMap
body name ns prefill_json decode_json = record {
  name = name;
  namespace = ns;
  entries = ("prefill_raw_data.json", prefill_json) ∷ ("decode_raw_data.json", decode_json) ∷ [];
}

module _ {W : Type 0} where
  -- `except client.ApiException`, with the test of the status
  abbrev pub or_create : Method W (Unit {0}) → Error → Method W (Unit {0})
  or_create create (api_exception status) =
      if status == 404 then create else raise (api_exception status)
  or_create create e = raise e

  module _ (api : ConfigApi W) where
    unfoldable pub write_config_map : ConfigMap → Method W (Unit {0})
    write_config_map cm =
        recover
          (api.read_config_map cm.name cm.namespace
            >> api.replace_config_map cm.name cm.namespace cm)
          (or_create (api.create_config_map cm.namespace cm))

    unfoldable pub update_configmap : String → String → String → String → Method W (Unit {0})
    unfolding connect write_config_map
    update_configmap name namespace prefill_json decode_json =
        connect api.kubeconfig >> write_config_map (body name namespace prefill_json decode_json)
