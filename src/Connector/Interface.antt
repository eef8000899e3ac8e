-- ===== src/Connector/Interface.antt =====
-- What the planner asks of its connector (python/planner/rbg_planner/planner_connector.py), and the
-- RoleBasedGroup's as what answers it.
use rbg_planner.Prelude.{ℤ, String, List, Bool}
use rbg_planner.Python.{Method}
use rbg_planner.Cluster.{Kubernetes}
use rbg_planner.Connector.{
  TargetReplica, Session, set_replicas, validate_deployment, wait_default, get_role_ready_replicas,
  is_ready,
}

-- `class PlannerConnector`: methods on an object of state `S`.
pub record PlannerConnector (S : Type 0) : Type 0 where
  pub set_replicas : List TargetReplica → Bool → Method S (Unit {0})
  pub validate_deployment : Method S (Unit {0})
  pub wait_for_ready : Method S (Unit {0})
  pub get_role_ready_replicas : String → Method S ℤ
  pub is_ready : Method S Bool

-- `class RBGConnector(PlannerConnector)`
abbrev pub rbg_connector : {W : Type 0} → Kubernetes W → PlannerConnector (Session W)
rbg_connector api = record {
  set_replicas = set_replicas api;
  validate_deployment = validate_deployment api;
  wait_for_ready = wait_default api;
  get_role_ready_replicas = get_role_ready_replicas api;
  is_ready = is_ready api;
}
