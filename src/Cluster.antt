-- ===== src/Cluster.antt =====
-- What the connector sees of Kubernetes: the RoleBasedGroup object as the JSON keys that the code
-- reads, a key that is missing as `none`, and the calls that it makes (the kubernetes client and
-- asyncio.sleep), which are a parameter over a type of worlds; and what the connector looks up in
-- the object (python/planner/rbg_planner/rbg_connector.py).
use rbg_planner.Prelude.{
  ℕ, suc, ℤ, pos, String, List, [], ◌∷◌, Bool, false, Option, none, some, if◌then◌else◌,
}
use mathlib.Core.Option.{get_or}
use text.Mathlib.Text.{◌==◌ as str_eq}
use rbg_planner.Python.{Result}

pub record Role : Type 0 where
  pub name : Option String
  pub replicas : Option ℤ

pub record RoleStatus : Type 0 where
  pub name : Option String
  pub ready_replicas : Option ℤ

pub record Condition : Type 0 where
  pub type : Option String
  pub status : Option String

pub record RbgSpec : Type 0 where
  pub roles : Option (List Role)

pub record RbgStatus : Type 0 where
  pub role_statuses : Option (List RoleStatus)
  pub conditions : Option (List Condition)

pub record Rbg : Type 0 where
  pub spec : Option RbgSpec
  pub status : Option RbgStatus

-- One operation of a JSON patch on the pointer `/spec/roles/<role_index>/replicas`.
pub record JsonPatch : Type 0 where
  pub op : String
  pub role_index : ℕ
  pub value : ℤ

-- The calls take the namespace and the name of the object.
pub record Kubernetes (W : Type 0) : Type 0 where
  pub get_object : String → String → W → Result Rbg × W
  pub patch_scale : String → String → ℤ → W → Result (Unit {0}) × W
  pub patch_object : String → String → JsonPatch → W → Result (Unit {0}) × W
  -- `asyncio.sleep(seconds)`
  pub sleep : ℕ → W → W

-- `item.get(key) == text`
abbrev pub has_text : Option String → String → Bool
has_text none text = false
has_text (some t) text = str_eq t text

-- `rbg.get("spec", {}).get("roles", [])`
unfoldable pub roles_of : Rbg → List Role
roles_of rbg = elim rbg.spec [ none ↦ [] | some spec ↦ get_or spec.roles [] ]

unfoldable pub role_statuses_of : Rbg → List RoleStatus
role_statuses_of rbg = elim rbg.status [ none ↦ [] | some s ↦ get_or s.role_statuses [] ]

unfoldable pub conditions_of : Rbg → List Condition
conditions_of rbg = elim rbg.status [ none ↦ [] | some s ↦ get_or s.conditions [] ]

-- The loops that return the first item of a name.
unfoldable pub find_role : List Role → String → Option Role
find_role [] role_name = none
find_role (role ∷ roles) role_name =
    if has_text role.name role_name then some role else find_role roles role_name

unfoldable pub find_role_status : List RoleStatus → String → Option RoleStatus
find_role_status [] role_name = none
find_role_status (status ∷ statuses) role_name =
    if has_text status.name role_name then some status else find_role_status statuses role_name

unfoldable pub find_condition : List Condition → String → Option Condition
find_condition [] type = none
find_condition (c ∷ cs) type = if has_text c.type type then some c else find_condition cs type

-- The loop of `_patch_rbg_role_replicas`, from position `i` on.
unfoldable pub role_index : ℕ → List Role → String → Option ℕ
role_index i [] role_name = none
role_index i (role ∷ roles) role_name =
    if has_text role.name role_name then some i else role_index (suc i) roles role_name

-- The test of a fetched object that `is_ready` and `wait_for_ready` share.
unfoldable pub rbg_ready : Rbg → Bool
unfolding conditions_of find_condition
rbg_ready rbg = elim (find_condition (conditions_of rbg) "Ready") [
  | none ↦ false
  | some c ↦ has_text c.status "True"
]

-- `_get_role_status` and the answer of `get_role_ready_replicas`
unfoldable pub ready_replicas_of : Rbg → String → ℤ
unfolding role_statuses_of find_role_status
ready_replicas_of rbg role_name = elim (find_role_status (role_statuses_of rbg) role_name) [
  | none ↦ pos 0
  | some s ↦ get_or s.ready_replicas (pos 0)
]

-- `role.get("replicas", 0)`
unfoldable pub replicas_of : Role → ℤ
replicas_of role = get_or role.replicas (pos 0)
