-- ===== src/Connector.antt =====
-- The connector that scales the roles (python/planner/rbg_planner/rbg_connector.py, with
-- `TargetReplica` of python/planner/rbg_planner/planner_connector.py). A method runs on the object
-- and on the world of `Kubernetes`.

pub mod Roles
pub mod Safety
pub mod Skips
pub mod Waiting
pub mod Effect
pub mod Scaled
pub mod Alone
pub mod Reached
pub mod Again
pub mod Interface
use rbg_planner.Prelude.{
  ℕ, zero, suc, ℤ, pos, eq_ℤ, String, List, [], ◌∷◌, Bool, true, false, not, Option, none, some,
  if◌then◌else◌, ◌==◌,
}
use Prim.Native.String.{◌++◌ as append}
use mathlib.Core.Option.{get_or}
use text.Mathlib.Text.{◌==◌ as str_eq}
use rbg_planner.Python.{
  Error, Result, ok, err, rbg_not_found, role_not_found, deployment_not_ready,
  empty_target_replicas, api_exception, Method, pure, raise, lift, get, ◌>>=◌, ◌>>◌,
}
use rbg_planner.Cluster.{
  Role, RoleStatus, Condition, RbgSpec, RbgStatus, Rbg, JsonPatch, Kubernetes, has_text, roles_of,
  role_statuses_of, conditions_of, find_role, find_role_status, find_condition, role_index,
  rbg_ready, ready_replicas_of, replicas_of,
}

pub record TargetReplica : Type 0 where
  pub role_name : String
  pub desired_replicas : ℤ

-- `class RBGConnector`
pub record Connector : Type 0 where
  pub rbg_name : String
  pub namespace : String
  pub prefill_role_name : String
  pub decode_role_name : String
  pub cached_rbg : Option Rbg

pub record Session (W : Type 0) : Type 0 where
  pub connector : Connector
  pub world : W

-- `_get_current_namespace`, of the stripped content of the service account's file, `none` without it
unfoldable pub get_current_namespace : Option String → String
get_current_namespace file = get_or file "default"

-- `RBGConnector.__init__`, after the client is configured
unfoldable pub create_connector :
    Option String → String → Option String → String → String → Connector
unfolding get_current_namespace
create_connector file rbg_name rbg_namespace prefill_role_name decode_role_name =
    let given = get_or rbg_namespace "" in
    record {
      rbg_name = rbg_name;
      namespace = if str_eq given "" then get_current_namespace file else given;
      prefill_role_name = prefill_role_name;
      decode_role_name = decode_role_name;
      cached_rbg = none;
    }

-- `_get_role_from_rbg`
unfoldable pub get_role_from_rbg : Connector → Rbg → String → Result Role
unfolding roles_of find_role
get_role_from_rbg connector rbg role_name = elim (find_role (roles_of rbg) role_name) [
  | none ↦ err (role_not_found role_name connector.rbg_name)
  | some role ↦ ok role
]

-- The handler of `_get_rbg`.
unfoldable pub not_found_error : Connector → Error → Error
not_found_error connector (api_exception status) =
    if status == 404
    then rbg_not_found connector.rbg_name connector.namespace
    else api_exception status
not_found_error connector e = e

module _ {W : Type 0} (api : Kubernetes W) where
  -- What `_get_rbg` does with the answer of the client.
  rbg_fetched : Connector → Result Rbg × W → Result Rbg × Session W
  unfolding not_found_error
  rbg_fetched c (ok rbg, w) =
      (ok rbg, record { connector = record c { cached_rbg = some rbg }; world = w })
  rbg_fetched c (err e, w) = (err (not_found_error c e), record { connector = c; world = w })

  unfoldable pub get_rbg : Method (Session W) Rbg
  unfolding rbg_fetched
  get_rbg s = let c = s.connector in rbg_fetched c (api.get_object c.namespace c.rbg_name s.world)

  -- A write: the connector stays, the world moves on.
  abbrev pub write : {A : Type 0} → (W → Result A × W) → Method (Session W) A
  write call s = let (r, w) = call s.world in (r, record { connector = s.connector; world = w })

  -- The handler of `_try_scale_via_rbgsa`.
  scale_handled : Result (Unit {0}) × Session W → Result Bool × Session W
  scale_handled (ok _, s) = (ok true, s)
  scale_handled (err (api_exception status), s) =
      if status == 404 then (ok false, s) else (err (api_exception status), s)
  scale_handled (err e, s) = (err e, s)

  -- `_try_scale_via_rbgsa`
  unfoldable pub try_scale_via_rbgsa : String → ℤ → Method (Session W) Bool
  unfolding scale_handled
  try_scale_via_rbgsa role_name replicas s =
      let c = s.connector in
      let adapter_name = append (append c.rbg_name "-") role_name in
      scale_handled (write (api.patch_scale c.namespace adapter_name replicas) s)

  -- `_patch_rbg_role_replicas`, from the role's position on
  patch_at : Connector → Option ℕ → String → ℤ → Method (Session W) (Unit {0})
  patch_at c none role_name replicas = raise (role_not_found role_name c.rbg_name)
  patch_at c (some i) role_name replicas = write (
      api.patch_object c.namespace c.rbg_name
        (record { op = "replace"; role_index = i; value = replicas }))

  unfoldable pub patch_rbg_role_replicas : String → ℤ → Method (Session W) (Unit {0})
  unfolding get_rbg roles_of role_index patch_at
  patch_rbg_role_replicas role_name replicas = do
    rbg ← get_rbg
    s ← get
    patch_at s.connector (role_index 0 (roles_of rbg) role_name) role_name replicas

  -- `_scale_role`
  unfoldable pub scale_role : String → ℤ → Method (Session W) (Unit {0})
  unfolding try_scale_via_rbgsa patch_rbg_role_replicas
  scale_role role_name replicas = do
    scaled ← try_scale_via_rbgsa role_name replicas
    if scaled then pure tt else patch_rbg_role_replicas role_name replicas

  -- `self._cached_rbg or self._get_rbg()`, for objects that have keys.
  cached_or_fetched : Option Rbg → Method (Session W) Rbg
  unfolding get_rbg
  cached_or_fetched none = get_rbg
  cached_or_fetched (some rbg) = pure rbg

  unfoldable pub is_ready : Method (Session W) Bool
  unfolding cached_or_fetched rbg_ready
  is_ready s = (do rbg ← cached_or_fetched s.connector.cached_rbg; pure (rbg_ready rbg)) s

  -- The loop of `wait_for_ready`, with `attempts` rounds left.
  unfoldable pub wait_for_ready : ℕ → ℕ → Method (Session W) (Unit {0})
  unfolding get_rbg rbg_ready
  wait_for_ready zero delay_seconds s = (err (deployment_not_ready s.connector.rbg_name), s)
  wait_for_ready (suc attempts) delay_seconds s =
      let again = wait_for_ready attempts delay_seconds in
      (do rbg ← get_rbg; if rbg_ready rbg then pure tt else again)
        (record s { world = api.sleep delay_seconds s.world })

  -- One round of the loop of `set_replicas`, on the object that was fetched before the loop.
  unfoldable pub scale_target : Rbg → TargetReplica → Method (Session W) (Unit {0})
  unfolding get_role_from_rbg replicas_of scale_role
  scale_target rbg target s =
      (do
        role ← lift (get_role_from_rbg s.connector rbg target.role_name)
        if eq_ℤ (replicas_of role) target.desired_replicas
            then pure tt
            else scale_role target.role_name target.desired_replicas)
        s

  unfoldable pub scale_targets : Rbg → List TargetReplica → Method (Session W) (Unit {0})
  unfolding scale_target
  scale_targets rbg [] = pure tt
  scale_targets rbg (target ∷ targets) = do scale_target rbg target; scale_targets rbg targets

  -- `wait_for_ready()`, with its default arguments
  abbrev pub wait_default : Method (Session W) (Unit {0})
  wait_default = wait_for_ready 180 10

  -- `set_replicas` after `is_ready` has answered
  abbrev pub apply_targets : Rbg → List TargetReplica → Bool → Bool → Method (Session W) (Unit {0})
  apply_targets rbg targets blocking ready =
      if ready
      then scale_targets rbg targets >> (if blocking then wait_default else pure tt)
      else pure tt

  -- `set_replicas` after the object has been fetched
  abbrev pub apply_if_ready : List TargetReplica → Bool → Rbg → Method (Session W) (Unit {0})
  apply_if_ready targets blocking rbg = is_ready >>= apply_targets rbg targets blocking

  unfoldable pub set_replicas : List TargetReplica → Bool → Method (Session W) (Unit {0})
  unfolding get_rbg is_ready scale_targets wait_for_ready
  set_replicas [] blocking = raise empty_target_replicas
  set_replicas (target ∷ targets) blocking = get_rbg >>= apply_if_ready (target ∷ targets) blocking

  unfoldable pub validate_deployment : Method (Session W) (Unit {0})
  unfolding get_rbg get_role_from_rbg
  validate_deployment s =
      (do
        rbg ← get_rbg
        lift (get_role_from_rbg s.connector rbg s.connector.prefill_role_name)
        lift (get_role_from_rbg s.connector rbg s.connector.decode_role_name)
        pure tt)
        s

  unfoldable pub get_role_ready_replicas : String → Method (Session W) ℤ
  unfolding get_rbg ready_replicas_of
  get_role_ready_replicas role_name = do rbg ← get_rbg; pure (ready_replicas_of rbg role_name)
