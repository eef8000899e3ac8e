-- ===== src/Connector/Skips.antt =====
-- The cases in which `set_replicas` leaves the cluster alone.
use rbg_planner.Prelude.{
  eq_ℤ, String, List, [], ◌∷◌, All, Bool, true, false, some, if◌then◌else◌, ◌≡◌, refl, ap, ◌∙◌,
}
use rbg_planner.Python.{Result, ok, pure, lift, >>=-ok}
use rbg_planner.Cluster.{Role, Rbg, Kubernetes, rbg_ready, find_role, roles_of, replicas_of}
use rbg_planner.Connector.{
  Connector, TargetReplica, Session, get_rbg, is_ready, get_role_from_rbg, scale_target,
  scale_targets, set_replicas, scale_role, apply_targets, apply_if_ready,
}

module _ {W : Type 0} (api : Kubernetes W) where
  -- A session after one successful fetch of the object, and nothing else.
  abbrev pub fetched : Session W → Rbg → W → Session W
  fetched s rbg w = record { connector = record s.connector { cached_rbg = some rbg }; world = w }

  -- The answer of the client to the next fetch.
  abbrev pub Answers : Session W → Rbg → W → Type 0
  Answers s rbg w = api.get_object s.connector.namespace s.connector.rbg_name s.world ≡ (ok rbg, w)

  pub get_rbg-fetched :
      (s : Session W) (rbg : Rbg) (w : W)
      → Answers s rbg w
      → get_rbg api s ≡ (ok rbg, fetched s rbg w)
  unfolding get_rbg
  get_rbg-fetched s rbg w e = rw e

  pub is_ready-fetched :
      (s : Session W) (rbg : Rbg) (w : W)
      → is_ready api (fetched s rbg w) ≡ (ok (rbg_ready rbg), fetched s rbg w)
  unfolding is_ready
  is_ready-fetched s rbg w = refl

  -- On an object that is not ready, `set_replicas` returns normally after one fetch: no write is
  -- made, whatever the targets and also when it was asked to block.
  pub set_replicas_not_ready :
      (s : Session W) (rbg : Rbg) (w : W) (t : TargetReplica) (ts : List TargetReplica)
      (blocking : Bool)
      → Answers s rbg w
      → rbg_ready rbg ≡ false
      → set_replicas api (t ∷ ts) blocking s ≡ (ok tt, fetched s rbg w)
  unfolding set_replicas
  set_replicas_not_ready s rbg w t ts blocking e not_ready =
      >>=-ok (get_rbg api) (apply_if_ready api (t ∷ ts) blocking) s (get_rbg-fetched s rbg w e)
      ∙ >>=-ok (is_ready api) (apply_targets api rbg (t ∷ ts) blocking) (fetched s rbg w)
          (is_ready-fetched s rbg w)
      ∙ ap (λ (b : Bool). apply_targets api rbg (t ∷ ts) blocking b (fetched s rbg w)) not_ready

  -- The target asks for what its role has.
  abbrev pub IsCurrent : Rbg → TargetReplica → Type 0
  IsCurrent rbg t =
      (role : Role) × (find_role (roles_of rbg) t.role_name ≡ some role)
      × (eq_ℤ (replicas_of role) t.desired_replicas ≡ true)

  pub get_role_found :
      (c : Connector) (rbg : Rbg) (name : String) (role : Role)
      → find_role (roles_of rbg) name ≡ some role
      → get_role_from_rbg c rbg name ≡ ok role
  unfolding get_role_from_rbg
  get_role_found c rbg name role found = rw (found, get_role_from_rbg)

  pub scale_target-current :
      (rbg : Rbg) (t : TargetReplica) (s : Session W) (role : Role)
      → find_role (roles_of rbg) t.role_name ≡ some role
      → eq_ℤ (replicas_of role) t.desired_replicas ≡ true
      → scale_target api rbg t s ≡ (ok tt, s)
  unfolding scale_target
  scale_target-current rbg t s role found same =
      >>=-ok (lift (get_role_from_rbg s.connector rbg t.role_name))
        (λ r.
          if eq_ℤ (replicas_of r) t.desired_replicas
          then pure tt
          else scale_role api t.role_name t.desired_replicas)
        s (ap (λ (r : Result Role). (r, s)) (get_role_found s.connector rbg t.role_name role found))
      ∙ ap (λ (b : Bool). (if b then pure tt else scale_role api t.role_name t.desired_replicas) s)
          same

  scale_targets-current :
      (rbg : Rbg) (ts : List TargetReplica) (s : Session W)
      → All (IsCurrent rbg) ts
      → scale_targets api rbg ts s ≡ (ok tt, s)
  unfolding scale_targets
  scale_targets-current rbg [] s h = refl
  scale_targets-current rbg (t ∷ ts) s ((role, found, same), h) =
      >>=-ok (scale_target api rbg t) (λ _. scale_targets api rbg ts) s
        (scale_target-current rbg t s role found same)
      ∙ scale_targets-current rbg ts s h

  -- When every target already has its replicas, `set_replicas` on a ready object, not blocking,
  -- makes one fetch and no write.
  pub set_replicas_current :
      (s : Session W) (rbg : Rbg) (w : W) (t : TargetReplica) (ts : List TargetReplica)
      → Answers s rbg w
      → rbg_ready rbg ≡ true
      → All (IsCurrent rbg) (t ∷ ts)
      → set_replicas api (t ∷ ts) false s ≡ (ok tt, fetched s rbg w)
  unfolding set_replicas
  set_replicas_current s rbg w t ts e ready current =
      >>=-ok (get_rbg api) (apply_if_ready api (t ∷ ts) false) s (get_rbg-fetched s rbg w e)
      ∙ >>=-ok (is_ready api) (apply_targets api rbg (t ∷ ts) false) (fetched s rbg w)
          (is_ready-fetched s rbg w)
      ∙ ap (λ (b : Bool). apply_targets api rbg (t ∷ ts) false b (fetched s rbg w)) ready
      ∙ >>=-ok (scale_targets api rbg (t ∷ ts)) (λ _. pure tt) (fetched s rbg w)
          (scale_targets-current rbg (t ∷ ts) (fetched s rbg w) current)
