-- ===== src/Connector/Again.antt =====
-- A second `set_replicas` with the targets of the first.
use rbg_planner.Prelude.{List, ◌∷◌, All, true, false, Option, some, ◌≡◌, Bool-cases, inl, inr}
use rbg_planner.Python.{ok}
use rbg_planner.Cluster.{Rbg, Kubernetes, roles_of, rbg_ready}
use rbg_planner.Connector.{Connector, TargetReplica, set_replicas}
use rbg_planner.Connector.Skips.{set_replicas_current, set_replicas_not_ready}
use rbg_planner.Connector.Scaled.{Has, Distinct}
use rbg_planner.Connector.Alone.{in_world, IsAlone, IsScalable}
use rbg_planner.Connector.Reached.{set_replicas_reaches}

module _ {W : Type 0} (api : Kubernetes W) (object : W → Rbg) (c : Connector)
    (alone : IsAlone api object c) where
  -- On an object whose named roles have what is asked for, nothing is left to write, and on one that
  -- is not ready nothing is written.
  nothing_left :
      (t : TargetReplica) (ts : List TargetReplica) (q : Option Rbg) (w : W)
      → All (Has (roles_of (object w))) (t ∷ ts)
      → set_replicas api (t ∷ ts) false (in_world api object c q w)
        ≡ (ok tt, in_world api object c (some (object w)) w)
  nothing_left t ts q w has =
      let s = in_world api object c q w in
      elim (Bool-cases (rbg_ready (object w))) [
        | inl ready ↦ set_replicas_current api s (object w) w t ts (alone.reads w) ready has
        | inr not_ready ↦
            set_replicas_not_ready api s (object w) w t ts false (alone.reads w) not_ready
      ]

  -- `set_replicas`, not blocking, is idempotent: on a ready object whose roles are scaled by nobody
  -- else and by no adapter, with targets that name different roles that all exist and have the key
  -- `replicas`, and that ask for 32-bit numbers that are not negative, the call returns, and the same
  -- call after it returns too, fetches the object and leaves the world exactly as it was, whether that
  -- object is ready or not.
  pub set_replicas_again :
      (t : TargetReplica) (ts : List TargetReplica) (q : Option Rbg) (w : W)
      → rbg_ready (object w) ≡ true
      → Distinct (t ∷ ts)
      → All (IsScalable (roles_of (object w))) (t ∷ ts)
      → (q' : Option Rbg) × (w' : W) × (set_replicas api (t ∷ ts) false (in_world api object c q w)
          ≡ (ok tt, in_world api object c q' w'))
        × (set_replicas api (t ∷ ts) false (in_world api object c q' w')
            ≡ (ok tt, in_world api object c (some (object w')) w'))
  set_replicas_again t ts q w ready distinct existing =
      let (q', w', done, (all, _)) =
        set_replicas_reaches api object c alone t ts q w ready distinct existing in
      (q', w', done, nothing_left t ts q' w' all)
