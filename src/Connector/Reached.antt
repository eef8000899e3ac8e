-- ===== src/Connector/Reached.antt =====
-- What `set_replicas` comes to on a cluster that one planner writes to, without scaling adapters.
use rbg_planner.Prelude.{
  eq_ℤ, String, List, [], ◌∷◌, All, All-weaken, Bool, true, false, Option, some, if◌then◌else◌, ◌≡◌,
  ◌≢◌, refl, sym, ap, ◌∙◌, Bool-cases, inl, inr,
}
use mathlib.Core.Path.{subst}
use rbg_planner.Python.{Result, ok, pure, lift, >>=-ok}
use rbg_planner.Cluster.{Role, Rbg, Kubernetes, roles_of, find_role, replicas_of, rbg_ready}
use rbg_planner.Connector.{
  Connector, TargetReplica, get_rbg, is_ready, scale_role, get_role_from_rbg, scale_target,
  scale_targets, set_replicas, apply_targets, apply_if_ready,
}
use rbg_planner.Connector.Skips.{is_ready-fetched, get_role_found, scale_target-current}
use rbg_planner.Connector.Scaled.{Has, OthersKept, Distinct, find_role-scaled_other, scaled-Has}
use rbg_planner.Connector.Alone.{
  in_world, IsAlone, HasReplicas, IsCount, IsScalable, Wrote, get_rbg-in_world, scale_role-in_world,
}

module _ {W : Type 0} (api : Kubernetes W) (object : W → Rbg) (c : Connector) where
  -- What all the targets have come to.
  abbrev pub Reached : List TargetReplica → W → W → Type 0
  Reached ts w w' =
      All (Has (roles_of (object w'))) ts
      × OthersKept ts (roles_of (object w)) (roles_of (object w'))

  module _ (alone : IsAlone api object c) where
    -- What one target has come to.
    abbrev Step : TargetReplica → W → W → Type 0
    Step t w w' =
        Has (roles_of (object w')) t
        × ((name : String)
            → t.role_name ≢ name
            → find_role (roles_of (object w')) name ≡ find_role (roles_of (object w)) name)

    Wrote-Step :
        (t : TargetReplica) (w w' : W) (role : Role)
        → find_role (roles_of (object w)) t.role_name ≡ some role
        → Wrote api object c t.role_name t.desired_replicas w w'
        → Step t w w'
    Wrote-Step t w w' role found wrote = (
      subst (λ k. Has k t) (sym wrote) (scaled-Has t (roles_of (object w)) role found),
      λ name other.
          ap (λ k. find_role k name) wrote
          ∙ find_role-scaled_other t.role_name t.desired_replicas (roles_of (object w)) name other,
    )

    -- One round of the loop, where the role is still what it was in the object `rbg` of the start.
    scale_target-Step :
        (rbg : Rbg) (t : TargetReplica) (q : Option Rbg) (w : W) (role : Role)
        → find_role (roles_of rbg) t.role_name ≡ some role
        → find_role (roles_of (object w)) t.role_name ≡ some role
        → HasReplicas role
        → IsCount t.desired_replicas
        → (q' : Option Rbg) × (w' : W) × (scale_target api rbg t (in_world api object c q w)
            ≡ (ok tt, in_world api object c q' w'))
          × Step t w w'
    unfolding scale_target
    scale_target-Step rbg t q w role started found keyed count =
        elim (Bool-cases (eq_ℤ (replicas_of role) t.desired_replicas)) [
          | inl same ↦ (
            q,
            w,
            scale_target-current api rbg t (in_world api object c q w) role started same,
            ((role, found, same), λ name other. refl),
          )
          | inr differs ↦
              let (w', done, wrote) =
                scale_role-in_world api object c alone t.role_name t.desired_replicas q w role found
                  keyed count in
              let write = scale_role api t.role_name t.desired_replicas in
              let by_test =
                λ (r : Role). if eq_ℤ (replicas_of r) t.desired_replicas then pure tt else write in
              (
                some (object w),
                w',
                >>=-ok
                      (lift
                        (get_role_from_rbg (in_world api object c q w).connector rbg t.role_name))
                      by_test (in_world api object c q w)
                      (ap (λ (r : Result Role). (r, in_world api object c q w))
                        (get_role_found api (in_world api object c q w).connector rbg t.role_name
                          role started))
                    ∙ (ap (λ (b : Bool). (if b then pure tt else write) (in_world api object c q w))
                          differs
                        ∙ done),
                Wrote-Step t w w' role found wrote,
              )
        ]

    -- A target whose role can be scaled and is the same in the object of the start and now.
    abbrev pub Unmoved : Rbg → W → TargetReplica → Type 0
    Unmoved rbg w t =
        (role : Role) × (find_role (roles_of rbg) t.role_name ≡ some role)
        × (find_role (roles_of (object w)) t.role_name ≡ some role)
        × HasReplicas role
        × IsCount t.desired_replicas

    Unmoved-Step :
        (rbg : Rbg) (t : TargetReplica) (w w' : W) (ts : List TargetReplica)
        → All (λ (u : TargetReplica). t.role_name ≢ u.role_name) ts
        → Step t w w'
        → All (Unmoved rbg w) ts
        → All (Unmoved rbg w') ts
    Unmoved-Step rbg t w w' [] differ step now = tt
    Unmoved-Step rbg t w w' (u ∷ ts) (other, differ) step
          ((role, started, found, keyed, count), now) =
        (
          (role, started, step.1 u.role_name other ∙ found, keyed, count),
          Unmoved-Step rbg t w w' ts differ step now,
        )

    not_again :
        (t : TargetReplica) (ts : List TargetReplica)
        → All (λ (u : TargetReplica). t.role_name ≢ u.role_name) ts
        → All (λ (u : TargetReplica). u.role_name ≢ t.role_name) ts
    not_again t = All-weaken (λ u h e. h (sym e))

    scale_targets-Reached :
        (rbg : Rbg) (ts : List TargetReplica) (q : Option Rbg) (w : W)
        → Distinct ts
        → All (Unmoved rbg w) ts
        → (q' : Option Rbg) × (w' : W) × (scale_targets api rbg ts (in_world api object c q w)
            ≡ (ok tt, in_world api object c q' w'))
          × Reached ts w w'
    unfolding scale_targets
    scale_targets-Reached rbg [] q w distinct now = (q, w, refl, (tt, λ name others. refl))
    scale_targets-Reached rbg (t ∷ ts) q w (differ, distinct)
          ((role, started, found, keyed, count), now) =
        let (q₁, w₁, first, step) = scale_target-Step rbg t q w role started found keyed count in
        let (q₂, w₂, rest, (all, kept)) =
          scale_targets-Reached rbg ts q₁ w₁ distinct
            (Unmoved-Step rbg t w w₁ ts differ step now) in
        let (has, at_has, same) = step.0 in
        (
          q₂,
          w₂,
          >>=-ok (scale_target api rbg t) (λ _. scale_targets api rbg ts)
                (in_world api object c q w) first
              ∙ rest,
          (
            ((has, kept t.role_name (not_again t ts differ) ∙ at_has, same), all),
            λ name others. kept name others.1 ∙ step.1 name others.0,
          ),
        )

    -- On a ready object whose roles are scaled by nobody else and by no adapter, `set_replicas`, not
    -- blocking, returns when the targets name different roles that all exist and have the key
    -- `replicas`, and ask for 32-bit numbers that are not negative; then every role that is named has
    -- the replicas that were asked for, and every other role is what it was.
    pub set_replicas_reaches :
        (t : TargetReplica) (ts : List TargetReplica) (q : Option Rbg) (w : W)
        → rbg_ready (object w) ≡ true
        → Distinct (t ∷ ts)
        → All (IsScalable (roles_of (object w))) (t ∷ ts)
        → (q' : Option Rbg) × (w' : W) × (set_replicas api
              (t ∷ ts)
              false
              (in_world api object c q w)
            ≡ (ok tt, in_world api object c q' w'))
          × Reached (t ∷ ts) w w'
    unfolding set_replicas
    set_replicas_reaches t ts q w ready distinct existing =
        let rbg = object w in
        let start = in_world api object c (some rbg) w in
        let (q', w', done, reached) =
          scale_targets-Reached rbg (t ∷ ts) (some rbg) w distinct
            (All-weaken (λ u k. (k.0.0, k.0.1, k.0.1, k.0.2, k.1)) (t ∷ ts) existing) in
        (
          q',
          w',
          >>=-ok (get_rbg api) (apply_if_ready api (t ∷ ts) false) (in_world api object c q w)
                (get_rbg-in_world api object c alone q w)
              ∙ (>>=-ok (is_ready api) (apply_targets api rbg (t ∷ ts) false) start
                    (is_ready-fetched api (in_world api object c q w) rbg w)
                  ∙ (ap (λ (b : Bool). apply_targets api rbg (t ∷ ts) false b start) ready
                      ∙ >>=-ok (scale_targets api rbg (t ∷ ts)) (λ _. pure tt) start done)),
          reached,
        )
