-- ===== src/Planner/Scales.antt =====
-- What one adjustment of a planner comes to that is alone on its cluster: from the predicted load to
-- the replicas of the two roles.
use rbg_planner.Prelude.{
  ℤ, pos, List, [], ◌∷◌, All, Bool, true, false, some, if◌then◌else◌, ◌≡◌, ◌≢◌, refl, ap, ◌∙◌, ◌≤ℤ◌,
  ltb_ℤ, ltb-false→le, ◌⊎◌, inl, inr, Bool-cases,
}
use rbg_planner.Python.{Result, ok, pure}
use rbg_planner.Python.Float.{Floating}
use rbg_planner.Config.{PlannerConfig}
use rbg_planner.Cluster.{Rbg, roles_of, rbg_ready}
use rbg_planner.Connector.{Connector, Session, TargetReplica, set_replicas}
use rbg_planner.Connector.Skips.{set_replicas_not_ready}
use rbg_planner.Connector.Scaled.{Distinct}
use rbg_planner.Connector.Alone.{in_world, IsAlone, IsCount, IsScalable, max_count}
use rbg_planner.Replicas.Limits.{IsConsistent}
use rbg_planner.Connector.Reached.{Reached, set_replicas_reaches}
use rbg_planner.Planner.{Planner, Externals, on_session}
use rbg_planner.Planner.Adjust.{targets_of, apply_scaling}
use rbg_planner.Planner.Steady.{IsAt}

module _ {F W : Type 0} ⦃d : Floating F⦄ (env : Externals F W) (object : W → Rbg) (c : Connector)
    (alone : IsAlone env.kubernetes object c) (config : PlannerConfig F) where
  -- The settings of a planner that scales two roles, within limits that make sense.
  pub record IsLive : Type 0 where
    pub live : config.no_operation ≡ false
    pub differ : config.prefill_role_name ≢ config.decode_role_name
    pub least : pos 0 ≤ℤ config.min_replicas
    pub consistent : IsConsistent config

  -- What is asked of the two roles.
  abbrev pub wanted : ℤ × ℤ → List TargetReplica
  wanted (num_p, num_d) =
      record { role_name = config.prefill_role_name; desired_replicas = num_p }
      ∷ record { role_name = config.decode_role_name; desired_replicas = num_d }
      ∷ []

  -- Both roles exist and have the key `replicas`.
  abbrev pub HasRoles : W → Type 0
  HasRoles w = All (IsScalable (roles_of (object w))) (wanted (pos 0, pos 0))

  -- Neither number is above what the API takes.
  abbrev pub IsSmall : ℤ × ℤ → Type 0
  IsSmall (p, n) = (p ≤ℤ max_count) × (n ≤ℤ max_count)

  -- One of the numbers is.
  abbrev pub IsTooLarge : ℤ × ℤ → Type 0
  IsTooLarge (p, n) = (ltb_ℤ max_count p ≡ true) ⊎ (ltb_ℤ max_count n ≡ true)

  pub IsSmall-IsTooLarge : (r : ℤ × ℤ) → IsSmall r ⊎ IsTooLarge r
  IsSmall-IsTooLarge (p, n) = elim (Bool-cases (ltb_ℤ max_count p)) [
    | inl large ↦ inr (inl large)
    | inr small ↦ elim (Bool-cases (ltb_ℤ max_count n)) [
      | inl large ↦ inr (inr large)
      | inr also_small ↦ inl (ltb-false→le _ _ small, ltb-false→le _ _ also_small)
    ]
  ]

  -- Both numbers are ones that the API takes.
  abbrev pub IsTaken : ℤ × ℤ → Type 0
  IsTaken (p, n) = IsCount p × IsCount n

  -- The call returns at a world.
  abbrev pub Ends : W → Result (Unit {0}) × Planner F W → Type 0
  Ends w x = (s : Planner F W) × (x ≡ (ok tt, s)) × IsAt env object c alone config w s

  -- The call returns where both roles have these replicas and the others are what they were.
  abbrev pub Scales : W → ℤ × ℤ → Result (Unit {0}) × Planner F W → Type 0
  Scales w r x = (w' : W) × Ends w' x × Reached env.kubernetes object c (wanted r) w w'

  module _ (live : IsLive) where
    targets-Distinct : (r : ℤ × ℤ) → Distinct (wanted r)
    targets-Distinct (p, n) = ((live.differ, tt), (tt, tt))

    targets-IsScalable :
        (w : W) (r : ℤ × ℤ)
        → HasRoles w
        → IsTaken r
        → All (IsScalable (roles_of (object w))) (wanted r)
    targets-IsScalable w (p, n) (first, (second, _)) (k, l) = ((first.0, k), ((second.0, l), tt))

    scaling :
        (r : ℤ × ℤ) (s : Planner F W)
        → s.config ≡ config
        → apply_scaling env r s
          ≡ on_session (set_replicas env.kubernetes (targets_of config r) false) s
    unfolding apply_scaling
    scaling r s same =
        ap
          (λ (k : PlannerConfig F).
            (if k.no_operation
                then pure tt
                else on_session (set_replicas env.kubernetes (targets_of k r) false))
              s)
          same
        ∙ ap
            (λ (b : Bool).
              (if b
                  then pure tt
                  else on_session (set_replicas env.kubernetes (targets_of config r) false))
                s)
            live.live

    pub apply_scaling-Scales :
        (w : W) (r : ℤ × ℤ) (s : Planner F W)
        → HasRoles w
        → rbg_ready (object w) ≡ true
        → IsTaken r
        → IsAt env object c alone config w s
        → Scales w r (apply_scaling env r s)
    unfolding on_session targets_of
    apply_scaling-Scales w r s roles ready taken ((q, at), same) =
        let (q', w', done, reached) =
          set_replicas_reaches env.kubernetes object c alone _ _ q w ready (targets-Distinct r)
            (targets-IsScalable w r roles taken) in
        (
          w',
          (
            record s { session = in_world env.kubernetes object c q' w' },
            scaling r s same
                ∙ ap
                    (λ k.
                      let (x, session) =
                        set_replicas env.kubernetes (targets_of config r) false k in
                      (x, record s { session = session }))
                    at
                ∙ ap (λ (x : Result (Unit {0}) × Session W). (x.0, record s { session = x.1 }))
                    done,
            ((q', refl), same),
          ),
          reached,
        )

    pub apply_scaling-not_ready :
        (w : W) (r : ℤ × ℤ) (s : Planner F W)
        → rbg_ready (object w) ≡ false
        → IsAt env object c alone config w s
        → Ends w (apply_scaling env r s)
    unfolding on_session targets_of
    apply_scaling-not_ready w r s not_ready ((q, at), same) = (
      record s { session = in_world env.kubernetes object c (some (object w)) w },
      scaling r s same
          ∙ ap
              (λ k.
                let (x, session) = set_replicas env.kubernetes (targets_of config r) false k in
                (x, record s { session = session }))
              at
          ∙ ap (λ (x : Result (Unit {0}) × Session W). (x.0, record s { session = x.1 }))
              (set_replicas_not_ready env.kubernetes (in_world env.kubernetes object c q w)
                (object w) w _ _ false (alone.reads w) not_ready),
      ((some (object w), refl), same),
    )
