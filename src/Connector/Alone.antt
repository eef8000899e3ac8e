-- ===== src/Connector/Alone.antt =====
-- One planner alone on a cluster without scaling adapters: what a write of a role's replicas does.
use rbg_planner.Prelude.{
  ℕ, ℤ, String, List, false, Option, none, some, get_elem?, if◌then◌else◌, ◌≡◌, sym, ap, ◌∙◌, ◌-◌,
  arith, pos, ◌≤ℤ◌,
}
use mathlib.Core.Path.{subst}
use rbg_planner.Python.{Result, ok, err, api_exception, pure, >>=-ok}
use rbg_planner.Cluster.{Role, Rbg, Kubernetes, roles_of, find_role, role_index}
use rbg_planner.Connector.{
  Connector, TargetReplica, Session, get_rbg, scale_handled, try_scale_via_rbgsa, patch_at,
  patch_rbg_role_replicas, scale_role,
}
use rbg_planner.Connector.Skips.{get_rbg-fetched}
use rbg_planner.Connector.Roles.{IsPosition, role_index-IsPosition}
use rbg_planner.Connector.Effect.{
  replace_replicas, scaled, SetsRole, role_index-SetsRole, roles_of-replace_replicas, set_at,
}

-- The role has the key `replicas`: a JSON patch replaces no value that is not there.
abbrev pub HasReplicas : Role → Type 0
HasReplicas role = (old : ℤ) × (role.replicas ≡ some old)

-- The greatest number that the API takes as `replicas`.
abbrev pub max_count : ℤ
max_count = pos 2147483647

-- A number that the API takes as `replicas`, a 32-bit integer that is not negative.
abbrev pub IsCount : ℤ → Type 0
IsCount n = (pos 0 ≤ℤ n) × (n ≤ℤ max_count)

-- There is a role of the target's name with the key `replicas`, and the target asks for a number that
-- the API takes.
abbrev pub IsScalable : List Role → TargetReplica → Type 0
IsScalable roles t =
    ((role : Role) × (find_role roles t.role_name ≡ some role) × HasReplicas role)
    × IsCount t.desired_replicas

module _ {W : Type 0} (api : Kubernetes W) (object : W → Rbg) (c : Connector) where
  -- The connector in a world, with what it has cached.
  abbrev pub in_world : Option Rbg → W → Session W
  in_world cached w = record { connector = record c { cached_rbg = cached }; world = w }

  -- A cluster that nobody else writes to while the planner does: a read answers the object and changes
  -- nothing, no role has a scaling adapter, and a patch that replaces the `replicas` of a role which
  -- has that key is applied, where the number is one that the API takes.
  pub record IsAlone : Type 0 where
    pub reads : (w : W) → api.get_object c.namespace c.rbg_name w ≡ (ok (object w), w)
    pub no_adapter :
        (adapter : String) (n : ℤ) (w : W)
        → api.patch_scale c.namespace adapter n w ≡ (err (api_exception 404), w)
    pub patches :
        (i : ℕ) (n : ℤ) (w : W) (role : Role)
        → get_elem? (roles_of (object w)) i ≡ some role
        → HasReplicas role
        → IsCount n
        → (w' : W) × (api.patch_object c.namespace c.rbg_name
              (record { op = "replace"; role_index = i; value = n })
              w
            ≡ (ok tt, w'))
          × (object w' ≡ replace_replicas i n (object w))

  -- A write that has set the replicas of the role.
  abbrev pub Wrote : String → ℤ → W → W → Type 0
  Wrote name n w w' = roles_of (object w') ≡ scaled name n (roles_of (object w))

  module _ (alone : IsAlone) where
    pub get_rbg-in_world :
        (q : Option Rbg) (w : W)
        → get_rbg api (in_world q w) ≡ (ok (object w), in_world (some (object w)) w)
    get_rbg-in_world q w = get_rbg-fetched api (in_world q w) (object w) w (alone.reads w)

    try_scale-in_world :
        (name : String) (n : ℤ) (q : Option Rbg) (w : W)
        → try_scale_via_rbgsa api name n (in_world q w) ≡ (ok false, in_world q w)
    unfolding try_scale_via_rbgsa scale_handled
    try_scale-in_world name n q w =
        ap
          (λ (x : Result (Unit {0}) × W).
            scale_handled api (x.0, record { connector = (in_world q w).connector; world = x.1 }))
          (alone.no_adapter _ n w)

    patch_at-in_world :
        (o : Option ℕ) (name : String) (n : ℤ) (q : Option Rbg) (w : W) (role : Role)
        → find_role (roles_of (object w)) name ≡ some role
        → HasReplicas role
        → IsCount n
        → IsPosition (roles_of (object w)) name o
        → SetsRole 0 n name (roles_of (object w)) o
        → (w' : W) × (patch_at api (in_world q w).connector o name n (in_world q w)
            ≡ (ok tt, in_world q w'))
          × Wrote name n w w'
    unfolding patch_at
    patch_at-in_world none name n q w role found keyed count missing sets = absurd (cc)
    patch_at-in_world (some i) name n q w role found keyed count (here, at_i, at_name) (_, same) =
        let same_role : role ≡ here = cc in
        let (w', wrote, changed) =
          alone.patches i n w here at_i (subst HasReplicas same_role keyed) count in
        let zero_less : i - 0 ≡ i = omega arith in
        (
          w',
          ap (λ (x : Result (Unit {0}) × W). (x.0, in_world q x.1)) wrote,
          ap roles_of changed
              ∙ (roles_of-replace_replicas i n (object w)
                  ∙ (ap (λ k. set_at k n (roles_of (object w))) (sym zero_less) ∙ same)),
        )

    patch-in_world :
        (name : String) (n : ℤ) (q : Option Rbg) (w : W) (role : Role)
        → find_role (roles_of (object w)) name ≡ some role
        → HasReplicas role
        → IsCount n
        → (w' : W) × (patch_rbg_role_replicas api name n (in_world q w)
            ≡ (ok tt, in_world (some (object w)) w'))
          × Wrote name n w w'
    unfolding patch_rbg_role_replicas
    patch-in_world name n q w role found keyed count =
        let roles = roles_of (object w) in
        let (w', done, wrote) =
          patch_at-in_world (role_index 0 roles name) name n (some (object w)) w role found keyed
            count (role_index-IsPosition roles name) (role_index-SetsRole 0 n name roles) in
        (
          w',
          >>=-ok (get_rbg api)
                (λ r t. patch_at api t.connector (role_index 0 (roles_of r) name) name n t)
                (in_world q w) (get_rbg-in_world q w)
              ∙ done,
          wrote,
        )

    pub scale_role-in_world :
        (name : String) (n : ℤ) (q : Option Rbg) (w : W) (role : Role)
        → find_role (roles_of (object w)) name ≡ some role
        → HasReplicas role
        → IsCount n
        → (w' : W) × (scale_role api name n (in_world q w) ≡ (ok tt, in_world (some (object w)) w'))
          × Wrote name n w w'
    unfolding scale_role
    scale_role-in_world name n q w role found keyed count =
        let (w', done, wrote) = patch-in_world name n q w role found keyed count in
        (
          w',
          >>=-ok (try_scale_via_rbgsa api name n)
                (λ ready. if ready then pure tt else patch_rbg_role_replicas api name n)
                (in_world q w) (try_scale-in_world name n q w)
              ∙ done,
          wrote,
        )
