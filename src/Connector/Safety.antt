-- ===== src/Connector/Safety.antt =====
-- What `set_replicas` can do to the world: a predicate that the calls keep is kept by the method.
use rbg_planner.Prelude.{
  ℕ, zero, suc, ℤ, eq_ℤ, String, List, [], ◌∷◌, All, ◌==◌, Bool, true, false, Option, none, some,
  if◌then◌else◌, Bool-cases, inl, inr,
}
use Prim.Native.String.{◌++◌ as append}
use rbg_planner.Python.{api_exception, Result, ok, err, Method, pure, lift, ◌>>=◌, ◌>>◌}
use rbg_planner.Cluster.{
  Role, Rbg, JsonPatch, Kubernetes, ready_replicas_of, replicas_of, rbg_ready, role_index, roles_of,
}
use rbg_planner.Connector.{
  validate_deployment, get_role_ready_replicas, wait_default, Connector, get_role_from_rbg,
  cached_or_fetched, rbg_fetched, TargetReplica, Session, get_rbg, write, try_scale_via_rbgsa,
  patch_rbg_role_replicas, patch_at, scale_handled, scale_role, is_ready, wait_for_ready,
  scale_target, scale_targets, set_replicas,
}

-- The calls keep `P`, the writes as long as the number of replicas that they write has `Q`.
pub record KeptBy {W : Type 0} (api : Kubernetes W) (P : W → Type 0) (Q : ℤ → Type 0) : Type 0 where
  pub get_object : (ns name : String) (w : W) → P w → P (api.get_object ns name w).1
  pub patch_scale :
      (ns name : String) (n : ℤ) (w : W) → Q n → P w → P (api.patch_scale ns name n w).1
  pub patch_object :
      (ns name : String) (p : JsonPatch) (w : W)
      → Q p.value
      → P w
      → P (api.patch_object ns name p w).1
  pub sleep : (t : ℕ) (w : W) → P w → P (api.sleep t w)

module _ {W : Type 0} (api : Kubernetes W) (P : W → Type 0) (Q : ℤ → Type 0) where
  abbrev pub Keeps : {A : Type 0} → Method (Session W) A → Type 0
  Keeps m = (s : Session W) → P s.world → P (m s).1.world

  pub Keeps-bind :
      {A B : Type 0} (m : Method (Session W) A) (f : A → Method (Session W) B)
      → Keeps m
      → ((a : A) → Keeps (f a))
      → Keeps (m >>= f)
  Keeps-bind {A} {B} m f km kf s h = go (m s) (km s h)
    where
      go : (x : Result A × Session W) → P x.1.world → P (◌>>=◌ {A = A} {B = B} (λ _. x) f s).1.world
      go (ok a, s') p = kf a s' p
      go (err e, s') p = p

  Keeps-if :
      {A : Type 0} (b : Bool) (m n : Method (Session W) A)
      → Keeps m
      → Keeps n
      → Keeps (if b then m else n)
  Keeps-if true m n km kn = km
  Keeps-if false m n km kn = kn

  Keeps-write :
      {A : Type 0} (call : W → Result A × W)
      → ((w : W) → P w → P (call w).1)
      → Keeps (write api call)
  Keeps-write call k s h = k s.world h

  module _ (kept : KeptBy api P Q) where
    pub get_rbg-Keeps : Keeps (get_rbg api)
    unfolding get_rbg
    get_rbg-Keeps s h =
        fetched s.connector (api.get_object s.connector.namespace s.connector.rbg_name s.world)
          (kept.get_object s.connector.namespace s.connector.rbg_name s.world h)
      where
        fetched : (c : Connector) (x : Result Rbg × W) → P x.1 → P (rbg_fetched api c x).1.world
        fetched c (ok rbg, w) p = p
        fetched c (err e, w) p = p

    try_scale-Keeps : (name : String) (n : ℤ) → Q n → Keeps (try_scale_via_rbgsa api name n)
    unfolding try_scale_via_rbgsa
    try_scale-Keeps name n q s h =
        handled
          (write api
            (api.patch_scale s.connector.namespace (append (append s.connector.rbg_name "-") name)
              n)
            s)
          (kept.patch_scale s.connector.namespace (append (append s.connector.rbg_name "-") name) n
            s.world q h)
      where
        handled :
            (x : Result (Unit {0}) × Session W) → P x.1.world → P (scale_handled api x).1.world
        handled (ok _, s') p = p
        handled (err (api_exception status), s') p = elim (Bool-cases (status == 404)) [
          | inl missing ↦ rw missing p
          | inr other ↦ rw other p
        ]
        handled (err _, s') p = p

    patch-Keeps : (name : String) (n : ℤ) → Q n → Keeps (patch_rbg_role_replicas api name n)
    unfolding patch_rbg_role_replicas
    patch-Keeps name n q =
        Keeps-bind (get_rbg api)
          (λ rbg s. patch_at api s.connector (role_index 0 (roles_of rbg) name) name n s)
          get_rbg-Keeps (λ rbg s h. at s.connector (role_index 0 (roles_of rbg) name) s h)
      where
        at : (c : Connector) (o : Option ℕ) → Keeps (patch_at api c o name n)
        at c none s h = h
        at c (some i) s h =
            kept.patch_object c.namespace c.rbg_name
              (record { op = "replace"; role_index = i; value = n }) s.world q h

    scale_role-Keeps : (name : String) (n : ℤ) → Q n → Keeps (scale_role api name n)
    unfolding scale_role
    scale_role-Keeps name n q =
        Keeps-bind (try_scale_via_rbgsa api name n)
          (λ scaled. if scaled then pure tt else patch_rbg_role_replicas api name n)
          (try_scale-Keeps name n q) (elim [ true ↦ λ s h. h | false ↦ patch-Keeps name n q ])

    is_ready-Keeps : Keeps (is_ready api)
    unfolding is_ready
    is_ready-Keeps s h =
        Keeps-bind (cached_or_fetched api s.connector.cached_rbg) (λ rbg. pure (rbg_ready rbg))
          (fetched s.connector.cached_rbg) (λ rbg s h. h) s h
      where
        fetched : (o : Option Rbg) → Keeps (cached_or_fetched api o)
        fetched none = get_rbg-Keeps
        fetched (some rbg) = λ s h. h

    scale_target-Keeps :
        (rbg : Rbg) (t : TargetReplica) → Q t.desired_replicas → Keeps (scale_target api rbg t)
    unfolding scale_target
    scale_target-Keeps rbg t q s h =
        Keeps-bind (lift (get_role_from_rbg s.connector rbg t.role_name))
          (λ role.
            if eq_ℤ (replicas_of role) t.desired_replicas
            then pure tt
            else scale_role api t.role_name t.desired_replicas)
          (λ s h. h)
          (λ role.
            Keeps-if (eq_ℤ (replicas_of role) t.desired_replicas) (pure tt)
              (scale_role api t.role_name t.desired_replicas) (λ s h. h)
              (scale_role-Keeps t.role_name t.desired_replicas q))
          s h

    scale_targets-Keeps :
        (rbg : Rbg) (ts : List TargetReplica)
        → All (λ t. Q t.desired_replicas) ts
        → Keeps (scale_targets api rbg ts)
    unfolding scale_targets
    scale_targets-Keeps rbg [] q = λ s h. h
    scale_targets-Keeps rbg (t ∷ ts) (q, qs) =
        Keeps-bind (scale_target api rbg t) (λ _. scale_targets api rbg ts)
          (scale_target-Keeps rbg t q) (λ _. scale_targets-Keeps rbg ts qs)

    pub wait_for_ready-Keeps : (attempts delay : ℕ) → Keeps (wait_for_ready api attempts delay)
    unfolding wait_for_ready
    wait_for_ready-Keeps zero delay s h = h
    wait_for_ready-Keeps (suc attempts) delay s h =
        Keeps-bind (get_rbg api)
          (λ rbg. if rbg_ready rbg then pure tt else wait_for_ready api attempts delay)
          get_rbg-Keeps
          (λ rbg.
            Keeps-if (rbg_ready rbg) (pure tt) (wait_for_ready api attempts delay) (λ s h. h)
              (wait_for_ready-Keeps attempts delay))
          (record s { world = api.sleep delay s.world }) (kept.sleep delay s.world h)

    -- A predicate of the world that holds before `set_replicas` holds after it, however it ends, if
    -- reading and waiting keep it, and so does every write of a number that the targets ask for.
    pub set_replicas-Keeps :
        (ts : List TargetReplica) (blocking : Bool)
        → All (λ t. Q t.desired_replicas) ts
        → (s : Session W) → P s.world
        → P (set_replicas api ts blocking s).1.world
    unfolding set_replicas
    set_replicas-Keeps [] blocking q = λ s h. h
    set_replicas-Keeps (t ∷ ts) blocking q =
        let after : Method (Session W) (Unit {0}) =
          if blocking then wait_default api else pure tt in
        let scale = λ (rbg : Rbg). scale_targets api rbg (t ∷ ts) >> after in
        Keeps-bind (get_rbg api)
          (λ rbg. is_ready api >>= λ ready. if ready then scale rbg else pure tt) get_rbg-Keeps
          (λ rbg.
            Keeps-bind (is_ready api) (λ ready. if ready then scale rbg else pure tt) is_ready-Keeps
              (λ ready.
                Keeps-if ready (scale rbg) (pure tt)
                  (Keeps-bind (scale_targets api rbg (t ∷ ts)) (λ _. after)
                    (scale_targets-Keeps rbg (t ∷ ts) q)
                    (λ _.
                      Keeps-if blocking (wait_default api) (pure tt) (wait_for_ready-Keeps 180 10)
                        (λ s h. h)))
                  (λ s h. h)))

    pub validate_deployment-Keeps : Keeps (validate_deployment api)
    unfolding validate_deployment
    validate_deployment-Keeps s h =
        Keeps-bind (get_rbg api)
          (λ rbg. find rbg c.prefill_role_name >> (find rbg c.decode_role_name >> pure tt))
          get_rbg-Keeps
          (λ rbg.
            Keeps-bind (find rbg c.prefill_role_name) (λ _. find rbg c.decode_role_name >> pure tt)
              (λ s h. h)
              (λ _.
                Keeps-bind (find rbg c.decode_role_name) (λ _. pure tt) (λ s h. h) (λ _ s h. h)))
          s h
      where
        c : Connector
        c = s.connector

        find : Rbg → String → Method (Session W) Role
        find rbg name = lift (get_role_from_rbg c rbg name)

    pub get_role_ready_replicas-Keeps : (name : String) → Keeps (get_role_ready_replicas api name)
    unfolding get_role_ready_replicas
    get_role_ready_replicas-Keeps name =
        Keeps-bind (get_rbg api) (λ rbg. pure (ready_replicas_of rbg name)) get_rbg-Keeps
          (λ rbg s h. h)
