-- ===== src/Connector/Effect.antt =====
-- What the fallback of `_scale_role` does to a cluster that applies JSON patches.
use rbg_planner.Prelude.{
  ℕ, zero, suc, ◌-◌, ◌≤◌, ℤ, String, List, [], ◌∷◌, false, Option, none, some, if◌then◌else◌, ◌≡◌,
  refl, sym, ap, ◌∙◌, arith, Bool-cases, inl, inr,
}
use mathlib.Core.Option
use mathlib.Core.Path.{subst}
use mathlib.Core.Option.{get_or}
use rbg_planner.Python.{ok, err-ne-ok, >>=-ok}
use rbg_planner.Cluster.{Role, Rbg, RbgSpec, JsonPatch, Kubernetes, has_text, roles_of, role_index}
use rbg_planner.Connector.{Session, get_rbg, patch_at, patch_rbg_role_replicas}
use rbg_planner.Connector.Skips.{Answers, fetched, get_rbg-fetched}

abbrev pub with_replicas : ℤ → Role → Role
with_replicas n role = record role { replicas = some n }

-- `replace` on `/spec/roles/<i>/replicas`, as JSON patch defines it, where the path exists.
abbrev pub set_at : ℕ → ℤ → List Role → List Role
set_at i n [] = []
set_at zero n (role ∷ roles) = with_replicas n role ∷ roles
set_at (suc i) n (role ∷ roles) = role ∷ set_at i n roles

abbrev pub replace_replicas : ℕ → ℤ → Rbg → Rbg
replace_replicas i n rbg = record rbg {
  spec =
      Option.map (λ (spec : RbgSpec). record spec { roles = Option.map (set_at i n) spec.roles })
        rbg.spec;
}

-- The roles with the replicas of the first of that name set, and all else as it was.
abbrev pub scaled : String → ℤ → List Role → List Role
scaled name n [] = []
scaled name n (role ∷ roles) =
    let rest = scaled name n roles in
    if has_text role.name name then with_replicas n role ∷ roles else role ∷ rest

-- A patch of the object that was just read, once it is accepted, shows in the next read.
pub record Patches {W : Type 0} (api : Kubernetes W) : Type 0 where
  pub replaced :
      (ns name : String) (i : ℕ) (n : ℤ) (before now after : W) (rbg : Rbg)
      → api.get_object ns name before ≡ (ok rbg, now)
      → api.patch_object ns name (record { op = "replace"; role_index = i; value = n }) now
        ≡ (ok tt, after)
      → (later : W) × (api.get_object ns name after ≡ (ok (replace_replicas i n rbg), later))

pub roles_of-replace_replicas :
    (i : ℕ) (n : ℤ) (rbg : Rbg) → roles_of (replace_replicas i n rbg) ≡ set_at i n (roles_of rbg)
unfolding roles_of
roles_of-replace_replicas i n rbg = by_spec rbg.spec
  where
    by_roles :
        (o : Option (List Role)) → get_or (Option.map (set_at i n) o) [] ≡ set_at i n (get_or o [])
    by_roles none = refl
    by_roles (some roles) = refl

    by_spec :
        (o : Option RbgSpec)
        → elim (Option.map
            (λ (spec : RbgSpec). record spec { roles = Option.map (set_at i n) spec.roles })
            o) [ none ↦ [] | some spec ↦ get_or spec.roles [] ]
          ≡ set_at i n (elim o [ none ↦ [] | some spec ↦ get_or spec.roles [] ])
    by_spec none = refl
    by_spec (some spec) = by_roles spec.roles

-- What a position found from `k` on has to do with the scaled roles.
abbrev pub SetsRole : ℕ → ℤ → String → List Role → Option ℕ → Type 0
SetsRole k n name roles none = Unit {0}
SetsRole k n name roles (some i) = (k ≤ i) × (set_at (i - k) n roles ≡ scaled name n roles)

SetsRole-skip :
    (k : ℕ) (n : ℤ) (name : String) (role : Role) (roles : List Role) (o : Option ℕ)
    → has_text role.name name ≡ false
    → SetsRole (suc k) n name roles o
    → SetsRole k n name (role ∷ roles) o
SetsRole-skip k n name role roles none other h = tt
SetsRole-skip k n name role roles (some i) other (above, same) =
    (omega arith, rw (sub_suc, other) (ap (λ rest. role ∷ rest) same))
  where
    sub_suc : i - k ≡ suc (i - suc k)
    sub_suc = omega arith

pub role_index-SetsRole :
    (k : ℕ) (n : ℤ) (name : String) (roles : List Role)
    → SetsRole k n name roles (role_index k roles name)
unfolding role_index
role_index-SetsRole k n name [] = tt
role_index-SetsRole k n name (role ∷ roles) = elim (Bool-cases (has_text role.name name)) [
  | inl same ↦ rw same (omega arith, rw (sub_self, same) refl)
  | inr other ↦ rw other (
      SetsRole-skip k n name role roles (role_index (suc k) roles name) other
        (role_index-SetsRole (suc k) n name roles))
]
  where
    sub_self : k - k ≡ 0
    sub_self = omega arith

module _ {W : Type 0} (api : Kubernetes W) where
  -- What the object holds after a call that left the state `s'`.
  abbrev pub HoldsRoles : Session W → List Role → Type 0
  HoldsRoles s roles =
      (rbg : Rbg) × (later : W) × (api.get_object s.connector.namespace s.connector.rbg_name s.world
        ≡ (ok rbg, later))
      × (roles_of rbg ≡ roles)

module _ {W : Type 0} (api : Kubernetes W) (patches : Patches api) where
  patch_at-effect :
      (s : Session W) (rbg : Rbg) (now : W) (name : String) (n : ℤ) (o : Option ℕ) {s' : Session W}
      → Answers api s rbg now
      → SetsRole 0 n name (roles_of rbg) o
      → patch_at api s.connector o name n (fetched api s rbg now) ≡ (ok tt, s')
      → HoldsRoles api s' (scaled name n (roles_of rbg))
  unfolding patch_at
  patch_at-effect s rbg now name n none read h e = absurd (err-ne-ok (ap (λ p. p.0) e))
  patch_at-effect s rbg now name n (some i) {s'} read (_, same) e =
      let c = s.connector in
      let patch : JsonPatch = record { op = "replace"; role_index = i; value = n } in
      let answer = api.patch_object c.namespace c.rbg_name patch now in
      let wrote : answer ≡ (ok tt, answer.1) = ap (λ p. (p.0, answer.1)) e in
      let (later, shown) =
        patches.replaced c.namespace c.rbg_name i n s.world now answer.1 rbg read wrote in
      let zero_less : i - 0 ≡ i = omega arith in
      subst (λ (t : Session W). HoldsRoles api t (scaled name n (roles_of rbg))) (ap (λ p. p.1) e)
        (
          replace_replicas i n rbg,
          later,
          shown,
          roles_of-replace_replicas i n rbg
              ∙ ap (λ (k : ℕ). set_at k n (roles_of rbg)) (sym zero_less)
              ∙ same,
        )

  -- When the fallback returns, the next read of the object shows the roles that it had, in their
  -- order and unchanged but for the replicas of the first role of the name, which are the number
  -- asked for. The cluster applies an accepted JSON patch to the object that was read before it.
  pub patch_rbg_role_replicas-effect :
      (s : Session W) (rbg : Rbg) (now : W) (name : String) (n : ℤ) {s' : Session W}
      → Answers api s rbg now
      → patch_rbg_role_replicas api name n s ≡ (ok tt, s')
      → HoldsRoles api s' (scaled name n (roles_of rbg))
  unfolding patch_rbg_role_replicas
  patch_rbg_role_replicas-effect s rbg now name n read e =
      patch_at-effect s rbg now name n (role_index 0 (roles_of rbg) name) read
        (role_index-SetsRole 0 n name (roles_of rbg))
        (sym (
            >>=-ok (get_rbg api)
              (λ r t. patch_at api t.connector (role_index 0 (roles_of r) name) name n t) s
              (get_rbg-fetched api s rbg now read))
          ∙ e)
