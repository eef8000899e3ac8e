-- ===== src/Connector/Roles.antt =====
-- The two loops over the roles, of `_get_role_from_rbg` and of `_patch_rbg_role_replicas`, agree.
use rbg_planner.Prelude.{
  ℕ, suc, ◌-◌, ◌≤◌, String, List, [], ◌∷◌, Option, none, some, get_elem?, ◌≡◌, refl, arith,
  Bool-cases, inl, inr,
}
use rbg_planner.Cluster.{Role, has_text, find_role, role_index}

-- What the search for a position, begun at `k`, says of the search for the role.
abbrev SameRole : ℕ → List Role → String → Option ℕ → Type 0
SameRole k roles name none = find_role roles name ≡ none
SameRole k roles name (some i) =
    (role : Role) × (k ≤ i)
    × (get_elem? roles (i - k) ≡ some role)
    × (find_role roles name ≡ some role)

SameRole-skip :
    (k : ℕ) (role : Role) (roles : List Role) (name : String) (o : Option ℕ)
    → find_role (role ∷ roles) name ≡ find_role roles name
    → SameRole (suc k) roles name o
    → SameRole k (role ∷ roles) name o
SameRole-skip k role roles name none e h = rw e h
SameRole-skip k role roles name (some i) e (found, above, at_i, same) =
    (found, omega arith, rw (sub_suc i k above) at_i, rw e same)
  where
    sub_suc : (i k : ℕ) → suc k ≤ i → i - k ≡ suc (i - suc k)
    sub_suc i k h = omega arith

role_index-SameRole :
    (k : ℕ) (roles : List Role) (name : String) → SameRole k roles name (role_index k roles name)
unfolding role_index find_role
role_index-SameRole k [] name = refl
role_index-SameRole k (role ∷ roles) name = elim (Bool-cases (has_text role.name name)) [
  | inl same ↦ rw same (role, omega arith, rw (sub_self k) refl, rw same)
  | inr other ↦ rw other (
      SameRole-skip k role roles name (role_index (suc k) roles name) (rw other)
        (role_index-SameRole (suc k) roles name))
]
  where
    sub_self : (k : ℕ) → k - k ≡ 0
    sub_self k = omega arith

-- What a position found among the roles has to do with the role of that name.
abbrev pub IsPosition : List Role → String → Option ℕ → Type 0
IsPosition roles name none = find_role roles name ≡ none
IsPosition roles name (some i) =
    (role : Role) × (get_elem? roles i ≡ some role) × (find_role roles name ≡ some role)

-- The position that the fallback patches holds the very role whose replicas are compared, and no
-- position is found only if no role has the name.
pub role_index-IsPosition :
    (roles : List Role) (name : String) → IsPosition roles name (role_index 0 roles name)
role_index-IsPosition roles name =
    from_start (role_index 0 roles name) (role_index-SameRole 0 roles name)
  where
    sub_zero : (i : ℕ) → i - 0 ≡ i
    sub_zero i = omega arith

    from_start : (o : Option ℕ) → SameRole 0 roles name o → IsPosition roles name o
    from_start none h = h
    from_start (some i) (role, _, at_i, same) = (role, rw (sub_zero i) at at_i, same)
