-- ===== src/Connector/Scaled.antt =====
-- Where the replicas of one role are set: what the other searches find (`_get_role_from_rbg`).
use rbg_planner.Prelude.{
  ℤ, eq_ℤ, String, List, [], ◌∷◌, All, true, false, Option, none, some, if◌then◌else◌, ◌≡◌, ◌≢◌,
  refl, sym, ap, ◌∙◌, Bool-cases, inl, inr, arith,
}
use mathlib.Core.Option
use text.Mathlib.Text.{◌==◌ as str_eq}
use text.Mathlib.TextEquality.{eq_iff}
use rbg_planner.Cluster.{Role, has_text, find_role, replicas_of}
use rbg_planner.Connector.{TargetReplica}
use rbg_planner.Connector.Effect.{with_replicas, scaled}

text_unique :
    (o : Option String) (a b : String) → a ≢ b → has_text o a ≡ true → has_text o b ≡ false
text_unique none a b other h = refl
text_unique (some t) a b other h = elim (Bool-cases (str_eq t b)) [
  | inl same ↦ absurd (other (sym ((eq_iff t a).0 h) ∙ (eq_iff t b).0 same))
  | inr different ↦ different
]

find_role-scaled :
    (name : String) (n : ℤ) (roles : List Role) (role : Role)
    → find_role roles name ≡ some role
    → find_role (scaled name n roles) name ≡ some (with_replicas n role)
unfolding find_role
find_role-scaled name n [] role found = absurd (cc)
find_role-scaled name n (first ∷ roles) role found = elim (Bool-cases (has_text first.name name)) [
  | inl same ↦ rw (same, same) (ap (Option.map (with_replicas n)) (rw same at found))
  | inr other ↦ rw (other, other) (find_role-scaled name n roles role (rw other at found))
]

pub find_role-scaled_other :
    (name : String) (n : ℤ) (roles : List Role) (other : String)
    → name ≢ other
    → find_role (scaled name n roles) other ≡ find_role roles other
unfolding find_role
find_role-scaled_other name n [] other differ = refl
find_role-scaled_other name n (first ∷ roles) other differ =
    elim (Bool-cases (has_text first.name name)) [
      | inl same ↦ rw (same, text_unique first.name name other differ same) refl
      | inr not_this ↦ rw not_this (
          ap (λ o. if has_text first.name other then some first else o)
            (find_role-scaled_other name n roles other differ))
    ]

-- The role of the target has the replicas that it asks for.
abbrev pub Has : List Role → TargetReplica → Type 0
Has roles t =
    (role : Role) × (find_role roles t.role_name ≡ some role)
    × (eq_ℤ (replicas_of role) t.desired_replicas ≡ true)

-- The roles that none of the targets names are what they were.
abbrev pub OthersKept : List TargetReplica → List Role → List Role → Type 0
OthersKept ts before after =
    (name : String)
    → All (λ (t : TargetReplica). t.role_name ≢ name) ts
    → find_role after name ≡ find_role before name

-- No two targets name the same role.
abbrev pub Distinct : List TargetReplica → Type 0
Distinct [] = Unit
Distinct (t ∷ ts) = All (λ (u : TargetReplica). t.role_name ≢ u.role_name) ts × Distinct ts

eq_ℤ-refl : (n : ℤ) → eq_ℤ n n ≡ true
eq_ℤ-refl n = ground arith

pub scaled-Has :
    (t : TargetReplica) (roles : List Role) (role : Role)
    → find_role roles t.role_name ≡ some role
    → Has (scaled t.role_name t.desired_replicas roles) t
unfolding replicas_of
scaled-Has t roles role found = (
  with_replicas t.desired_replicas role,
  find_role-scaled t.role_name t.desired_replicas roles role found,
  eq_ℤ-refl t.desired_replicas,
)
