-- ===== src/Tests/Effect.antt =====
-- A cluster whose world is its roles, and the fallback that patches them.
use rbg_planner.Prelude.{ℤ, pos, String, List, [], ◌∷◌, Option, none, some, ◌≡◌, refl, ap}
use rbg_planner.Python.{ok, err, api_exception, ok-injective}
use rbg_planner.Cluster.{Role, Rbg, Kubernetes, roles_of}
use rbg_planner.Connector.{Session, patch_rbg_role_replicas}
use rbg_planner.Connector.Effect.{
  Patches, HoldsRoles, scaled, set_at, patch_rbg_role_replicas-effect,
}

abbrev role : String → ℤ → Role
role name n = record { name = some name; replicas = some n }

abbrev holding : List Role → Rbg
holding roles = record { spec = some (record { roles = some roles }); status = none }

abbrev roles_api : Kubernetes (List Role)
roles_api = record {
  get_object = λ ns name w. (ok (holding w), w);
  patch_scale = λ ns name n w. (err (api_exception 404), w);
  patch_object = λ ns name p w. (ok tt, set_at p.role_index p.value w);
  sleep = λ t w. w;
}

Patches-roles_api : Patches roles_api
Patches-roles_api = record {
  replaced = λ ns name i n before now after rbg read wrote.
      let rbg_eq : holding before ≡ rbg = ok-injective _ _ (ap (λ p. p.0) read) in
      let now_eq : before ≡ now = ap (λ p. p.1) read in
      let after_eq : set_at i n now ≡ after = ap (λ p. p.1) wrote in
      (after, rw (← after_eq, ← now_eq, ← rbg_eq) refl);
}

abbrev two_roles : List Role
two_roles = role "prefill" (pos 2) ∷ role "decode" (pos 1) ∷ []

abbrev session_of : List Role → Option Rbg → Session (List Role)
session_of roles cached = record {
  connector = record {
    rbg_name = "demo";
    namespace = "default";
    prefill_role_name = "prefill";
    decode_role_name = "decode";
    cached_rbg = cached;
  };
  world = roles;
}

decode_patched : patch_rbg_role_replicas roles_api "decode" (pos 4) (session_of two_roles none) ≡ (
  ok tt,
  session_of (role "prefill" (pos 2) ∷ role "decode" (pos 4) ∷ []) (some (holding two_roles)),
)
unfolding patch_rbg_role_replicas
decode_patched = refl

patch_rbg_role_replicas-effect_example :
    HoldsRoles roles_api
      (session_of (role "prefill" (pos 2) ∷ role "decode" (pos 4) ∷ []) (some (holding two_roles)))
      (scaled "decode" (pos 4) (roles_of (holding two_roles)))
patch_rbg_role_replicas-effect_example =
    patch_rbg_role_replicas-effect roles_api Patches-roles_api (session_of two_roles none)
      (holding two_roles) two_roles "decode" (pos 4) refl decode_patched
