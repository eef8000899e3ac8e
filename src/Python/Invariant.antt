-- ===== src/Python/Invariant.antt =====
-- Invariants of an object's state: a rule for each way of building a method.
use rbg_planner.Prelude.{Bool, true, false, if◌then◌else◌}
use rbg_planner.Python.{Result, ok, err, Method, ◌>>=◌}

module _ {S : Type 0} (I : S → Type 0) where
  -- The call leaves the invariant true, however it ends.
  abbrev pub Preserves : {A : Type 0} → Method S A → Type 0
  Preserves m = (s : S) → I s → I (m s).1

  -- So does a bind of such calls, where the second may use what is known of a result.
  pub bind-Preserves :
      {A B : Type 0} (m : Method S A) (f : A → Method S B)
      → Preserves m
      → ((a : A) → Preserves (f a))
      → Preserves (m >>= f)
  bind-Preserves {A} {B} m f km kf s h = go (m s) (km s h)
    where
      go : (x : Result A × S) → I x.1 → I (◌>>=◌ {A = A} {B = B} (λ _. x) f s).1
      go (ok a, s') p = kf a s' p
      go (err e, s') p = p

  pub if-Preserves :
      {A : Type 0} (b : Bool) (m n : Method S A)
      → Preserves m
      → Preserves n
      → Preserves (if b then m else n)
  if-Preserves true m n km kn = km
  if-Preserves false m n km kn = kn
