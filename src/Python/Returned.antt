-- ===== src/Python/Returned.antt =====
-- Calls that return: a rule for each way of building a method that raises nothing from good states on.
use rbg_planner.Prelude.{Bool, true, false, if◌then◌else◌, ◌≡◌, refl}
use rbg_planner.Python.{Result, ok, err, Method, ◌>>=◌}

module _ {S : Type 0} (I : S → Type 0) where
  -- A call that returned, and left a good state.
  abbrev pub Returned : {A : Type 0} → Result A × S → Type 0
  Returned (ok a, s) = I s
  Returned (err e, s) = ⊥

  abbrev pub Returns : {A : Type 0} → Method S A → Type 0
  Returns m = (s : S) → I s → Returned (m s)

  pub bind-Returns :
      {A B : Type 0} (m : Method S A) (f : A → Method S B)
      → Returns m
      → ((a : A) → Returns (f a))
      → Returns (m >>= f)
  bind-Returns {A} {B} m f km kf s h = go (m s) (km s h)
    where
      go : (x : Result A × S) → Returned x → Returned (◌>>=◌ {A = A} {B = B} (λ _. x) f s)
      go (ok a, s') p = kf a s' p
      go (err e, s') p = absurd p

  pub if-Returns :
      {A : Type 0} (b : Bool) (m n : Method S A)
      → Returns m
      → Returns n
      → Returns (if b then m else n)
  if-Returns true m n km kn = km
  if-Returns false m n km kn = kn

  -- The result and the state of such a call.
  pub Returned-result :
      {A : Type 0} (x : Result A × S) → Returned x → (a : A) × (s : S) × (x ≡ (ok a, s)) × I s
  Returned-result (ok a, s) h = (a, s, refl, h)
  Returned-result (err e, s) h = absurd h
