-- ===== src/Python/Returns.antt =====
-- What a method that returns has gone through.
use rbg_planner.Prelude.{◌≡◌, refl, ap}
use rbg_planner.Python.{Result, ok, err, Method, ◌>>=◌}

module _ {S : Type 0} where
  -- A bind that returns has a first half that returns.
  pub >>=-returned :
      {A B : Type 0} (first : Method S A) (next : A → Method S B) (s : S) {result : B} {s' : S}
      → (first >>= next) s ≡ (ok result, s')
      → (value : A) × (middle : S) × (first s ≡ (ok value, middle))
        × (next value middle ≡ (ok result, s'))
  >>=-returned {A} {B} first next s {result} {s'} same = split (first s) refl same
    where
      split :
          (x : Result A × S)
          → first s ≡ x
          → ◌>>=◌ {A = A} {B = B} (λ _. x) next s ≡ (ok result, s')
          → (value : A) × (middle : S) × (first s ≡ (ok value, middle))
            × (next value middle ≡ (ok result, s'))
      split (ok value, middle) here there = (value, middle, here, there)
      split (err problem, middle) here there = cc

  -- A call that changes nothing returns what it lifts.
  pub lift-returned :
      {A : Type 0} (r : Result A) (s : S) {a : A} {s' : S}
      → ◌≡◌ {A = Result A × S} (r, s) (ok a, s')
      → (r ≡ ok a) × (s ≡ s')
  lift-returned {A} r s e = (ap (λ (x : Result A × S). x.0) e, ap (λ (x : Result A × S). x.1) e)
