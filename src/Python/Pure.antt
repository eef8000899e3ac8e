-- ===== src/Python/Pure.antt =====
-- `do` blocks for code that raises and changes no state.
use rbg_planner.Prelude.{◌≡◌, refl}
use rbg_planner.Python.{Result, ok, err}

infixl 5 ◌>>◌ ◌>>=◌
abbrev pub ◌>>=◌ : {A B : Type 0} → Result A → (A → Result B) → Result B
err problem >>= next = err problem
ok value >>= next = next value

abbrev pub ◌>>◌ : {A B : Type 0} → Result A → Result B → Result B
first >> second = first >>= (λ value. second)

-- A bind that succeeds has a first half that succeeds.
pub >>=-eq-ok :
    {A B : Type 0} (first : Result A) (next : A → Result B) {result : B}
    → first >>= next ≡ ok result
    → (value : A) × (first ≡ ok value) × (next value ≡ ok result)
>>=-eq-ok (err problem) next same = cc
>>=-eq-ok (ok value) next same = (value, refl, same)
