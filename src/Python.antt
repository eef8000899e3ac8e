-- ===== src/Python.antt =====
-- What the planner uses of Python itself: the exceptions that its modules raise
-- (python/planner/rbg_planner/utils/exceptions.py and the built-in ones), and a method call, which
-- takes the object's state and returns its result with the state that is left.
use rbg_planner.Prelude.{ℕ, ℤ, Bool, Option, none, some, String, ◌≡◌, refl, ap, ◌⊎◌, inl, inr}
pub mod Pure
pub mod Float
pub mod Text
pub mod Division
pub mod Invariant
pub mod Returns
pub mod Returned

-- `system_exit` is `sys.exit` with its status, `api_exception` is `client.ApiException` with its
-- status, and `other_exception` is any other exception that a library raises.
pub data Error : Type 0 where
  rbg_not_found : String → String → Error
  role_not_found : String → String → Error
  deployment_not_ready : String → Error
  empty_target_replicas : Error
  profiling_data_not_found : String → Error
  zero_division value_error overflow_error key_error index_error type_error : Error
  file_not_found json_decode_error config_exception : Error
  system_exit : ℕ → Error
  api_exception : ℕ → Error
  other_exception : Error

pub data Result {ℓ} (A : Type ℓ) : Type ℓ where
  ok : A → Result A
  err : Error → Result A

pub Result-cases {ℓ} :
    {A : Type ℓ} (r : Result A) → ((a : A) × (r ≡ ok a)) ⊎ ((e : Error) × (r ≡ err e))
Result-cases (ok a) = inl (a, refl)
Result-cases (err e) = inr (e, refl)

pub ok-injective {ℓ} : {A : Type ℓ} (a b : A) → ok a ≡ ok b → a ≡ b
ok-injective a b e = cc

pub err-ne-ok {ℓ} : {A : Type ℓ} {a : A} {e : Error} → err e ≡ ok a → ⊥
err-ne-ok e = cc

-- `except Exception: return default`
abbrev pub on_error {ℓ} : {A : Type ℓ} → A → Result A → A
on_error d (ok a) = a
on_error d (err e) = d

-- A method on an object of state `S`. The state comes back after a raise too, since what was
-- written stays written.
abbrev pub Method : Type 0 → Type 0 → Type 0
Method S A = S → Result A × S

module _ {S : Type 0} where
  abbrev pub pure : {A : Type 0} → A → Method S A
  pure a s = (ok a, s)

  abbrev pub raise : {A : Type 0} → Error → Method S A
  raise e s = (err e, s)

  -- A call that reads and writes nothing of the object.
  abbrev pub lift : {A : Type 0} → Result A → Method S A
  lift r s = (r, s)

  abbrev pub get : Method S S
  get s = (ok s, s)

  abbrev pub modify : (S → S) → Method S (Unit {0})
  modify f s = (ok tt, f s)

  infixl 5 ◌>>=◌ ◌>>◌
  abbrev pub ◌>>=◌ : {A B : Type 0} → Method S A → (A → Method S B) → Method S B
  ◌>>=◌ m f s = let (r, s') = m s in elim r [ ok a ↦ f a s' | err e ↦ (err e, s') ]

  abbrev pub ◌>>◌ : {A B : Type 0} → Method S A → Method S B → Method S B
  m >> k = m >>= λ _. k

  -- A call whose first half ends so goes on, or stops, so.
  pub >>=-ok :
      {A B : Type 0} (m : Method S A) (f : A → Method S B) (s : S) {a : A} {s' : S}
      → m s ≡ (ok a, s')
      → (m >>= f) s ≡ f a s'
  >>=-ok {A} {B} m f s e = ap (λ x. ◌>>=◌ {A = A} {B = B} (λ _. x) f s) e

  pub >>=-err :
      {A B : Type 0} (m : Method S A) (f : A → Method S B) (s : S) {x : Error} {s' : S}
      → m s ≡ (err x, s')
      → (m >>= f) s ≡ (err x, s')
  >>=-err {A} {B} m f s e = ap (λ x. ◌>>=◌ {A = A} {B = B} (λ _. x) f s) e
