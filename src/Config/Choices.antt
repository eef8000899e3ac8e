-- ===== src/Config/Choices.antt =====
-- One option of the command line: what is made of it, and when it is refused.
use rbg_planner.Prelude.{
  String, List, Bool, true, Option, none, some, ◌≡◌, ◌↔◌, refl, ap, inl, inr, Bool-cases,
}
use mathlib.Core.Option
use rbg_planner.Python.{Result, ok, err, err-ne-ok, ok-injective, system_exit}
use rbg_planner.Python.Pure.{◌>>=◌}
use rbg_planner.Config.Options.{or_refused, typed, contains, chosen}

-- What a conversion makes of an option: nothing of none, and of a text what it stands for.
abbrev pub Converts : {A : Type 0} → (String → Option A) → Option String → Option A → Type 0
Converts convert given a = Option.map convert given ≡ Option.map some a

some-injective {ℓ} : {A : Type ℓ} (a b : A) → some a ≡ some b → a ≡ b
some-injective a b e = cc

refused_or : {A : Type 0} (o a : Option A) → or_refused o ≡ ok a → some o ≡ Option.map some a
refused_or none a e = absurd (err-ne-ok e)
refused_or (some v) a e = ap (Option.map some) (ok-injective (some v) a e)

pub typed_iff :
    {A : Type 0} (convert : String → Option A) (given : Option String) (a : Option A)
    → (typed convert given ≡ ok a) ↔ Converts convert given a
unfolding typed
typed_iff {A} convert given a = (to given a, from given a)
  where
    to : (o : Option String) (a : Option A) → typed convert o ≡ ok a → Converts convert o a
    to none a e = ap (Option.map some) (ok-injective none a e)
    to (some text) a e = refused_or (convert text) a e

    from : (o : Option String) (a : Option A) → Converts convert o a → typed convert o ≡ ok a
    from none none h = refl
    from none (some v) h = cc
    from (some text) none h = cc
    from (some text) (some v) h = ap or_refused (some-injective (convert text) (some v) h)

-- An option that is not given, or is among the choices.
abbrev pub is_choice : List String → Option String → Bool
is_choice choices none = true
is_choice choices (some text) = contains choices text

abbrev pub IsAmong : List String → Option String → Option String → Type 0
IsAmong choices given a = (given ≡ a) × (is_choice choices given ≡ true)

pub chosen_iff :
    (choices : List String) (given a : Option String)
    → (chosen choices given ≡ ok a) ↔ IsAmong choices given a
unfolding chosen
chosen_iff choices none a = (λ e. (ok-injective none a e, refl), λ h. ap ok h.0)
chosen_iff choices (some text) a = elim (Bool-cases (contains choices text)) [
  | inl among ↦ rw among (λ e. (ok-injective (some text) a e, refl), λ h. ap ok h.0)
  | inr outside ↦ rw outside (λ e. absurd (err-ne-ok e), λ h. absurd (cc))
]

pub accepted_choice :
    (choices : List String) (given : Option String) {a : Option String}
    → chosen choices given ≡ ok a
    → IsAmong choices given given
accepted_choice choices given {a} e = (refl, ((chosen_iff choices given a).0 e).1)

-- A result, or the exit with the status of a usage error.
abbrev pub OrExits : {A : Type 0} → Result A → Type 0
OrExits (ok a) = Unit {0}
OrExits (err e) = e ≡ system_exit 2

pub bind-OrExits :
    {A B : Type 0} (r : Result A) (f : A → Result B)
    → OrExits r
    → ((a : A) → OrExits (f a))
    → OrExits (r >>= f)
bind-OrExits (ok a) f h k = k a
bind-OrExits (err e) f h k = h

pub typed-OrExits :
    {A : Type 0} (convert : String → Option A) (given : Option String)
    → OrExits (typed convert given)
unfolding typed
typed-OrExits {A} convert none = tt
typed-OrExits {A} convert (some text) = go (convert text)
  where
    go : (o : Option A) → OrExits (or_refused o)
    go none = refl
    go (some a) = tt

pub chosen-OrExits :
    (choices : List String) (given : Option String) → OrExits (chosen choices given)
unfolding chosen
chosen-OrExits choices none = tt
chosen-OrExits choices (some text) = elim (Bool-cases (contains choices text)) [
  | inl among ↦ rw among tt
  | inr outside ↦ rw outside refl
]
