-- ===== src/Planner/Paced.antt =====
-- The rounds of the planner's loop as a relation, and the times between its adjustments.
use rbg_planner.Prelude.{
  ℕ, zero, suc, ℤ, List, [], ◌∷◌, true, false, ◌≡◌, inl, inr, Bool-cases, refl, sym, ap,
}
use mathlib.Core.Path.{subst}
use rbg_planner.Python.{Result, Result-cases, >>=-ok, >>=-err}
use rbg_planner.Python.Float.{Floating}
use rbg_planner.Planner.{Planner, Externals}
use rbg_planner.Planner.Run.{is_due, rest, round, rounds}
use rbg_planner.Planner.Marked.{
  IsMarked, moved, round_time, marked_time, round-waited, round-IsMarked,
}

module _ {F W : Type 0} ⦃d : Floating F⦄ (env : Externals F W) where
  -- The rounds from one planner to another, with the times at which adjustments were found due and were
  -- marked. A round that waits changes the world only.
  pub data Paced : Planner F W → List (F × F) → Planner F W → Type 0 where
    stops : {s : Planner F W} → Paced s [] s
    waits :
        {s u : Planner F W} {times : List (F × F)} (w : W)
        → is_due env (round_time env s) s ≡ false
        → (round env s).1 ≡ moved env s w
        → Paced (round env s).1 times u
        → Paced s times u
    adjusts :
        {s u : Planner F W} {times : List (F × F)}
        → is_due env (round_time env s) s ≡ true
        → Paced (round env s).1 times u
        → Paced s ((round_time env s, marked_time env s) ∷ times) u

  -- Each adjustment was found due no less than an interval after the one before it was marked.
  abbrev pub Spaced : ℤ → F → List (F × F) → Type 0
  Spaced interval last [] = Unit {0}
  Spaced interval last ((found, marked) ∷ times) =
      (d.le (d.of_int interval) (d.sub found last) ≡ true) × Spaced interval marked times

  -- The rounds that are done by `n`, from a planner with this interval and mark.
  abbrev Reaches : ℤ → F → Planner F W → Planner F W → Type 0
  Reaches interval last s u = (times : List (F × F)) × Paced s times u × Spaced interval last times

  round-Reaches :
      (s u : Planner F W)
      → ((interval : ℤ) (last : F)
          → IsMarked env interval last (round env s).1
          → Reaches interval last (round env s).1 u)
      → Reaches s.config.adjustment_interval s.last_adjustment_time s u
  unfolding is_due
  round-Reaches s u rest = elim (Bool-cases (is_due env (round_time env s) s)) [
    | inr early ↦
        let (w, same) = round-waited env s early in
        let (times, paced, spaced) = rest s.config.adjustment_interval s.last_adjustment_time (
          subst (IsMarked env s.config.adjustment_interval s.last_adjustment_time) (sym same)
            (refl, refl)) in
        (times, Paced.waits w early same paced, spaced)
    | inl due ↦
        let (times, paced, spaced) =
          rest s.config.adjustment_interval (marked_time env s) (round-IsMarked env s due) in
        ((round_time env s, marked_time env s) ∷ times, Paced.adjusts due paced, (due, spaced))
  ]

  rounds-Reaches :
      (n : ℕ) (s : Planner F W) (interval : ℤ) (last : F)
      → IsMarked env interval last s
      → Reaches interval last s (rounds env n s).1
  unfolding rounds
  rounds-Reaches zero s interval last at = ([], Paced.stops, tt)
  rounds-Reaches (suc n) s interval last (same, marked) =
      subst (λ i. Reaches i last s (rounds env (suc n) s).1) same
        (subst (λ t. Reaches s.config.adjustment_interval t s (rounds env (suc n) s).1) marked
          (elim (Result-cases (round env s).0) [
            | inl (done, returned) ↦
                subst (Reaches s.config.adjustment_interval s.last_adjustment_time s)
                  (sym (
                    ap (λ (x : Result (Unit {0}) × Planner F W). x.1)
                      (>>=-ok (round env) (λ _. rounds env n) s
                        (ap (λ r. (r, (round env s).1)) returned))))
                  (round-Reaches s (rounds env n (round env s).1).1
                    (rounds-Reaches n (round env s).1))
            | inr (e, raised) ↦
                subst (Reaches s.config.adjustment_interval s.last_adjustment_time s)
                  (sym (
                    ap (λ (x : Result (Unit {0}) × Planner F W). x.1)
                      (>>=-err (round env) (λ _. rounds env n) s
                        (ap (λ r. (r, (round env s).1)) raised))))
                  (round-Reaches s (round env s).1 (λ interval last at. ([], Paced.stops, tt)))
          ]))

  -- Any number of rounds of the loop, also when they end in an exception, waits and adjusts: a round
  -- that waits leaves all but the world as it was, and each adjustment was found due when no less than
  -- the interval had passed since the one before it, or since the mark that the rounds began with.
  pub rounds-Spaced :
      (n : ℕ) (s : Planner F W)
      → (times : List (F × F)) × Paced s times (rounds env n s).1
        × Spaced s.config.adjustment_interval s.last_adjustment_time times
  rounds-Spaced n s =
      rounds-Reaches n s s.config.adjustment_interval s.last_adjustment_time (refl, refl)
