-- ===== src/Metrics/Totals.antt =====
-- The total of an answer (`_query_increase`) against its definition on the list of its numbers.
use rbg_planner.Prelude.{
  List, [], ◌∷◌, if◌then◌else◌, ◌≡◌, refl, ap, ◌∙◌, pos, inl, inr, Bool-cases,
}
use mathlib.Core.List.{foldl}
use rbg_planner.Python.{Result, ok, err, Result-cases, on_error}
use rbg_planner.Python.Pure.{◌>>=◌}
use rbg_planner.Python.Float.{Floating}
use rbg_planner.Metrics.{Series, value_text, float_of, total_from, increase_total}

module _ {F : Type 0} ⦃d : Floating F⦄ where
  open d use {of_int, add, eq}

  -- The numbers of an answer in their order, or the exception of the first that is none.
  abbrev pub values_of : List Series → Result (List F)
  values_of [] = ok []
  values_of (r ∷ rs) =
      value_text r >>= λ text. float_of text >>= λ x. values_of rs >>= λ xs. ok (x ∷ xs)

  -- Those that are equal to themselves, which NaN is not.
  abbrev pub proper : List F → List F
  proper [] = []
  proper (x ∷ xs) = let rest = proper xs in if eq x x then x ∷ rest else rest

  extended :
      (acc x : F) (v : Result (List F))
      → (v >>= λ xs. ok (foldl add (if eq x x then add acc x else acc) (proper xs)))
        ≡ ((v >>= λ xs. ok (x ∷ xs)) >>= λ xs. ok (foldl add acc (proper xs)))
  extended acc x (err e) = refl
  extended acc x (ok xs) = elim (Bool-cases (eq x x)) [
    | inl same ↦ rw same refl
    | inr unequal ↦ rw unequal refl
  ]

  total_from-values :
      (acc : F) (rs : List Series)
      → total_from acc rs ≡ (values_of rs >>= λ xs. ok (foldl add acc (proper xs)))
  unfolding total_from
  total_from-values acc [] = refl
  total_from-values acc (r ∷ rs) = elim (Result-cases (value_text r)) [
    | inr (e, failed) ↦ rw failed refl
    | inl (text, found) ↦ elim (Result-cases (float_of {F = F} text)) [
      | inr (e, failed) ↦ rw (found, failed) refl
      | inl (x, parsed) ↦
          rw (found, parsed)
            (total_from-values (if eq x x then add acc x else acc) rs
              ∙ extended acc x (values_of rs))
    ]
  ]

  -- The total of an answer is the sum, from zero on and in their order, of those of its numbers that are
  -- not NaN; it is zero when the query fails, and when any of the answer's values is no number.
  pub increase_total-values :
      (answer : Result (List Series))
      → increase_total {F = F} answer
        ≡ on_error
            (of_int (pos 0))
            (answer >>= λ rs. values_of rs >>= λ xs. ok (foldl add (of_int (pos 0)) (proper xs)))
  unfolding increase_total
  increase_total-values (err e) = refl
  increase_total-values (ok rs) =
      ap (on_error (of_int (pos 0))) (total_from-values (of_int (pos 0)) rs)
