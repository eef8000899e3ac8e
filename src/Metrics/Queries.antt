-- ===== src/Metrics/Queries.antt =====
-- What the adapters make of the answers of the Prometheus server.
use rbg_planner.Prelude.{List, [], ◌∷◌, All, ◌≡◌, refl, pos}
use rbg_planner.Python.{Result, ok, err}
use rbg_planner.Python.Float.{Floating}
use rbg_planner.Metrics.{Series, value_text, numbers_of, average, avg_of}

-- A series whose value is the text that Prometheus writes for "no number".
abbrev pub IsNan : Series → Type 0
IsNan r = value_text r ≡ ok "NaN"

-- An answer without a number in it, or none at all.
abbrev pub HasNoData : Result (List Series) → Type 0
HasNoData (ok rs) = All IsNan rs
HasNoData (err e) = Unit {0}

module _ {F : Type 0} ⦃d : Floating F⦄ where
  open d use {of_int, add, eq}

  numbers_of-none : (rs : List Series) → All IsNan rs → numbers_of {F = F} rs ≡ ok []
  unfolding numbers_of
  numbers_of-none [] h = refl
  numbers_of-none (r ∷ rs) (e, h) = rw e (numbers_of-none rs h)

  -- An average is zero when the query fails, and when the answer is empty or holds NaN series only.
  pub avg_of-no_data :
      (answer : Result (List Series)) → HasNoData answer → avg_of {F = F} answer ≡ of_int (pos 0)
  unfolding avg_of average
  avg_of-no_data (err e) h = refl
  avg_of-no_data (ok rs) h = rw (numbers_of-none rs h)
