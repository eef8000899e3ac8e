-- ===== src/Tests/Metrics.antt =====
-- Answers of a Prometheus server, and the theorems on them.
use rbg_planner.Prelude.{String, List, [], ◌∷◌, ◌++◌, none, some, ◌+ℤ◌, ◌≡◌, refl}
use mathlib.Core.List.{foldl}
use rbg_planner.Python.{ok, on_error}
use rbg_planner.Python.Pure.{◌>>=◌}
use rbg_planner.Metrics.{Series, sglang, avg_of, increase_total, avg_query}
use rbg_planner.Metrics.Totals.{values_of, proper, increase_total-values}
use rbg_planner.Tests.Fixed.{Fixed, num, fixed_Floating}

abbrev series : String → Series
series text = record { value = some ("1700000000" ∷ text ∷ []) }

abbrev ones : List Series
ones = series "1" ∷ []

abbrev threes : List Series
threes = series "3" ∷ []

-- The query of the mean TTFT of one model.
avg_query_text :
    avg_query sglang "sglang_time_to_first_token_seconds" "180s" (some "qwen") none
    ≡ "increase(sglang_time_to_first_token_seconds_sum{model_name=\"qwen\"}[180s])/increase(sglang_time_to_first_token_seconds_count{model_name=\"qwen\"}[180s])"
unfolding avg_query
avg_query_text = refl

average_of_two : avg_of (ok (ones ++ threes)) ≡ num 2
unfolding avg_of ◌+ℤ◌
average_of_two = refl

increase_total-values_example :
    increase_total {F = Fixed} (ok (ones ++ (series "NaN" ∷ threes)))
    ≡ on_error (num 0) (
        ok (ones ++ (series "NaN" ∷ threes)) >>= λ rs.
        values_of rs >>= λ xs. ok (foldl fixed_Floating.add (num 0) (proper xs)))
increase_total-values_example = increase_total-values (ok (ones ++ (series "NaN" ∷ threes)))

total_of_two : increase_total (ok (ones ++ (series "NaN" ∷ threes))) ≡ num 4
unfolding increase_total ◌+ℤ◌
total_of_two = refl
