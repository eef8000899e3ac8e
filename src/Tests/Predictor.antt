-- ===== src/Tests/Predictor.antt =====
-- The load predictors on small histories, and the theorems on them.
use rbg_planner.Prelude.{pos, List, [], ◌∷◌, map, ◌≡◌, refl, arith, false}
use mathlib.Core.List.{foldl}
use rbg_planner.Python.{ok, other_exception}
use rbg_planner.Predictor.{
  Predictor, ArimaPredictor, ProphetPredictor, last_items, clean, arima_add, arima_predict,
  prophet_add, prophet_predict, predict_next,
}
use rbg_planner.Predictor.Window.{skip_zeros}
use rbg_planner.Predictor.Laws.{
  arima_add_history, predict_next_total, arima_predict_steady, prophet_predict_failed,
}
use rbg_planner.Tests.Fixed.{Fixed, num, not_a_number, fixed_Floating}
use rbg_planner.Tests.Profile.{small_forecasters}

-- A full window of three, and five equal observations in a window of nine.
abbrev full : ArimaPredictor Fixed
full = record {
  minimum_data_points = 5;
  window_size = pos 3;
  data_buffer = num 1 ∷ num 2 ∷ num 3 ∷ [];
}

abbrev steady : ArimaPredictor Fixed
steady = record {
  minimum_data_points = 5;
  window_size = pos 9;
  data_buffer = num 7 ∷ num 7 ∷ num 7 ∷ num 7 ∷ num 7 ∷ [];
}

abbrev rows : ProphetPredictor Fixed
rows = record {
  minimum_data_points = 2;
  window_size = pos 3;
  curr_step = 1;
  data_buffer = (0, num 1) ∷ [];
}

-- Zeros first, and NaN within.
abbrev history : List Fixed
history = num 0 ∷ not_a_number ∷ num 4 ∷ not_a_number ∷ num 5 ∷ num 6 ∷ []

arima_add_history_example :
    (foldl
      (λ p v. arima_add p v)
      (record { minimum_data_points = 5; window_size = pos 3; data_buffer = [] })
      history).data_buffer
    ≡ last_items (pos 3) (skip_zeros (map clean history))
arima_add_history_example = arima_add_history 3 5 history

predict_next_total_example :
    (r : Fixed) × (predict_next small_forecasters (Predictor.arima steady) ≡ ok r)
predict_next_total_example = predict_next_total small_forecasters (Predictor.arima steady)

arima_predict_steady_example : arima_predict small_forecasters steady ≡ ok (num 7)
arima_predict_steady_example =
    arima_predict_steady small_forecasters steady (num 7) (num 7 ∷ num 7 ∷ num 7 ∷ num 7 ∷ []) refl
      (omega arith) (refl, (refl, (refl, (refl, tt))))

nonzero : fixed_Floating.eq (clean (num 4)) (num 0) ≡ false
unfolding clean
nonzero = refl

prophet_predict_failed_example :
    prophet_predict small_forecasters (prophet_add rows (num 4)) ≡ clean (num 4)
prophet_predict_failed_example =
    prophet_predict_failed small_forecasters rows 2 (num 4) refl nonzero
      (λ r step. (other_exception, refl))
