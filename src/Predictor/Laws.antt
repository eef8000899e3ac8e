-- ===== src/Predictor/Laws.antt =====
-- What the predictor classes promise to the planner.
use rbg_planner.Prelude.{
  ℕ, suc, All, le→ltb, and_false, ◌≤◌, ◌<◌, pos, List, [], ◌∷◌, ◌++◌, map, length, ◌≡◌, refl, ap,
  true, false, arith, if◌then◌else◌, Bool-cases, inl, inr, ◌==◌, ltb,
}
use mathlib.Core.List.{foldl, map-append}
use rbg_planner.Python.{Error, ok, err}
use rbg_planner.Python.Float.{Floating}
use rbg_planner.Predictor.{
  Predictor, ArimaPredictor, Forecasters, last_items, clean, append_point, arima_add, arima_predict,
  predict_next, constant_predict, last_value, distinct, first_item, contains, ProphetPredictor,
  prophet_add, prophet_last_value, on_error, prophet_predict,
}
use rbg_planner.Predictor.Window.{
  append_point-last_items, last_items-nil, trim-snoc, last_value-snoc, skip_zeros,
  foldl-append_point,
}

module _ {F : Type 0} ⦃d : Floating F⦄ where
  open d use {of_int, eq}

  -- The buffer is the history seen through the window.
  foldl-arima_add :
      (n min : ℕ) (vs xs : List F)
      → foldl
          (λ p v. arima_add p v)
          (record {
            minimum_data_points = min;
            window_size = pos n;
            data_buffer = last_items (pos n) xs;
          })
          vs
        ≡ record {
          minimum_data_points = min;
          window_size = pos n;
          data_buffer = last_items (pos n) (foldl (λ buffer v. append_point v buffer) xs vs);
        }
  unfolding arima_add
  foldl-arima_add n min [] xs = refl
  foldl-arima_add n min (v ∷ vs) xs =
      rw (append_point-last_items n v xs) (foldl-arima_add n min vs (append_point v xs))

  -- An ARIMA predictor of window `n` that starts empty and is fed any list of observations holds
  -- exactly the slice `[-n:]` of them, NaN read as zero and the leading zeros left out: the last `n`,
  -- and where `n` is zero, all.
  pub arima_add_history :
      (n min : ℕ) (vs : List F)
      → (foldl
          (λ p v. arima_add p v)
          (record { minimum_data_points = min; window_size = pos n; data_buffer = [] })
          vs).data_buffer
        ≡ last_items (pos n) (skip_zeros (map clean vs))
  arima_add_history n min vs = rw (← foldl-append_point vs) (
      ap (λ (p : ArimaPredictor F). p.data_buffer)
        (rw (last_items-nil {A = F} n) at (foldl-arima_add n min vs [])))

  distinct_pos : (xs : List F) → length (distinct xs) ≡ 1 → 0 < length xs
  unfolding distinct
  distinct_pos [] h = absurd (omega arith)
  distinct_pos (x ∷ xs) h = omega arith

  first_item_total : (xs : List F) → 0 < length xs → (r : F) × (first_item xs ≡ ok r)
  first_item_total [] h = absurd (omega arith)
  first_item_total (x ∷ xs) h = (x, refl)

  arima_predict_total :
      (forecasters : Forecasters F) (p : ArimaPredictor F)
      → (r : F) × (arima_predict forecasters p ≡ ok r)
  unfolding arima_predict
  arima_predict_total forecasters p =
      let xs = p.data_buffer in
      elim (Bool-cases (ltb (length xs) p.minimum_data_points)) [
        | inl few ↦ (last_value xs, rw few)
        | inr enough ↦ elim (Bool-cases (length (distinct xs) == 1)) [
          | inl same ↦ rw (enough, same) (first_item_total xs (distinct_pos xs (ground arith)))
          | inr differ ↦ (on_error (last_value xs) (forecasters.auto_arima xs), rw (enough, differ))
        ]
      ]

  -- Asked for a forecast, a predictor of any class gives one: it never raises, also when the
  -- forecasting library does.
  pub predict_next_total :
      (forecasters : Forecasters F) (p : Predictor F)
      → (r : F) × (predict_next forecasters p ≡ ok r)
  unfolding predict_next
  predict_next_total forecasters (Predictor.constant p) = (constant_predict p, refl)
  predict_next_total forecasters (Predictor.arima p) = arima_predict_total forecasters p
  predict_next_total forecasters (Predictor.prophet p) = (prophet_predict forecasters p, refl)

  foldl-distinct_same :
      (x : F) (xs : List F)
      → All (λ y. eq y x ≡ true) xs
      → foldl (λ seen y. if contains y seen then seen else seen ++ (y ∷ [])) (x ∷ []) xs ≡ x ∷ []
  unfolding contains
  foldl-distinct_same x [] h = refl
  foldl-distinct_same x (y ∷ xs) h = rw h.0 (foldl-distinct_same x xs h.1)

  -- Once it holds enough data points, an ARIMA predictor whose observations are all equal forecasts
  -- that value, whatever the forecasting library would say.
  pub arima_predict_steady :
      (forecasters : Forecasters F) (p : ArimaPredictor F) (x : F) (xs : List F)
      → p.data_buffer ≡ x ∷ xs
      → p.minimum_data_points ≤ length p.data_buffer
      → All (λ y. eq y x ≡ true) xs
      → arima_predict forecasters p ≡ ok x
  unfolding arima_predict
  arima_predict_steady forecasters p x xs e enough same =
      rw (e, le→ltb _ _ (rw e at enough)) (rw (foldl-distinct_same x xs same))

  prophet_last_value-prophet_add :
      (p : ProphetPredictor F) (n : ℕ) (v : F)
      → p.window_size ≡ pos (suc n)
      → eq (clean v) (of_int (pos 0)) ≡ false
      → prophet_last_value (prophet_add p v) ≡ clean v
  unfolding prophet_add prophet_last_value
  prophet_last_value-prophet_add p n v w nonzero =
      let row : ℕ × F = (p.curr_step, clean v) in
      let (ys, e) = trim-snoc n p.data_buffer row in
      rw (w, nonzero, and_false (length p.data_buffer == 0))
        (rw e (
          rw (map-append (λ (r : ℕ × F). r.1) ys (row ∷ []))
            (last_value-snoc (map (λ (r : ℕ × F). r.1) ys) (clean v))))

  -- Where fitting prophet always raises, a prophet predictor of window `n + 1` forecasts the
  -- observation that was just made, unless that is zero.
  pub prophet_predict_failed :
      (forecasters : Forecasters F) (p : ProphetPredictor F) (n : ℕ) (v : F)
      → p.window_size ≡ pos (suc n)
      → eq (clean v) (of_int (pos 0)) ≡ false
      → ((rows : List (ℕ × F)) (step : ℕ)
          → (e : Error) × (forecasters.fit_prophet rows step ≡ err e))
      → prophet_predict forecasters (prophet_add p v) ≡ clean v
  unfolding prophet_predict
  prophet_predict_failed forecasters p n v w nonzero fails =
      let q = prophet_add p v in
      elim (Bool-cases (ltb (length q.data_buffer) q.minimum_data_points)) [
        | inl few ↦ rw few (prophet_last_value-prophet_add p n v w nonzero)
        | inr enough ↦
            rw (enough, (fails q.data_buffer q.curr_step).1)
              (prophet_last_value-prophet_add p n v w nonzero)
      ]
