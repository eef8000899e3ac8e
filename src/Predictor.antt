-- ===== src/Predictor.antt =====
-- The load predictors (python/planner/rbg_planner/utils/load_predictor.py). An object is the record
-- of its fields, a subclass is a constructor of `Predictor`. What pmdarima and prophet compute is a
-- parameter, the record `Forecasters`.

pub mod Window
pub mod Laws
use rbg_planner.Prelude.{
  ℕ, suc, ◌+◌, ◌-◌, ℤ, pos, negsuc, Bool, true, false, List, [], ◌∷◌, ◌++◌, Option, none, some,
  if◌then◌else◌, ◌&&◌, ◌||◌, map, ◌==◌, ltb, ltb_ℤ, length, drop, String,
}
use mathlib.Core.List.{get_last?, foldl}
use text.Mathlib.Text.{◌==◌ as str_eq}
use rbg_planner.Python.{Result, ok, err, key_error, index_error, on_error}
use rbg_planner.Python.Float.{Floating}

-- `xs[-n:]`: with `n` zero that is `xs[0:]`, the whole list, and with `n` negative the first `-n`
-- items are cut off.
unfoldable pub last_items {ℓ} : {A : Type ℓ} → ℤ → List A → List A
last_items (pos n) xs = if n == 0 then xs else drop (length xs - n) xs
last_items (negsuc n) xs = drop (suc n) xs

-- `class ARIMAPredictor`, without the fitted model, which only the line after its assignment reads.
pub record ArimaPredictor (F : Type 0) : Type 0 where
  pub minimum_data_points : ℕ
  pub window_size : ℤ
  pub data_buffer : List F

-- `class ConstantPredictor`
pub record ConstantPredictor (F : Type 0) : Type 0 where
  pub minimum_data_points : ℕ
  pub data_buffer : List F

-- `class ProphetPredictor`. A row is its `ds`, in seconds after the start date, and its `y`.
pub record ProphetPredictor (F : Type 0) : Type 0 where
  pub minimum_data_points : ℕ
  pub window_size : ℤ
  pub curr_step : ℕ
  pub data_buffer : List (ℕ × F)

pub data Predictor (F : Type 0) : Type 0 where
  constant : ConstantPredictor F → Predictor F
  arima : ArimaPredictor F → Predictor F
  prophet : ProphetPredictor F → Predictor F

-- `pmdarima.auto_arima(...).predict(n_periods=1)`, and `Prophet().fit(...).predict(...)` at the next
-- time: the forecast, or the exception that is raised on the way.
pub record Forecasters (F : Type 0) : Type 0 where
  pub auto_arima : List F → Result F
  pub fit_prophet : List (ℕ × F) → ℕ → Result F

-- The cut that both windowed predictors make after an append.
unfoldable pub trim {ℓ} : {A : Type ℓ} → ℤ → List A → List A
unfolding last_items
trim window buffer = if ltb_ℤ window (pos (length buffer)) then last_items window buffer else buffer

-- `buffer[0]`
abbrev pub first_item {ℓ} : {A : Type ℓ} → List A → Result A
first_item [] = err index_error
first_item (x ∷ xs) = ok x

module _ {F : Type 0} ⦃d : Floating F⦄ where
  open d use {of_int, eq, is_nan}

  -- The value that `add_data_point` stores for an observation.
  unfoldable pub clean : F → F
  clean value = if is_nan value then of_int (pos 0) else value

  -- `BasePredictor.add_data_point`, on the buffer
  unfoldable pub append_point : F → List F → List F
  unfolding clean
  append_point value buffer =
      let v = clean value in
      if length buffer == 0 && eq v (of_int (pos 0)) then buffer else buffer ++ (v ∷ [])

  -- `BasePredictor.get_last_value`
  unfoldable pub last_value : List F → F
  last_value buffer = elim (get_last? buffer) [ none ↦ of_int (pos 0) | some v ↦ v ]

  -- `x in seen`, by `==`
  unfoldable pub contains : F → List F → Bool
  contains x [] = false
  contains x (y ∷ ys) = eq x y || contains x ys

  -- `set(buffer)`, as the list of its members in the order of their arrival
  unfoldable pub distinct : List F → List F
  unfolding contains
  distinct = foldl (λ seen x. if contains x seen then seen else seen ++ (x ∷ [])) []

  -- The methods of the three classes.
  unfoldable pub constant_add : ConstantPredictor F → F → ConstantPredictor F
  unfolding append_point
  constant_add p value = record p { data_buffer = append_point value p.data_buffer }

  unfoldable pub constant_predict : ConstantPredictor F → F
  unfolding last_value
  constant_predict p = last_value p.data_buffer

  unfoldable pub arima_add : ArimaPredictor F → F → ArimaPredictor F
  unfolding append_point trim
  arima_add p value = record p {
    data_buffer = trim p.window_size (append_point value p.data_buffer);
  }

  unfoldable pub arima_predict : Forecasters F → ArimaPredictor F → Result F
  unfolding last_value distinct
  arima_predict forecasters p =
      let buffer = p.data_buffer in
      if ltb (length buffer) p.minimum_data_points
      then ok (last_value buffer)
      else if length (distinct buffer) == 1
      then first_item buffer
      else ok (on_error (last_value buffer) (forecasters.auto_arima buffer))

  unfoldable pub prophet_add : ProphetPredictor F → F → ProphetPredictor F
  unfolding clean trim
  prophet_add p value =
      let v = clean value in
      if length p.data_buffer == 0 && eq v (of_int (pos 0)) then p else record p {
        data_buffer = trim p.window_size (p.data_buffer ++ ((p.curr_step, v) ∷ []));
        curr_step = p.curr_step + 1;
      }

  unfoldable pub prophet_last_value : ProphetPredictor F → F
  unfolding last_value
  prophet_last_value p = last_value (map (λ row. row.1) p.data_buffer)

  unfoldable pub prophet_predict : Forecasters F → ProphetPredictor F → F
  unfolding prophet_last_value
  prophet_predict forecasters p =
      if ltb (length p.data_buffer) p.minimum_data_points
      then prophet_last_value p
      else on_error (prophet_last_value p) (forecasters.fit_prophet p.data_buffer p.curr_step)

  -- The calls as the planner makes them, on a predictor of any class.
  unfoldable pub add_data_point : Predictor F → F → Predictor F
  unfolding constant_add arima_add prophet_add
  add_data_point (Predictor.constant p) value = Predictor.constant (constant_add p value)
  add_data_point (Predictor.arima p) value = Predictor.arima (arima_add p value)
  add_data_point (Predictor.prophet p) value = Predictor.prophet (prophet_add p value)

  unfoldable pub predict_next : Forecasters F → Predictor F → Result F
  unfolding constant_predict arima_predict prophet_predict
  predict_next forecasters (Predictor.constant p) = ok (constant_predict p)
  predict_next forecasters (Predictor.arima p) = arima_predict forecasters p
  predict_next forecasters (Predictor.prophet p) = ok (prophet_predict forecasters p)

-- `LOAD_PREDICTORS[name](window_size=window_size)`
unfoldable pub create_predictor : {F : Type 0} → String → ℤ → Result (Predictor F)
create_predictor name window_size =
    if str_eq name "constant"
    then ok (Predictor.constant (record { minimum_data_points = 1; data_buffer = [] }))
    else if str_eq name "arima"
    then ok (
        Predictor.arima
          (record { minimum_data_points = 5; window_size = window_size; data_buffer = [] }))
    else if str_eq name "prophet"
    then ok (
        Predictor.prophet (record {
          minimum_data_points = 5;
          window_size = window_size;
          curr_step = 0;
          data_buffer = [];
        }))
    else err key_error
