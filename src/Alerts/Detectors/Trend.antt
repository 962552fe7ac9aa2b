-- ===== src/Alerts/Detectors/Trend.antt =====
-- SenSa/alerts/services/trend_predictor.py: an isolation forest and the slope of the last values
-- say when a threshold will be passed. A buffer stands newest first.
pub mod Window
use mathlib.Core.List.{reverse}
use sen_sa.Prelude.{
  ℕ, suc, ◌-◌, Bool, true, false, ◌&&◌, ◌||◌, Option, none, some, List, [], ◌∷◌, map, String, ltb,
  leb, length, select, take, if◌then◌else◌,
}
use sen_sa.Prelude.Float.{FloatOps}
use sen_sa.Prelude.Text.{str_eq}

abbrev pub min_train_samples : ℕ
min_train_samples = 70

abbrev pub window_size : ℕ
window_size = 200

abbrev pub refit_every_n : ℕ
refit_every_n = 20

-- `int(MIN_TRAIN_SAMPLES * 0.7)`
abbrev pub min_clean_samples : ℕ
min_clean_samples = 49

-- The libraries: numpy's median and straight line, scikit-learn's isolation forest, and Python's
-- `int`. `none` is an exception, as of a NaN.
pub record Forest (F : Type 0) : Type 1 where
  pub Model : Type 0
  pub median : List F → F
  pub polyfit_slope : List F → Option F
  pub fit : List F → Option Model
  pub score_samples : Model → F → Option F
  pub int : F → Option ℕ

pub record PredInfo (F : Type 0) : Type 0 where
  pub predicted_ticks : ℕ
  pub predicted_value : F
  pub if_score : F
  pub slope : F

-- `RESULT_CHOICES`
pub data Result : Type 0 where
  pending success failure : Result

-- A row of `AIPrediction`; `alarm` is the foreign key.
pub record AiPrediction (F : Type 0) : Type 0 where
  pub device_id : String
  pub sensor_key : String
  pub sensor_type : String
  pub value_at_predict : F
  pub threshold : F
  pub info : PredInfo F
  pub result : Result
  pub expires_at : ℕ
  pub created_at : ℕ
  pub alarm : ℕ

abbrev pub is_pending : Result → Bool
is_pending pending = true
is_pending _ = false

module _ (fl : FloatOps) (lib : Forest fl.Float) where
  open fl use {Float, flt, fle, fadd, fsub, fmul, fdiv, fabs, fround, lit}
  open lib use {Model, median, polyfit_slope, fit, score_samples, int}

  pub record SensorStore : Type 0 where
    pub buffer : List Float
    pub model : Option Model
    pub tick : ℕ
    pub last_fit_tick : ℕ

  -- `IF_SCORE_THRESHOLD` and `SLOPE_THRESHOLD`
  abbrev pub if_score_threshold : Float
  if_score_threshold = fsub (lit 0 1) (lit 3 10)

  abbrev pub slope_threshold : Float
  slope_threshold = lit 5 10

  abbrev pub prediction_window_ticks : Float
  prediction_window_ticks = lit 60 1

  -- The values whose modified z-score is below 3.5, all of them where they hardly vary.
  unfoldable pub clean : List Float → List Float
  clean data_raw =
      let mid : Float = median data_raw in
      let mad : Float = median (map (λ v. fabs (fsub v mid)) data_raw) in
      if flt (lit 1 1000000) mad
      then select (λ v. flt (fabs (fdiv (fmul (lit 6745 10000) (fsub v mid)) mad)) (lit 35 10))
          data_raw
      else data_raw

  -- With too few clean values the model stays as it was.
  unfoldable pub fit_forest : SensorStore → Option SensorStore
  fit_forest ss =
      let values : List Float = clean (reverse ss.buffer) in
      if ltb (length values) min_clean_samples then some ss else elim (fit values) [
        | none ↦ none
        | some fitted ↦ some (record ss { model = some fitted; last_fit_tick = ss.tick })
      ]

  unfoldable pub get_slope : List Float → Option Float
  get_slope values = if ltb (length values) 2 then some (lit 0 1) else polyfit_slope values

  abbrev pub is_due : SensorStore → Bool
  is_due ss = elim ss.model [
    | none ↦ true
    | some _ ↦ leb refit_every_n (ss.tick - ss.last_fit_tick)
  ]

  unfoldable pub maybe_fit : SensorStore → Option SensorStore
  maybe_fit ss = if is_due ss then fit_forest ss else some ss

  -- The outer `none` is an exception of `int`.
  unfoldable pub predict_from :
      (score slope value threshold : Float) → Option (Option (PredInfo Float))
  predict_from score slope value threshold =
      let ticks : Float = fdiv (fsub threshold value) slope in
      if flt if_score_threshold score || flt slope slope_threshold
      then some none
      else if fle slope (lit 0 1)
      then some none
      else if fle ticks (lit 0 1) || flt prediction_window_ticks ticks
      then some none
      else elim (int ticks) [
        | none ↦ none
        | some n ↦ some (
            some (record {
              predicted_ticks = n;
              predicted_value = fround (fadd value (fmul slope ticks)) 3;
              if_score = fround score 4;
              slope = fround slope 5;
            }))
      ]

  abbrev pub append : SensorStore → Float → SensorStore
  append ss value = record ss { buffer = take window_size (value ∷ ss.buffer); tick = suc ss.tick }

  -- What a fitted model makes of the value.
  unfoldable pub predict_by :
      Model → (buffer : List Float) → (value threshold : Float) → Option (Option (PredInfo Float))
  predict_by forest buffer value threshold = elim (score_samples forest value) [
    | none ↦ none
    | some score ↦ elim (get_slope (reverse (take 30 buffer))) [
      | none ↦ none
      | some slope ↦ predict_from score slope value threshold
    ]
  ]

  -- The outer `none` is an exception: that of a library, or the AttributeError of
  -- `ss.model.score_samples` where there is no model.
  unfoldable pub predict_trend :
      SensorStore → (value threshold : Float) → SensorStore × Option (Option (PredInfo Float))
  predict_trend ss value threshold =
      let ss1 : SensorStore = append ss value in
      if ltb (length ss1.buffer) min_train_samples then (ss1, some none) else elim (maybe_fit ss1) [
        | none ↦ (ss1, none)
        | some ss2 ↦ elim ss2.model [
          | none ↦ (ss2, none)
          | some forest ↦ (ss2, predict_by forest ss2.buffer value threshold)
        ]
      ]

  -- A prediction of the sensor and key that is pending and whose time has come.
  abbrev pub is_over : (now : ℕ) (device_id sensor_key : String) → AiPrediction Float → Bool
  is_over now device_id sensor_key pred =
      str_eq pred.device_id device_id
      && str_eq pred.sensor_key sensor_key
      && is_pending pred.result
      && leb pred.expires_at now

  abbrev pub result_of : (value threshold : Float) → Result
  result_of value threshold = if fle threshold value then success else failure

  unfoldable pub verify_predictions :
      List (AiPrediction Float)
      → (now : ℕ) (device_id sensor_key : String) (value threshold : Float)
      → List (AiPrediction Float)
  verify_predictions [] now device_id sensor_key value threshold = []
  verify_predictions (pred ∷ rest) now device_id sensor_key value threshold =
      let later = verify_predictions rest now device_id sensor_key value threshold in
      if is_over now device_id sensor_key pred
      then record pred { result = result_of value threshold } ∷ later
      else pred ∷ later
