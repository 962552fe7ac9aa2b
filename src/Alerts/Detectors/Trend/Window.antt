-- ===== src/Alerts/Detectors/Trend/Window.antt =====
-- When the trend of a sensor is a prediction, and when it is an exception.
use mathlib.Core.List.{reverse}
use sen_sa.Prelude.{
  ◌≤◌, ◌<◌, ◌≡◌, refl, ◌⊎◌, inl, inr, ℕ, false, Option, none, some, List, arith, length, ltb, take,
  Bool-cases, Option-cases,
}
use sen_sa.Prelude.Float.{FloatOps}
use sen_sa.Alerts.Detectors.Trend.{
  Forest, PredInfo, SensorStore, append, clean, fit_forest, get_slope, maybe_fit, min_clean_samples,
  min_train_samples, predict_by, predict_from, predict_trend, prediction_window_ticks,
}

module _ (fl : FloatOps) (lib : Forest fl.Float) where
  open fl use {Float, flt, fle, fsub, fdiv, lit}
  open lib use {Model, polyfit_slope, fit, score_samples, int}

  abbrev prediction_ticks : Float
  prediction_ticks = prediction_window_ticks fl lib

  -- The values that a fit after this call would see.
  abbrev cleaned : SensorStore fl lib → List Float
  cleaned ss = clean fl lib (reverse ss.buffer)

  -- Why a call may raise: there is no model and too few clean values for one; or a library raises,
  -- on the clean values, on the value, on the last values of the buffer, or on the ticks.
  abbrev pub HasFailed : (before after : SensorStore fl lib) → (value threshold : Float) → Type 0
  HasFailed before after value threshold =
      (before.model ≡ none) × (length (cleaned before) < min_clean_samples) × (after ≡ before)
      ⊎ (fit (cleaned before) ≡ none) × (after ≡ before)
      ⊎ ((forest : Model) × (after.model ≡ some forest) × (score_samples forest value ≡ none))
      ⊎ (polyfit_slope (reverse (take 30 after.buffer)) ≡ none)
      ⊎ ((slope : Float) × (get_slope fl lib (reverse (take 30 after.buffer)) ≡ some slope)
          × (int (fdiv (fsub threshold value) slope) ≡ none))

  -- The store that the call leaves, and what it returns: an exception only for one of these reasons
  -- and with 70 values or more; a prediction only with a rise to the threshold in 60 ticks at most.
  abbrev pub IsPrediction :
      SensorStore fl lib
      → (value threshold : Float) → SensorStore fl lib × Option (Option (PredInfo Float))
      → Type 0
  IsPrediction ss value threshold (ss', none) =
      (ss'.buffer ≡ (append fl lib ss value).buffer)
      × (min_train_samples ≤ length ss'.buffer)
      × HasFailed (append fl lib ss value) ss' value threshold
  IsPrediction ss value threshold (ss', some none) = ss'.buffer ≡ (append fl lib ss value).buffer
  IsPrediction ss value threshold (ss', some (some info)) =
      (ss'.buffer ≡ (append fl lib ss value).buffer)
      × (min_train_samples ≤ length ss'.buffer)
      × (info.predicted_ticks ≤ 60)

  maybe_fit-buffer :
      (ss ss' : SensorStore fl lib) → maybe_fit fl lib ss ≡ some ss' → ss'.buffer ≡ ss.buffer
  unfolding maybe_fit fit_forest
  maybe_fit-buffer ss ss' h = ground arith

  maybe_fit_raises :
      (ss : SensorStore fl lib) → maybe_fit fl lib ss ≡ none → fit (cleaned ss) ≡ none
  unfolding maybe_fit fit_forest
  maybe_fit_raises ss h = ground arith

  maybe_fit_untrained :
      (ss ss' : SensorStore fl lib)
      → maybe_fit fl lib ss ≡ some ss'
      → ss'.model ≡ none
      → (ss.model ≡ none) × (length (cleaned ss) < min_clean_samples) × (ss' ≡ ss)
  unfolding maybe_fit fit_forest
  maybe_fit_untrained ss ss' h untrained = ground arith

  predict_from_bounded :
      ((a : Float) (n : ℕ) → flt prediction_ticks a ≡ false → int a ≡ some n → n ≤ 60)
      → (score slope value threshold : Float) (info : PredInfo Float)
      → predict_from fl lib score slope value threshold ≡ some (some info)
      → info.predicted_ticks ≤ 60
  unfolding predict_from
  predict_from_bounded whole score slope value threshold info h =
      let ticks = fdiv (fsub threshold value) slope in
      elim (Option-cases (int ticks)) [
        | inl e ↦ ground (arith, h, e)
        | inr (n, e) ↦ ground (arith, h, e, whole ticks n)
      ]

  predict_from_raises :
      (score slope value threshold : Float)
      → predict_from fl lib score slope value threshold ≡ none
      → int (fdiv (fsub threshold value) slope) ≡ none
  unfolding predict_from
  predict_from_raises score slope value threshold h = ground arith

  get_slope_raises :
      (values : List Float) → get_slope fl lib values ≡ none → polyfit_slope values ≡ none
  unfolding get_slope
  get_slope_raises values h = ground arith

  -- Why a fitted model raises.
  predict_by_raises :
      (forest : Model) (buffer : List Float) (value threshold : Float)
      → predict_by fl lib forest buffer value threshold ≡ none
      → (score_samples forest value ≡ none)
        ⊎ (polyfit_slope (reverse (take 30 buffer)) ≡ none)
        ⊎ ((slope : Float) × (get_slope fl lib (reverse (take 30 buffer)) ≡ some slope)
            × (int (fdiv (fsub threshold value) slope) ≡ none))
  unfolding predict_by
  predict_by_raises forest buffer value threshold h =
      elim (Option-cases (score_samples forest value)) [
        | inl e ↦ inl e
        | inr (score, e) ↦ elim (Option-cases (get_slope fl lib (reverse (take 30 buffer)))) [
          | inl f ↦ inr (inl (get_slope_raises (reverse (take 30 buffer)) f))
          | inr (slope, f) ↦ inr (
              inr (
                slope,
                f,
                predict_from_raises score slope value threshold (rw (e, predict_by, f) at h),
              ))
        ]
      ]

  predict_by_bounded :
      ((a : Float) (n : ℕ) → flt prediction_ticks a ≡ false → int a ≡ some n → n ≤ 60)
      → (forest : Model) (buffer : List Float) (value threshold : Float) (info : PredInfo Float)
      → predict_by fl lib forest buffer value threshold ≡ some (some info)
      → info.predicted_ticks ≤ 60
  unfolding predict_by
  predict_by_bounded whole forest buffer value threshold info h =
      elim (Option-cases (score_samples forest value)) [
        | inl e ↦ absurd (ground (arith, h, e))
        | inr (score, e) ↦ elim (Option-cases (get_slope fl lib (reverse (take 30 buffer)))) [
          | inl f ↦ absurd (ground (arith, h, e, f))
          | inr (slope, f) ↦
              predict_from_bounded whole score slope value threshold info
                (rw (e, predict_by, f) at h)
        ]
      ]

  -- The answer of a fitted model.
  predict_by-IsPrediction :
      ((a : Float) (n : ℕ) → flt prediction_ticks a ≡ false → int a ≡ some n → n ≤ 60)
      → (ss ss' : SensorStore fl lib) (value threshold : Float) (forest : Model)
      → ss'.buffer ≡ (append fl lib ss value).buffer
      → min_train_samples ≤ length ss'.buffer
      → ss'.model ≡ some forest
      → (answer : Option (Option (PredInfo Float)))
      → predict_by fl lib forest ss'.buffer value threshold ≡ answer
      → IsPrediction ss value threshold (ss', answer)
  predict_by-IsPrediction whole ss ss' value threshold forest same warm trained none h =
      elim (predict_by_raises forest ss'.buffer value threshold h) [
        | inl e ↦ (same, warm, inr (inr (inl (forest, trained, e))))
        | inr e ↦ (same, warm, inr (inr (inr e)))
      ]
  predict_by-IsPrediction whole ss ss' value threshold forest same warm trained (some none) h = same
  predict_by-IsPrediction whole ss ss' value threshold forest same warm trained (some (some info))
        h =
      (same, warm, predict_by_bounded whole forest ss'.buffer value threshold info h)

  -- With `int` of a number that is not above 60 taken to be at most 60, if it is a number at all, a
  -- prediction names at most 60 ticks and needs a buffer of 70 values or more. With fewer values the
  -- call never raises; with 70 or more it raises only where a library does, or where no model was
  -- fitted before and fewer than 49 values are clean. Whatever it does, the value has entered the
  -- buffer.
  pub predict_trend-IsPrediction :
      ((a : Float) (n : ℕ) → flt prediction_ticks a ≡ false → int a ≡ some n → n ≤ 60)
      → (ss : SensorStore fl lib) (value threshold : Float)
      → IsPrediction ss value threshold (predict_trend fl lib ss value threshold)
  unfolding predict_trend
  predict_trend-IsPrediction whole ss value threshold =
      let ss1 : SensorStore fl lib = append fl lib ss value in
      elim (Bool-cases (ltb (length ss1.buffer) min_train_samples)) [
        | inl cold ↦ rw cold refl
        | inr warm ↦ elim (Option-cases (maybe_fit fl lib ss1)) [
          | inl raised ↦
              rw (warm, raised)
                (refl, ground (arith, warm), inr (inl (maybe_fit_raises ss1 raised, refl)))
          | inr (ss2, fitted) ↦
              let same = maybe_fit-buffer ss1 ss2 fitted in
              let full : min_train_samples ≤ length ss2.buffer = rw same (ground (arith, warm)) in
              elim (Option-cases ss2.model) [
                | inl untrained ↦
                    rw (warm, fitted, untrained)
                      (same, full, inl (maybe_fit_untrained ss1 ss2 fitted untrained))
                | inr (forest, trained) ↦
                    rw (warm, fitted, trained)
                      (predict_by-IsPrediction whole ss ss2 value threshold forest same full trained
                        (predict_by fl lib forest ss2.buffer value threshold) refl)
              ]
        ]
      ]
