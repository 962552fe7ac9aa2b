-- ===== src/Alerts/Detectors/Examples.antt =====
-- The detectors on a first reading.
use sen_sa.Prelude.{ℕ, ◌≡◌, false, ltb, none, some, [], arith, ◌≤◌}
use sen_sa.Prelude.Sample.{naturals}
use sen_sa.Alerts.Detectors.Arima.{Forecaster, detect_anomaly, empty_store}
use sen_sa.Alerts.Detectors.Arima.Reach.{IsWellFormed, IsReachable-IsWellFormed, reading, start}
use sen_sa.Alerts.Detectors.Trend.{Forest, SensorStore, predict_trend}
use sen_sa.Alerts.Detectors.Trend.Window.{IsPrediction, predict_trend-IsPrediction}

abbrev flat : Forecaster ℕ
flat = record { Model = ℕ; fit = λ values. some (1, 2); forecast = λ model. some model }

ltb_irreflexive : (a : ℕ) → ltb a a ≡ false
ltb_irreflexive a = ground arith

IsReachable-IsWellFormed_example :
    IsWellFormed naturals flat
      (detect_anomaly naturals flat (empty_store naturals flat) 1000000 25).0
IsReachable-IsWellFormed_example =
    IsReachable-IsWellFormed naturals flat ltb_irreflexive
      (detect_anomaly naturals flat (empty_store naturals flat) 1000000 25).0
      (reading 1000000 25 start)

abbrev calm_forest : Forest ℕ
calm_forest = record {
  Model = ℕ;
  median = λ values. 0;
  polyfit_slope = λ values. some 2;
  fit = λ values. some 0;
  score_samples = λ model value. some 0;
  int = λ a. some a;
}

abbrev new_store : SensorStore naturals calm_forest
new_store = record { buffer = []; model = none; tick = 0; last_fit_tick = 0 }

some_le : (a n : ℕ) → ltb 60 a ≡ false → some a ≡ some n → n ≤ 60
some_le a n h e = ground arith

predict_trend-IsPrediction_example :
    IsPrediction naturals calm_forest new_store 20 25
      (predict_trend naturals calm_forest new_store 20 25)
predict_trend-IsPrediction_example =
    predict_trend-IsPrediction naturals calm_forest some_le new_store 20 25
