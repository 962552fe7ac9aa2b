-- ===== src/Dashboard/Forecast.antt =====
-- SenSa/dashboard/views.py: `AIForecastView`, with SenSa/alerts/services/arima_forecast.py. The
-- library's ARIMA, `statistics` and the language's `sum` are parameters. A value of 0 or more that
-- `int` reads is a number of the request; the measurement of the time is left out.
pub mod Horizon
use mathlib.Core.List.{reverse}
use sen_sa.Prelude.{
  ℕ, ◌+◌, ◌*◌, Bool, false, not, ◌&&◌, ◌||◌, Option, none, some, List, [], ◌∷◌, map, String, ltb,
  length, take, if◌then◌else◌,
}
use sen_sa.Prelude.Float.{FloatOps}
use sen_sa.Prelude.Text.{str_eq}
use sen_sa.Geofence.Hull.{range}

-- `horizon` of the request: missing, nothing that `int` reads, below 0, or a number.
pub data RawHorizon : Type 0 where
  missing unreadable negative : RawHorizon
  number : (n : ℕ) → RawHorizon

pub record Threshold (F : Type 0) : Type 0 where
  pub caution : Option F
  pub danger : Option F
  pub unit : String

pub data Algorithm : Type 0 where
  arima linear linear_only : Algorithm

pub data RiskMessage (F : Type 0) : Type 0 where
  normal oxygen danger caution surge rising : RiskMessage F
  within_minutes about_minutes : (n : ℕ) → RiskMessage F
  within_hours : (h : F) → RiskMessage F

pub record Forecast (F : Type 0) : Type 0 where
  pub horizon : ℕ
  pub current : F
  pub predicted : List F
  pub slope : F
  pub message : RiskMessage F
  pub threshold_ticks : Option ℕ
  pub is_anomaly : Bool
  pub algorithm : Algorithm

pub data Answer (F : Type 0) : Type 0 where
  incomplete unknown_metric no_device : Answer F
  too_few : (horizon : ℕ) (values : List F) → Answer F
  forecast : (f : Forecast F) → Answer F

-- `max(10, min(horizon, 200))`
unfoldable pub clamp : ℕ → ℕ
clamp n = let low : ℕ = if ltb 200 n then 200 else n in if ltb low 10 then 10 else low

unfoldable pub horizon_of : RawHorizon → ℕ
horizon_of missing = clamp 60
horizon_of unreadable = clamp 60
horizon_of negative = clamp 0
horizon_of (number n) = clamp n

pub record Statistics (F : Type 0) : Type 0 where
  pub sum : List F → F
  pub mean : List F → F
  pub stdev : List F → F
  pub is_available : Bool
  pub arima_fit : List F → (horizon : ℕ) → Option (List F)

abbrev pub zip_with : {A B C : Type 0} → (A → B → C) → List A → List B → List C
zip_with f [] ys = []
zip_with f (x ∷ xs) [] = []
zip_with f (x ∷ xs) (y ∷ ys) = f x y ∷ zip_with f xs ys

module _ (fl : FloatOps) (lib : Statistics fl.Float) where
  open fl use {Float, flt, fle, fadd, fsub, fmul, fdiv, fabs, fround, fint, lit}

  unfoldable pub thresholds : String → Option (Threshold Float)
  thresholds metric =
      if str_eq metric "co"
      then some (record { caution = some (lit 25 1); danger = some (lit 200 1); unit = "ppm" })
      else if str_eq metric "h2s"
      then some (record { caution = some (lit 10 1); danger = some (lit 50 1); unit = "ppm" })
      else if str_eq metric "co2"
      then some (record { caution = some (lit 1000 1); danger = some (lit 5000 1); unit = "ppm" })
      else if str_eq metric "no2"
      then some (record { caution = some (lit 3 1); danger = some (lit 5 1); unit = "ppm" })
      else if str_eq metric "so2"
      then some (record { caution = some (lit 2 1); danger = some (lit 5 1); unit = "ppm" })
      else if str_eq metric "o3"
      then some (record { caution = some (lit 5 100); danger = some (lit 1 10); unit = "ppm" })
      else if str_eq metric "nh3"
      then some (record { caution = some (lit 25 1); danger = some (lit 50 1); unit = "ppm" })
      else if str_eq metric "voc"
      then some (record { caution = some (lit 5 10); danger = some (lit 2 1); unit = "ppm" })
      else if str_eq metric "o2"
      then some (record { caution = none; danger = none; unit = "%" })
      else if str_eq metric "current"
      then some (record { caution = some (lit 15 1); danger = some (lit 25 1); unit = "A" })
      else if str_eq metric "voltage"
      then some (record { caution = some (lit 240 1); danger = some (lit 250 1); unit = "V" })
      else if str_eq metric "watt"
      then some (record { caution = some (lit 5000 1); danger = some (lit 8000 1); unit = "W" })
      else if str_eq metric "temp"
      then some (record { caution = some (lit 80 1); danger = some (lit 120 1); unit = "°C" })
      else none

  abbrev pub sum_ℕ : List ℕ → ℕ
  sum_ℕ [] = 0
  sum_ℕ (n ∷ ns) = n + sum_ℕ ns

  -- The slope of the least squares line.
  unfoldable pub calc_slope : List Float → Float
  calc_slope values =
      let n : ℕ = length values in
      let mean_x : Float = lit (sum_ℕ (range n)) n in
      let mean_y : Float = fdiv (lib.sum values) (lit n 1) in
      let num : Float =
        lib.sum (zip_with (λ x y. fmul (fsub (lit x 1) mean_x) (fsub y mean_y)) (range n) values) in
      let den : Float =
        lib.sum (map (λ x. fmul (fsub (lit x 1) mean_x) (fsub (lit x 1) mean_x)) (range n)) in
      if ltb n 2 then lit 0 1 else if flt (lit 1 1000000000) den then fdiv num den else lit 0 1

  unfoldable pub arima_forecast : List Float → (horizon : ℕ) → Option (List Float)
  arima_forecast values horizon =
      if not lib.is_available
      then none
      else if ltb (length values) 10
      then none
      else lib.arima_fit values horizon

  unfoldable pub predict :
      List Float → (current slope : Float) → (horizon : ℕ) → List Float × Algorithm
  predict values current slope horizon = elim (arima_forecast values horizon) [
    | some predicted ↦ (map (λ v. fround v 3) predicted, arima)
    | none ↦ (
      map (λ i. fround (fadd current (fmul slope (lit (i + 1) 1))) 3) (range horizon),
      if lib.is_available then linear else linear_only,
    )
  ]

  -- The place, from 1, of the first value at the threshold or above.
  unfoldable pub first_over : Float → (i : ℕ) → List Float → Option ℕ
  first_over limit i [] = none
  first_over limit i (v ∷ rest) =
      let later = first_over limit (i + 1) rest in if fle limit v then some (i + 1) else later

  unfoldable pub ticks_to :
      (limit current slope : Float) → (horizon : ℕ) → List Float × Algorithm → Option ℕ
  ticks_to limit current slope horizon (predicted, arima) = first_over limit 0 predicted
  ticks_to limit current slope horizon (predicted, _) =
      let ticks : Float = fdiv (fsub limit current) slope in
      if flt (lit 0 1) slope && flt (lit 0 1) ticks && fle ticks (lit (horizon * 10) 1)
      then some (fint ticks)
      else none

  unfoldable pub threshold_ticks :
      Threshold Float → (current slope : Float) → (horizon : ℕ) → List Float × Algorithm → Option ℕ
  threshold_ticks th current slope horizon prediction = elim th.caution [
    | none ↦ none
    | some limit ↦
        if flt current limit then ticks_to limit current slope horizon prediction else none
  ]

  -- The z-score of the newest value against the nine before it; the values stand newest first.
  unfoldable pub is_anomaly : List Float → Bool
  is_anomaly [] = false
  is_anomaly (current ∷ before) =
      let window : List Float = reverse (take 9 before) in
      let stdev : Float = lib.stdev window in
      if ltb (length before) 9
      then false
      else if flt (lit 0 1) stdev
      then flt (lit 3 1) (fdiv (fabs (fsub current (lib.mean window))) stdev)
      else false

  unfoldable pub time_message : (ticks : ℕ) → RiskMessage Float
  time_message ticks =
      let mins : Float = lit ticks 60 in
      if flt mins (lit 5 1)
      then within_minutes (fint mins + 1)
      else if flt mins (lit 60 1)
      then about_minutes (fint mins)
      else within_hours (fround (fdiv mins (lit 60 1)) 1)

  abbrev pub at_or_above : Option Float → Float → Bool
  at_or_above none current = false
  at_or_above (some limit) current = fle limit current

  unfoldable pub risk_message :
      (current slope : Float)
      → Threshold Float
      → Option ℕ
      → (anomaly : Bool) (metric : String) → RiskMessage Float
  risk_message current slope th predicted_ticks anomaly metric =
      if str_eq metric "o2"
      then (if flt current (lit 18 1) || flt (lit 215 10) current then oxygen else normal)
      else elim th.caution [
        | none ↦ normal
        | some limit ↦
            if at_or_above th.danger current
            then danger
            else if fle limit current
            then caution
            else if anomaly
            then surge
            else elim predicted_ticks [
              | some ticks ↦ time_message ticks
              | none ↦ if flt (lit 1 10) slope then rising else normal
            ]
      ]

  -- The values of the newest 30 rows, null left out.
  unfoldable pub values : List (Option Float) → List Float
  values [] = []
  values (none ∷ rest) = values rest
  values (some v ∷ rest) = v ∷ values rest

  unfoldable pub forecast_of :
      (horizon : ℕ) (metric : String)
      → Threshold Float
      → (newest : Float) (newest_first : List Float) → Forecast Float
  forecast_of horizon metric th current newest_first =
      let recent : List Float = reverse newest_first in
      let slope : Float = calc_slope recent in
      let prediction = predict recent current slope horizon in
      let ticks : Option ℕ = threshold_ticks th current slope horizon prediction in
      let anomaly : Bool = is_anomaly newest_first in
      record {
        horizon = horizon;
        current = fround current 3;
        predicted = prediction.0;
        slope = fround slope 5;
        message = risk_message current slope th ticks anomaly metric;
        threshold_ticks = ticks;
        is_anomaly = anomaly;
        algorithm = prediction.1;
      }

  abbrev pub answer_for :
      (horizon : ℕ) (metric : String) → Threshold Float → List Float → Answer Float
  answer_for horizon metric th [] = too_few horizon []
  answer_for horizon metric th (current ∷ before) =
      if ltb (length (current ∷ before)) 5
      then too_few horizon (reverse (current ∷ before))
      else forecast (forecast_of horizon metric th current (current ∷ before))

  -- `rows` are the device's values of the metric, newest first; none where there is no such device.
  abbrev pub answer_known :
      (metric : String)
      → RawHorizon
      → Option (List (Option Float))
      → Option (Threshold Float)
      → Answer Float
  answer_known metric raw rows none = unknown_metric
  answer_known metric raw none (some th) = no_device
  answer_known metric raw (some all) (some th) =
      answer_for (horizon_of raw) metric th (values (take 30 all))

  unfoldable pub get :
      (device_id metric : String) → RawHorizon → Option (List (Option Float)) → Answer Float
  get device_id metric raw rows =
      if str_eq device_id "" || str_eq metric ""
      then incomplete
      else answer_known metric raw rows (thresholds metric)
