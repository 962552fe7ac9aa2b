-- ===== src/Dashboard/Forecast/Horizon.antt =====
-- How far a forecast reaches.
use mathlib.Core.List.{reverse}
use sen_sa.Prelude.{
  ℕ, zero, suc, ◌+◌, ◌*◌, ◌≤◌, ◌≡◌, refl, ◌∙◌, ap, true, Option, none, some, List, [], ◌∷◌, map,
  String, arith, length, ltb, take, ◌||◌, Bool-cases, Option-cases, inl, inr, if_ind,
}
use sen_sa.Prelude.Text.{str_eq}
use sen_sa.Prelude.Float.{FloatOps}
use sen_sa.Geofence.Hull.{range, range_from}
use sen_sa.Dashboard.Forecast.{
  Algorithm, Answer, RawHorizon, Statistics, Threshold, answer_for, answer_known, calc_slope, arima,
  arima_forecast, clamp, first_over, forecast_of, get, horizon_of, linear, linear_only, predict,
  threshold_ticks, thresholds, ticks_to, values,
}

clamp_bounded : (n : ℕ) → (10 ≤ clamp n) × (clamp n ≤ 200)
unfolding clamp
clamp_bounded n = ground arith

horizon_of_bounded : (raw : RawHorizon) → (10 ≤ horizon_of raw) × (horizon_of raw ≤ 200)
unfolding horizon_of
horizon_of_bounded RawHorizon.missing = clamp_bounded 60
horizon_of_bounded RawHorizon.unreadable = clamp_bounded 60
horizon_of_bounded RawHorizon.negative = clamp_bounded 0
horizon_of_bounded (RawHorizon.number n) = clamp_bounded n

length-map : {A B : Type 0} (f : A → B) (xs : List A) → length (map f xs) ≡ length xs
length-map f [] = refl
length-map f (x ∷ xs) = ap suc (length-map f xs)

length-range_from : (i n : ℕ) → length (range_from i n) ≡ n
length-range_from i zero = refl
length-range_from i (suc n) = ap suc (length-range_from (i + 1) n)

module _ (fl : FloatOps) (lib : Statistics fl.Float) where
  open fl use {Float, flt, fle, fsub, fdiv, fint, lit, fround}

  -- The forecast has one value for each tick of the horizon, and a threshold is met in ten
  -- horizons at most.
  abbrev pub IsWithin : ℕ → List Float × Option ℕ → Type 0
  IsWithin horizon (predicted, none) = length predicted ≡ horizon
  IsWithin horizon (predicted, some ticks) = (length predicted ≡ horizon) × (ticks ≤ horizon * 10)

  abbrev pub IsBoundedAnswer : Answer Float → Type 0
  IsBoundedAnswer (Answer.too_few horizon values) = (10 ≤ horizon) × (horizon ≤ 200)
  IsBoundedAnswer (Answer.forecast f) =
      (10 ≤ f.horizon) × (f.horizon ≤ 200) × IsWithin f.horizon (f.predicted, f.threshold_ticks)
  IsBoundedAnswer _ = Unit

  abbrev IsAtMost : ℕ → Option ℕ → Type 0
  IsAtMost n none = Unit
  IsAtMost n (some t) = t ≤ n

  first_over_bounded :
      (limit : Float) (i : ℕ) (predicted : List Float)
      → IsAtMost (i + length predicted) (first_over fl lib limit i predicted)
  unfolding first_over
  first_over_bounded limit i [] = tt
  first_over_bounded limit i (v ∷ rest) = ground (arith, first_over_bounded limit (i + 1) rest)

  module _ (whole : (n : ℕ) (a : Float) → fle a (lit n 1) ≡ true → fint a ≤ n)
      (steps : (vs : List Float) (horizon : ℕ) (out : List Float)
        → lib.arima_fit vs horizon ≡ some out
        → length out ≡ horizon) where
    length-arima_forecast :
        (vs : List Float) (horizon : ℕ) (out : List Float)
        → arima_forecast fl lib vs horizon ≡ some out
        → length out ≡ horizon
    unfolding arima_forecast
    length-arima_forecast vs horizon out h = ground (arith, h, steps vs horizon out)

    length-predict :
        (vs : List Float) (current slope : Float) (horizon : ℕ)
        → length (predict fl lib vs current slope horizon).0 ≡ horizon
    unfolding predict arima_forecast
    length-predict vs current slope horizon =
        elim (Option-cases (arima_forecast fl lib vs horizon)) [
          | inl failed ↦
              rw (predict, failed) (length-map _ (range horizon) ∙ length-range_from 0 horizon)
          | inr (out, fitted) ↦
              rw (predict, fitted)
                (length-map (λ v. fround v 3) out ∙ length-arima_forecast vs horizon out fitted)
        ]

    ticks_to_bounded :
        (limit current slope : Float) (horizon : ℕ) (prediction : List Float × Algorithm)
        → length prediction.0 ≡ horizon
        → IsAtMost (horizon * 10) (ticks_to fl lib limit current slope horizon prediction)
    unfolding ticks_to
    ticks_to_bounded limit current slope horizon (predicted, arima) long =
        ground (arith, long, first_over_bounded limit 0 predicted)
    ticks_to_bounded limit current slope horizon (predicted, linear) long =
        ground (arith, whole (horizon * 10) (fdiv (fsub limit current) slope))
    ticks_to_bounded limit current slope horizon (predicted, linear_only) long =
        ground (arith, whole (horizon * 10) (fdiv (fsub limit current) slope))

    threshold_ticks_bounded :
        (th : Threshold Float) (current slope : Float) (horizon : ℕ)
        (prediction : List Float × Algorithm)
        → length prediction.0 ≡ horizon
        → IsAtMost (horizon * 10) (threshold_ticks fl lib th current slope horizon prediction)
    unfolding threshold_ticks
    threshold_ticks_bounded th current slope horizon prediction long =
        elim (Option-cases th.caution) [
          | inl free ↦ rw (threshold_ticks, free) tt
          | inr (limit, has) ↦
              rw (threshold_ticks, has)
                (if_ind (IsAtMost (horizon * 10)) (flt current limit) {y = none}
                  (ticks_to_bounded limit current slope horizon prediction long) tt)
        ]

    both_bounds :
        (horizon : ℕ) (predicted : List Float) (ticks : Option ℕ)
        → length predicted ≡ horizon
        → IsAtMost (horizon * 10) ticks
        → IsWithin horizon (predicted, ticks)
    both_bounds horizon predicted none long few = long
    both_bounds horizon predicted (some t) long few = (long, few)

    answer_for_bounded :
        (raw : RawHorizon) (metric : String) (th : Threshold Float) (newest : List Float)
        → IsBoundedAnswer (answer_for fl lib (horizon_of raw) metric th newest)
    unfolding forecast_of
    answer_for_bounded raw metric th [] = horizon_of_bounded raw
    answer_for_bounded raw metric th (current ∷ before) =
        elim (Bool-cases (ltb (length (current ∷ before)) 5)) [
          | inl few ↦ rw few (horizon_of_bounded raw)
          | inr many ↦
              let recent : List Float = reverse (current ∷ before) in
              let slope : Float = calc_slope fl lib recent in
              let prediction = predict fl lib recent current slope (horizon_of raw) in
              let long = length-predict recent current slope (horizon_of raw) in
              let (low, high) = horizon_of_bounded raw in
              rw many (
                low,
                high,
                both_bounds (horizon_of raw) prediction.0 _ long
                    (threshold_ticks_bounded th current slope (horizon_of raw) prediction long),
              )
        ]

    answer_known_bounded :
        (metric : String) (raw : RawHorizon) (rows : Option (List (Option Float)))
        (th : Option (Threshold Float))
        → IsBoundedAnswer (answer_known fl lib metric raw rows th)
    answer_known_bounded metric raw rows none = tt
    answer_known_bounded metric raw none (some th) = tt
    answer_known_bounded metric raw (some all) (some th) =
        answer_for_bounded raw metric th (values fl lib (take 30 all))

    -- Whatever the request says, the horizon of an answer is 10 to 200 ticks; a forecast has one value
    -- for each of them, and the threshold it announces is ten horizons away at most. `int` of a number
    -- that is at most `n` is taken to be at most `n`, and the library to forecast as many values as
    -- it is asked for.
    pub get_bounded :
        (device_id metric : String) (raw : RawHorizon) (rows : Option (List (Option Float)))
        → IsBoundedAnswer (get fl lib device_id metric raw rows)
    unfolding get
    get_bounded device_id metric raw rows =
        if_ind IsBoundedAnswer (str_eq device_id "" || str_eq metric "") tt
          (answer_known_bounded metric raw rows (thresholds fl lib metric))
