-- ===== src/Dashboard/Examples.antt =====
-- A check of one worker beside a sensor in danger, and a forecast of a value that rises.
use sen_sa.Prelude.{ℕ, ◌≡◌, ◌≤◌, ◌/◌, true, false, leb, none, some, List, [], ◌∷◌, length, arith}
use sen_sa.Prelude.Sample.{naturals}
use sen_sa.Alerts.Types.{Status}
use sen_sa.Alerts.Samples.{plant, start}
use sen_sa.Dashboard.Check.{SensorItem, WorkerItem, check_geofence}
use sen_sa.Dashboard.Check.Answer.{IsListed, check_geofence-IsListed}
use sen_sa.Dashboard.Forecast.{RawHorizon, Statistics, get}
use sen_sa.Dashboard.Forecast.Horizon.{IsBoundedAnswer, get_bounded}

abbrev leaking : SensorItem ℕ
leaking = record {
  device_id = "sensor_01";
  sensor_type = "gas";
  status = Status.danger;
  detail = "CO 300ppm";
  x = 5;
  y = 5;
}

abbrev visitor : WorkerItem ℕ
visitor = record { worker_id = "w1"; name = none; x = 3; y = 4 }

check_geofence-IsListed_example :
    IsListed naturals true plant 5000000 start
      (check_geofence naturals true plant 5000000 start (visitor ∷ []) (leaking ∷ []))
check_geofence-IsListed_example =
    check_geofence-IsListed naturals true plant 5000000 start (visitor ∷ []) (leaking ∷ [])

abbrev no_arima : Statistics ℕ
no_arima = record {
  sum = λ values. 0;
  mean = λ values. 0;
  stdev = λ values. 0;
  is_available = false;
  arima_fit = λ values horizon. none;
}

leb→le : (n a : ℕ) → leb a (n / 1) ≡ true → a ≤ n
leb→le n a h = ground arith

never_fitted :
    (vs : List ℕ) (horizon : ℕ) (out : List ℕ)
    → no_arima.arima_fit vs horizon ≡ some out
    → length out ≡ horizon
never_fitted vs horizon out h = ground (arith, h)

get_bounded_example : IsBoundedAnswer naturals no_arima (
    get naturals no_arima "sensor_01" "co"
      (RawHorizon.number 500)
      (some (some 9 ∷ some 8 ∷ some 7 ∷ some 6 ∷ some 5 ∷ [])))
get_bounded_example =
    get_bounded naturals no_arima leb→le never_fitted "sensor_01" "co" (RawHorizon.number 500)
      (some (some 9 ∷ some 8 ∷ some 7 ∷ some 6 ∷ some 5 ∷ []))
