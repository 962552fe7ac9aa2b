-- ===== src/Devices/Examples.antt =====
-- A gas sensor, its readings, and the gates they pass.
use sen_sa.Prelude.{
  ℕ, ◌≡◌, refl, true, false, Bool, none, some, List, [], ◌∷◌, String, arith, any, ltb,
}
use sen_sa.Prelude.Sample.{naturals}
use sen_sa.Prelude.Text.{Casing}
use sen_sa.Alerts.Types.{Status, same_status}
use sen_sa.Alerts.Samples.{gas_sensor, square, start}
use sen_sa.Alerts.Classify.{classify_gas, classify_gas_from, gas_step, gas_thresholds}
use sen_sa.Alerts.Fences.{first}
use sen_sa.Alerts.Detectors.Arima.{Forecaster, empty_store}
use sen_sa.Alerts.Detectors.Trend.{Forest}
use sen_sa.Geofence.Zone.{Device}
use sen_sa.Devices.Gate.{Cache}
use sen_sa.Devices.Neighbours.{Cache as Distances, gas_sensors, get_neighbors_within}
use sen_sa.Devices.Neighbours.Loading.{get_neighbors_within_complete, is_neighbour}
use sen_sa.Devices.Neighbours.Sorting.{IsSorted}
use sen_sa.Devices.Ingest.{Intake, RawPhase, RawValue, Request, get_float}
use sen_sa.Devices.Ingest.Save.{gas_reading, labels_of, power_of}
use sen_sa.Devices.Ingest.Post.{post, requested_device}
use sen_sa.Devices.Ingest.Alarming.{IsAlarmed, post-IsAlarmed}

abbrev pub empty_cache : Cache
empty_cache = record {
  asked = [];
  answer_add = λ calls. some true;
  answer_get = λ calls now key. some false;
}

ltb_asymmetric : (a b : ℕ) → ltb a b ≡ true → ltb b a ≡ false
ltb_asymmetric a b h = ground arith

abbrev next_sensor : Device ℕ
next_sensor = record gas_sensor { id = 4; device_id = "sensor_02"; x = 8; y = 9 }

abbrev nothing_loaded : Distances naturals
nothing_loaded = record { loaded = false; edges = [] }

abbrev near_four : ℕ × ℕ → Bool
near_four e = ltb e.1 6

get_neighbors_within_complete_example :
    let table = gas_sensor ∷ next_sensor ∷ [] in
    let (c', within) = get_neighbors_within naturals table nothing_loaded 3 10 in
    IsSorted naturals within
    × (any near_four within
        ≡ any (is_neighbour naturals gas_sensor 10 near_four) (gas_sensors naturals table))
    × (get_neighbors_within naturals [] c' 3 10 ≡ (c', within))
get_neighbors_within_complete_example =
    get_neighbors_within_complete naturals ltb_asymmetric (gas_sensor ∷ next_sensor ∷ []) []
      nothing_loaded gas_sensor 10 near_four refl refl

-- A model that forecasts what it was fitted to last, and a forest that finds nothing odd.
abbrev last_value : Forecaster ℕ
last_value = record { Model = ℕ; fit = λ values. none; forecast = λ model. some model }

abbrev calm_forest : Forest ℕ
calm_forest = record {
  Model = ℕ;
  median = λ values. 0;
  polyfit_slope = λ values. some 0;
  fit = λ values. some 0;
  score_samples = λ model value. some 0;
  int = λ a. some a;
}

abbrev same_case : Casing
same_case = record { lower = λ s. s; upper = λ s. s }

abbrev show : ℕ → String
show n = "n"

abbrev middle : List ℕ → ℕ
middle values = 0

abbrev site : Cache → Intake naturals last_value calm_forest
site gate = record {
  world = start;
  gate = gate;
  zones = record { fences = square ∷ []; events = [] };
  next_zone = 8;
  devices = gas_sensor ∷ next_sensor ∷ [];
  readings = [];
  detectors = λ device kind. empty_store naturals last_value;
  predictors = λ device key. record { buffer = []; model = none; tick = 0; last_fit_tick = 0 };
  predictions = [];
  last_prediction = λ device key. 0;
  updates = [];
  ai_published = [];
}

-- 300 of every gas
abbrev full_reading : Request ℕ
full_reading = record {
  device_id = "sensor_01";
  sensor_type = "gas";
  values = λ key. RawValue.number 300;
  scenario_id = none;
  expected_phase = RawPhase.absent;
  expected_status = none;
}

abbrev no_voltage : Request ℕ
no_voltage = record full_reading { sensor_type = "power"; values = λ key. RawValue.missing }

found :
    requested_device naturals same_case last_value calm_forest show middle 5000000 9000000
      (gas_sensor ∷ next_sensor ∷ [])
      full_reading
    ≡ some gas_sensor
unfolding requested_device first
found = refl

labelled :
    labels_of naturals last_value calm_forest show middle 5000000 9000000 no_voltage
    ≡ some (record { scenario_id = none; expected_phase = none; expected_status = none })
unfolding labels_of
labelled = refl

incomplete : power_of naturals last_value calm_forest show middle 5000000 9000000 no_voltage ≡ none
unfolding power_of get_float
incomplete = refl

deadly :
    classify_gas naturals
      (gas_reading naturals last_value calm_forest show middle 5000000 9000000 full_reading)
    ≡ Status.danger
unfolding classify_gas classify_gas_from gas_step gas_thresholds get_float
deadly = refl

labels_found :
    labels_of naturals last_value calm_forest show middle 5000000 9000000 full_reading
    ≡ some (record { scenario_id = none; expected_phase = none; expected_status = none })
unfolding labels_of
labels_found = refl

alarming :
    same_status
      (classify_gas naturals
        (gas_reading naturals last_value calm_forest show middle 5000000 9000000 full_reading))
      Status.normal
    ≡ false
alarming = rw deadly refl

post-IsAlarmed_example :
    IsAlarmed naturals same_case last_value calm_forest show middle 5000000 9000000
      (site empty_cache)
      gas_sensor
      "gas"
      (classify_gas naturals
        (gas_reading naturals last_value calm_forest show middle 5000000 9000000 full_reading))
      (post naturals same_case last_value calm_forest show middle 5000000 9000000
        (site empty_cache)
        full_reading)
post-IsAlarmed_example =
    post-IsAlarmed naturals same_case last_value calm_forest show middle 5000000 9000000
      (site empty_cache) full_reading gas_sensor
      (record { scenario_id = none; expected_phase = none; expected_status = none })
      (found, refl, labels_found) refl alarming
