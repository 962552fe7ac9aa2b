-- ===== src/Devices/Ingest.antt =====
-- SenSa/devices/views.py: the readings that come in. What a POST reads and writes is one state: the
-- alarm domain's, the cache, the tables and the memory of the two detectors. A column that a row
-- does not have is null. Time is in microseconds.
pub mod Predict
pub mod Save
pub mod Post
pub mod Refusals
pub mod Alarming
use sen_sa.Prelude.{ℕ, Bool, ◌&&◌, Option, none, some, List, [], ◌∷◌, String, if◌then◌else◌}
use sen_sa.Prelude.Float.{FloatOps}
use sen_sa.Prelude.Text.{str_eq}
use sen_sa.Alerts.Types.{Status}
use sen_sa.Alerts.World.{World}
use sen_sa.Alerts.Fences.{Db}
use sen_sa.Alerts.Classify.{WattRow}
use sen_sa.Alerts.Detectors.Arima.{DeviceStore, Forecaster}
use sen_sa.Alerts.Detectors.Trend.{AiPrediction, Forest, SensorStore}
use sen_sa.Geofence.Zone.{Device}
use sen_sa.Geofence.Lifecycle.Rows.{Zones}
use sen_sa.Devices.Gate.{Cache}

-- A value of the request: missing or null, nothing that `float` reads, or a number.
pub data RawValue (F : Type 0) : Type 0 where
  missing unreadable : RawValue F
  number : (f : F) → RawValue F

-- `expected_phase`: missing, nothing that `int` reads, or a phase.
pub data RawPhase : Type 0 where
  absent malformed : RawPhase
  phase : (n : ℕ) → RawPhase

pub record Request (F : Type 0) : Type 0 where
  pub device_id : String
  pub sensor_type : String
  pub values : String → RawValue F
  pub scenario_id : Option String
  pub expected_phase : RawPhase
  pub expected_status : Option String

-- A new row of `SensorData`; `value` is the column of that name.
pub record SavedRow (F : Type 0) : Type 0 where
  pub device : ℕ
  pub device_id : String
  pub timestamp : ℕ
  pub status : Status
  pub value : String → Option F
  pub scenario_id : Option String
  pub expected_phase : Option ℕ
  pub expected_status : Option String

-- What `publish_sensor_update` sends, and what `publish_alarm` sends of a prediction.
pub record SensorUpdate (F : Type 0) : Type 0 where
  pub device_id : String
  pub sensor_type : String
  pub status : Status
  pub values : List (String × Option F)
  pub timestamp : ℕ

pub record AiPayload : Type 0 where
  pub alarm_id : ℕ
  pub device_id : String
  pub sensor_type : String
  pub message : String

pub data Response : Type 0 where
  -- 404, 400 and 500
  not_found unsupported server_error : Response
  -- 200: a scenario feeds this sensor
  skipped : (status : Status) → Response
  -- 201
  accepted : (status : Status) (is_ai persisted : Bool) → Response

module _ (fl : FloatOps) (arima : Forecaster fl.Float) (forest : Forest fl.Float) where
  open fl use {Float, flt, lit}

  pub record Intake : Type 0 where
    pub world : World Float
    pub gate : Cache
    pub zones : Zones Float
    pub next_zone : ℕ
    pub devices : List (Device Float)
    pub readings : List (SavedRow Float)
    pub detectors : (device_id sensor_type : String) → DeviceStore fl arima
    pub predictors : (device_id sensor_key : String) → SensorStore fl forest
    pub predictions : List (AiPrediction Float)
    -- `_ai_pred_throttle`, 0 where it has no entry
    pub last_prediction : (device_id sensor_key : String) → ℕ
    pub updates : List (SensorUpdate Float)
    pub ai_published : List AiPayload

  abbrev pub set_at :
      {A : Type 0} → (String → String → A) → (a b : String) → A → String → String → A
  set_at f a b value x y = if str_eq x a && str_eq y b then value else f x y

  abbrev pub db_of : Intake → Db Float
  db_of st = record { fences = st.zones.fences; devices = st.devices }

  -- The power rows as the classifier reads them.
  unfoldable pub watt_rows : List (SavedRow Float) → List (WattRow Float)
  watt_rows [] = []
  watt_rows (row ∷ rest) =
      record { device_id = row.device_id; timestamp = row.timestamp; watt = row.value "watt" }
      ∷ watt_rows rest

  -- `_get_float`: a number below 0 or above a million counts as missing.
  unfoldable pub get_float : RawValue Float → Option Float
  get_float missing = none
  get_float unreadable = none
  get_float (number f) =
      if flt f (lit 0 1) then none else if flt (lit 1000000 1) f then none else some f
