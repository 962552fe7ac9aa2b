-- ===== src/Alerts/World.antt =====
-- What an evaluation changes: the Redis state, the table of alarms, the alarms sent to the
-- dashboards and the external notifications put on the task queue. Newest first.
-- SenSa/alerts/models.py and the payloads of the two evaluators.
use sen_sa.Prelude.{ℕ, Bool, Option, List, String}
use sen_sa.Alerts.Types.{Status, WorkerState, Level, AlarmType, Reason}
use sen_sa.Alerts.Store.{Redis}

-- A row of `Alarm`; `position` is `worker_x` and `worker_y`, `geofence` the foreign key.
pub record Alarm (F : Type 0) : Type 0 where
  pub id : ℕ
  pub alarm_type : AlarmType
  pub alarm_level : Level
  pub worker_id : String
  pub worker_name : String
  pub position : Option (F × F)
  pub geofence : Option ℕ
  pub device_id : String
  pub sensor_type : String
  pub message : String
  pub is_read : Bool
  pub is_ai : Bool
  pub created_at : ℕ

pub record WorkerPayload : Type 0 where
  pub alarm_id : ℕ
  pub alarm_type : AlarmType
  pub alarm_level : Level
  pub worker_id : String
  pub worker_name : String
  pub geofence_id : Option ℕ
  pub geofence_name : String
  pub message : String
  pub reason : Reason
  pub state_from : WorkerState
  pub state_to : WorkerState

pub record SensorPayload : Type 0 where
  pub alarm_id : ℕ
  pub alarm_type : AlarmType
  pub alarm_level : Level
  pub device_id : String
  pub sensor_type : String
  pub geofence_id : Option ℕ
  pub geofence_name : String
  pub message : String
  pub reason : Reason
  pub state_from : Status
  pub state_to : Status
  pub is_ai : Bool
  pub created_at : ℕ

pub data Payload : Type 0 where
  of_worker : WorkerPayload → Payload
  of_sensor : SensorPayload → Payload

-- The arguments of `send_external_notification_task.delay`.
pub record Notice : Type 0 where
  pub title : String
  pub message : String
  pub severity : String

pub record World (F : Type 0) : Type 0 where
  pub redis : Redis
  pub alarms : List (Alarm F)
  pub next_id : ℕ
  pub published : List Payload
  pub queued : List Notice
  -- `sensa_alarm_throttled_total`
  pub throttled : ℕ
