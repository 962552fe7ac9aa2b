-- ===== src/Dashboard/Check.antt =====
-- SenSa/dashboard/views.py: `_compute_nearby_sensor_status` and `CheckGeofenceView`. The items of a
-- request have their numbers as floats and a status that is one of the three; a missing text is "".
pub mod Nearby
pub mod Answer
use sen_sa.Prelude.{
  ℕ, Bool, false, Option, none, some, List, [], ◌∷◌, ◌++◌, map, String, if◌then◌else◌,
}
use sen_sa.Prelude.Float.{FloatOps}
use sen_sa.Prelude.Text.{str_eq}
use sen_sa.Alerts.Types.{Status, same_status}
use sen_sa.Alerts.World.{Payload, SensorPayload, WorkerPayload, World, of_sensor, of_worker}
use sen_sa.Alerts.Fences.{Db}
use sen_sa.Alerts.Worker.Message.{status_text}
use sen_sa.Alerts.Worker.Evaluate.{evaluate_worker}
use sen_sa.Alerts.Sensor.Evaluate.{Reading, evaluate_sensor}

pub record SensorItem (F : Type 0) : Type 0 where
  pub device_id : String
  pub sensor_type : String
  pub status : Status
  pub detail : String
  pub x : F
  pub y : F

-- `name` is `none` where the item has none: the worker is then called by the id.
pub record WorkerItem (F : Type 0) : Type 0 where
  pub worker_id : String
  pub name : Option String
  pub x : F
  pub y : F

module _ (fl : FloatOps) where
  open fl use {Float, flt, fadd, fsub, fmul, fsqrt, lit}

  abbrev pub proximity_radius : Float
  proximity_radius = lit 200 1

  unfoldable pub distance : (worker_x worker_y : Float) → SensorItem Float → Float
  distance worker_x worker_y s =
      let dx : Float = fsub s.x worker_x in
      let dy : Float = fsub s.y worker_y in fsqrt (fadd (fmul dx dx) (fmul dy dy))

  abbrev pub worsen : (worst status : Status) → Status
  worsen worst status =
      if same_status status Status.danger
      then Status.danger
      else if same_status worst Status.danger
      then worst
      else Status.caution

  -- The loop over the sensors, with the worst status and the sensors so far.
  unfoldable pub nearby_from :
      (worker_x worker_y : Float)
      → Status × List (String × Status)
      → List (SensorItem Float)
      → Status × List (String × Status)
  nearby_from worker_x worker_y so_far [] = so_far
  nearby_from worker_x worker_y (worst, influencing) (s ∷ rest) =
      let skipped = nearby_from worker_x worker_y (worst, influencing) rest in
      let counted =
        nearby_from worker_x worker_y
          (worsen worst s.status, influencing ++ (s.device_id, s.status) ∷ []) rest in
      if same_status s.status Status.normal
      then skipped
      else if flt proximity_radius (distance worker_x worker_y s)
      then skipped
      else counted

  unfoldable pub compute_nearby_sensor_status :
      (worker_x worker_y : Float) → List (SensorItem Float) → Status × List (String × Status)
  compute_nearby_sensor_status worker_x worker_y sensors =
      nearby_from worker_x worker_y (Status.normal, []) sensors

  module _ (configured : Bool) (db : Db Float) (now : ℕ) where
    abbrev pub worker_payloads : List WorkerPayload → List Payload
    worker_payloads payloads = map of_worker payloads

    abbrev pub sensor_payloads : List SensorPayload → List Payload
    sensor_payloads payloads = map of_sensor payloads

    abbrev pub name_of : WorkerItem Float → String
    name_of worker = elim worker.name [ none ↦ worker.worker_id | some name ↦ name ]

    unfoldable pub check_worker :
        World Float → List (SensorItem Float) → WorkerItem Float → World Float × List Payload
    check_worker w sensors worker =
        let (worst, influencing) = compute_nearby_sensor_status worker.x worker.y sensors in
        let (w', payloads) =
          evaluate_worker fl configured db w now worker.worker_id (name_of worker) worker.x worker.y
            worst influencing in
        if str_eq worker.worker_id "" then (w, []) else (w', worker_payloads payloads)

    unfoldable pub check_workers :
        World Float → List (SensorItem Float) → List (WorkerItem Float) → World Float × List Payload
    check_workers w sensors [] = (w, [])
    check_workers w sensors (worker ∷ rest) =
        let (w1, alarms) = check_worker w sensors worker in
        let (w2, later) = check_workers w1 sensors rest in (w2, alarms ++ later)

    abbrev pub reading_of : SensorItem Float → Reading
    reading_of s = record {
      device_id = s.device_id;
      sensor_type = s.sensor_type;
      observed_status = status_text s.status;
      detail = s.detail;
      is_ai = false;
      ai_detail = "";
    }

    unfoldable pub check_sensor : World Float → SensorItem Float → World Float × List Payload
    check_sensor w s =
        let (w', payloads) = evaluate_sensor fl db w now (reading_of s) in
        if str_eq s.device_id "" then (w, []) else (w', sensor_payloads payloads)

    unfoldable pub check_sensors :
        World Float → List (SensorItem Float) → World Float × List Payload
    check_sensors w [] = (w, [])
    check_sensors w (s ∷ rest) =
        let (w1, alarms) = check_sensor w s in
        let (w2, later) = check_sensors w1 rest in (w2, alarms ++ later)

    -- `alarms` of the answer; `alarm_count` is their number.
    unfoldable pub check_geofence :
        World Float → List (WorkerItem Float) → List (SensorItem Float) → World Float × List Payload
    check_geofence w workers sensors =
        let (w1, alarms) = check_workers w sensors workers in
        let (w2, later) = check_sensors w1 sensors in (w2, alarms ++ later)
