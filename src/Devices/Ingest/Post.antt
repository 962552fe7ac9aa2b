-- ===== src/Devices/Ingest/Post.antt =====
-- SenSa/devices/views.py: `SensorDataView.post`. The broadcasts succeed. The cache's `get` is not
-- guarded, so a cache that does not answer ends the call.
use sen_sa.Prelude.{
  ℕ, suc, true, false, not, ◌||◌, Option, none, some, List, ◌∷◌, map, String, ◌==◌, if◌then◌else◌,
}
use sen_sa.Prelude.Float.{FloatOps}
use sen_sa.Prelude.Text.{Casing, str_eq, ◌++◌ as text_append}
use sen_sa.Alerts.Types.{same_status}
use sen_sa.Alerts.Fences.{first}
use sen_sa.Alerts.Worker.Message.{status_text}
use sen_sa.Alerts.Sensor.Evaluate.{Reading, evaluate_sensor}
use sen_sa.Alerts.Detectors.Arima.{Forecaster}
use sen_sa.Alerts.Detectors.Trend.{Forest}
use sen_sa.Geofence.Zone.{Device}
use sen_sa.Geofence.AutoTrigger.{maybe_trigger_zone}
use sen_sa.Devices.Gate.{holds_key}
use sen_sa.Devices.Ingest.{
  Intake, Request, Response, accepted, db_of, not_found, server_error, skipped, unsupported,
}
use sen_sa.Devices.Ingest.Save.{Labels, Saved, labels_of, save_gas, save_power}

module _ (fl : FloatOps) (text : Casing) (arima : Forecaster fl.Float) (forest : Forest fl.Float)
    (show_nat : ℕ → String) (median : List fl.Float → fl.Float) (interval now : ℕ) where
  open fl use {Float}

  abbrev pub replace : Device Float → List (Device Float) → List (Device Float)
  replace device devices =
      map (λ (d : Device Float). if d.id == device.id then device else d) devices

  -- The row is written when the status changes or when a reading was saved.
  unfoldable pub write_device :
      Intake fl arima forest → Device Float → Saved Float → Intake fl arima forest
  write_device st device saved =
      if not (same_status saved.status device.status) || saved.persisted
      then record st {
        devices =
            replace (record device { status = saved.status; last_value = saved.last_value })
              st.devices;
      }
      else st

  unfoldable pub publish :
      Intake fl arima forest
      → Device Float
      → (sensor_type : String) → Saved Float
      → Intake fl arima forest
  publish st device sensor_type saved = record st {
    updates =
        record {
          device_id = device.device_id;
          sensor_type = sensor_type;
          status = saved.status;
          values = saved.values;
          timestamp = now;
        }
        ∷ st.updates;
  }

  abbrev pub alarm_reading : Device Float → (sensor_type : String) → Saved Float → Reading
  alarm_reading device sensor_type saved = record {
    device_id = device.device_id;
    sensor_type = sensor_type;
    observed_status = status_text saved.status;
    detail = if saved.is_ai then saved.ai_detail else "";
    is_ai = saved.is_ai;
    ai_detail = saved.ai_detail;
  }

  unfoldable pub raise_alarms :
      Intake fl arima forest
      → Device Float
      → (sensor_type : String) → Saved Float
      → Intake fl arima forest
  raise_alarms st device sensor_type saved = record st {
    world =
        (evaluate_sensor fl (db_of fl arima forest st) st.world now
          (alarm_reading device sensor_type saved)).0;
  }

  -- A gas reading that turns to danger makes a zone.
  unfoldable pub trigger :
      Intake fl arima forest
      → Device Float
      → (sensor_type : String) → Saved Float
      → Intake fl arima forest
  trigger st device sensor_type saved =
      let (gate, zones, made) =
        maybe_trigger_zone fl text st.gate st.zones st.next_zone now device saved.values
          saved.status device.status in
      if str_eq sensor_type "gas"
      then record st {
        gate = gate;
        zones = zones;
        next_zone = elim made [ none ↦ st.next_zone | some _ ↦ suc st.next_zone ];
      }
      else st

  unfoldable pub finish :
      Intake fl arima forest
      → Device Float
      → (sensor_type : String) → Saved Float
      → Intake fl arima forest × Response
  finish st device sensor_type saved =
      let st1 : Intake fl arima forest = write_device st device saved in
      let st2 : Intake fl arima forest = publish st1 device sensor_type saved in
      let st3 : Intake fl arima forest = raise_alarms st2 device sensor_type saved in
      (trigger st3 device sensor_type saved, accepted saved.status saved.is_ai saved.persisted)

  abbrev pub finish_if_saved :
      Device Float
      → (sensor_type : String) → Intake fl arima forest × Option (Saved Float)
      → Intake fl arima forest × Response
  finish_if_saved device sensor_type (st, none) = (st, server_error)
  finish_if_saved device sensor_type (st, some saved) = finish st device sensor_type saved

  -- `request.data.get('sensor_type') or device.sensor_type`
  abbrev pub type_of : Request Float → Device Float → String
  type_of request device =
      if str_eq request.sensor_type "" then device.sensor_type else request.sensor_type

  unfoldable pub save_and_finish :
      Intake fl arima forest
      → Device Float
      → Request Float
      → Labels
      → Intake fl arima forest × Response
  save_and_finish st device request labels =
      let kind : String = type_of request device in
      if str_eq kind "gas"
      then finish_if_saved device kind
          (save_gas fl arima forest show_nat median interval now st device request labels)
      else if str_eq kind "power"
      then finish_if_saved device kind
          (save_power fl arima forest show_nat median interval now st device request labels)
      else (st, unsupported)

  abbrev pub spike_key : Request Float → String
  spike_key request = text_append "scenario_spike:" request.device_id

  -- `Device.objects.get(device_id=device_id)`
  unfoldable pub requested_device : List (Device Float) → Request Float → Option (Device Float)
  requested_device devices request =
      first fl (λ (d : Device Float). str_eq d.device_id request.device_id) devices

  unfoldable pub post : Intake fl arima forest → Request Float → Intake fl arima forest × Response
  post st request = elim (requested_device st.devices request) [
    | none ↦ (st, not_found)
    | some device ↦ elim (holds_key st.gate now (spike_key request)) [
      | none ↦ (st, server_error)
      | some true ↦ (st, skipped device.status)
      | some false ↦ elim (labels_of fl arima forest show_nat median interval now request) [
        | none ↦ (st, server_error)
        | some labels ↦ save_and_finish st device request labels
      ]
    ]
  ]
