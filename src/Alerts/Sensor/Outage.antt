-- ===== src/Alerts/Sensor/Outage.antt =====
-- A sensor's evaluation while Redis does not answer.
use sen_sa.Prelude.{ℕ, ◌≡◌, refl, ap, false, Option, none, [], String, Option-cases, inl, inr}
use sen_sa.Prelude.Float.{FloatOps}
use sen_sa.Alerts.Types.{Status, parse_status, is_sensor_escalation}
use sen_sa.Alerts.Store.{Redis, sensor_default}
use sen_sa.Alerts.Store.SensorReads.{get_sensor_snapshot_down, set_sensor_window_counter_down}
use sen_sa.Alerts.World.{World}
use sen_sa.Alerts.Fences.{Db}
use sen_sa.Alerts.Sensor.Evaluate.{
  next_window, accumulate_window, reset_safer, confirm, clear_if_confirmed, verdict, Reading,
  conclude, evaluate_status, evaluate_sensor,
}

abbrev awaiting : Redis → Redis × Option Status
awaiting r = (r, none)

confirm_down :
    (r : Redis) (down : r.up ≡ false) (now : ℕ) (id : String) (observed : Status)
    → confirm r now id sensor_default observed ≡ (r, none)
unfolding confirm accumulate_window next_window reset_safer is_sensor_escalation
confirm_down r down now id Status.normal = refl
confirm_down r down now id Status.caution =
    ap awaiting (set_sensor_window_counter_down r down now id Status.caution 1 now)
confirm_down r down now id Status.danger =
    ap awaiting (set_sensor_window_counter_down r down now id Status.danger 1 now)

module _ (fl : FloatOps) where
  open fl use {Float}

  evaluate_status_down :
      (db : Db Float) (w : World Float) (now : ℕ) (reading : Reading) (observed : Status)
      → w.redis.up ≡ false
      → evaluate_status fl db w now reading observed ≡ (w, [])
  unfolding evaluate_status conclude clear_if_confirmed verdict
  evaluate_status_down db w now reading observed down =
      rw (get_sensor_snapshot_down w.redis down now reading.device_id)
        (rw (confirm_down w.redis down now reading.device_id observed) refl)

  -- While Redis does not answer, the evaluation of a sensor does nothing: whatever is observed, and
  -- however often, no alarm is raised and nothing changes.
  pub evaluate_sensor_outage :
      (db : Db Float) (w : World Float) (now : ℕ) (reading : Reading)
      → w.redis.up ≡ false
      → evaluate_sensor fl db w now reading ≡ (w, [])
  unfolding evaluate_sensor
  evaluate_sensor_outage db w now reading down =
      elim (Option-cases (parse_status reading.observed_status)) [
        | inl other ↦ rw (other, evaluate_sensor)
        | inr (observed, named) ↦
            rw (named, evaluate_sensor) (evaluate_status_down db w now reading observed down)
      ]
