-- ===== src/Alerts/Sensor/Evaluate.antt =====
-- sensor_evaluator.py: `evaluate_sensor`. The readings of the clock within one call are taken as
-- one instant, `now`. A text `observed_status` that is no status's name ends the call. An exception
-- of the broadcast or of a metric is absorbed by the code and changes nothing here.
use sen_sa.Prelude.{
  ℕ, ◌+◌, ◌-◌, Bool, true, false, not, ◌&&◌, ◌||◌, Option, none, some, List, [], ◌∷◌, String, ltb,
  leb, ◌==◌, if◌then◌else◌,
}
use sen_sa.Prelude.Float.{FloatOps}
use sen_sa.Alerts.Types.{
  Status, Reason, transition, ongoing, parse_status, rank, same_status, is_sensor_escalation,
}
use sen_sa.Alerts.Common.{
  re_alarm_interval, caution_window, caution_count_threshold, danger_count_threshold,
  recovery_window, recovery_count_threshold,
}
use sen_sa.Alerts.Store.{
  Redis, SensorSnapshot, Window, window, get_sensor_snapshot, set_sensor_window_counter,
  clear_sensor_window_counters, commit_sensor_state,
}
use sen_sa.Alerts.World.{Alarm, SensorPayload, of_sensor, World}
use sen_sa.Alerts.Fences.{Db, find_sensor_geofence}
use sen_sa.Geofence.Zone.{GeoFence}
use sen_sa.Alerts.Worker.Evaluate.{fence_id, fence_name}
use sen_sa.Alerts.Sensor.Message.{sensor_transition_to_type_and_level, build_sensor_message}

-- A window that has not begun or is over begins again.
unfoldable pub next_window : (now : ℕ) → Window → (window_sec : ℕ) → Window
next_window now w window_sec =
    if w.first_at == 0 || ltb window_sec (now - w.first_at)
    then record { count = 1; first_at = now }
    else record { count = w.count + 1; first_at = w.first_at }

unfoldable pub accumulate_window :
    Redis
    → SensorSnapshot
    → Status
    → (now window_sec threshold : ℕ) → String
    → Redis × Option Status
accumulate_window r snap observed now window_sec threshold id =
    let next : Window = next_window now (window snap observed) window_sec in
    if leb threshold next.count
    then (r, some observed)
    else (set_sensor_window_counter r now id observed next.count next.first_at, none)

-- One round of the loop over ('normal', 'caution', 'danger').
unfoldable pub reset_if_safer : (now : ℕ) (id : String) → Status → Redis → Status → Redis
reset_if_safer now id official r st =
    if ltb (rank st) (rank official) then set_sensor_window_counter r now id st 0 0 else r

unfoldable pub reset_safer : Redis → (now : ℕ) (id : String) → Status → Redis
unfolding reset_if_safer
reset_safer r now id official =
    reset_if_safer now id official
      (reset_if_safer now id official (reset_if_safer now id official r Status.normal)
        Status.caution)
      Status.danger

abbrev pub escalation_threshold : Status → ℕ
escalation_threshold observed =
    if same_status observed Status.danger then danger_count_threshold else caution_count_threshold

unfoldable pub confirm :
    Redis → (now : ℕ) (id : String) → SensorSnapshot → Status → Redis × Option Status
confirm r now id snap observed =
    if same_status observed snap.state
    then (reset_safer r now id snap.state, none)
    else if is_sensor_escalation snap.state observed
    then accumulate_window r snap observed now caution_window (escalation_threshold observed) id
    else accumulate_window r snap observed now recovery_window recovery_count_threshold id

unfoldable pub clear_if_confirmed : (now : ℕ) (id : String) → Redis × Option Status → Redis
clear_if_confirmed now id (r, none) = r
clear_if_confirmed now id (r, some _) = clear_sensor_window_counters r now id

unfoldable pub verdict : (now : ℕ) → SensorSnapshot → Option Status → Option (Reason × Status)
verdict now snap (some confirmed) = some (transition, confirmed)
verdict now snap none =
    if not (same_status snap.state Status.normal)
      && leb re_alarm_interval (now - snap.last_alarm_at)
    then some (ongoing, snap.state)
    else none

-- The arguments of a call: `detail`, `is_ai` and `ai_detail` have defaults in the code.
pub record Reading : Type 0 where
  pub device_id : String
  pub sensor_type : String
  pub observed_status : String
  pub detail : String
  pub is_ai : Bool
  pub ai_detail : String

module _ (fl : FloatOps) where
  open fl use {Float}

  -- `_find_sensor_geofence(device_id) if target_state != 'normal' else None`
  abbrev fence_for : Db Float → String → Status → Option (GeoFence Float)
  fence_for db id Status.normal = none
  fence_for db id _ = find_sensor_geofence fl db id

  unfoldable pub raise_alarm :
      Db Float
      → World Float
      → (now : ℕ) → Reading
      → (official : Status) → Reason × Status
      → World Float × SensorPayload
  raise_alarm db w now reading official (reason, target) =
      let (alarm_type, alarm_level) = sensor_transition_to_type_and_level official target in
      let message : String =
        build_sensor_message reading.device_id reading.sensor_type official target reading.detail
          reading.is_ai reading.ai_detail in
      let fence : Option (GeoFence Float) = fence_for db reading.device_id target in
      let payload : SensorPayload = record {
        alarm_id = w.next_id;
        alarm_type = alarm_type;
        alarm_level = alarm_level;
        device_id = reading.device_id;
        sensor_type = reading.sensor_type;
        geofence_id = fence_id fence;
        geofence_name = fence_name fence;
        message = message;
        reason = reason;
        state_from = official;
        state_to = target;
        is_ai = reading.is_ai;
        created_at = now;
      } in
      let row : Alarm Float = record {
        id = w.next_id;
        alarm_type = alarm_type;
        alarm_level = alarm_level;
        worker_id = "";
        worker_name = "";
        position = none;
        geofence = fence_id fence;
        device_id = reading.device_id;
        sensor_type = reading.sensor_type;
        message = message;
        is_read = false;
        is_ai = reading.is_ai;
        created_at = now;
      } in
      (
        record w {
          redis = commit_sensor_state w.redis now reading.device_id target true;
          alarms = row ∷ w.alarms;
          next_id = w.next_id + 1;
          published = of_sensor payload ∷ w.published;
        },
        payload,
      )

  -- Without an alarm, a sensor that is not normal counts as throttled.
  unfoldable pub conclude :
      Db Float
      → World Float
      → (now : ℕ) → Reading
      → (official : Status) → Option (Reason × Status)
      → World Float × List SensorPayload
  unfolding raise_alarm
  conclude db w now reading official none = (
    if same_status official Status.normal then w else record w { throttled = w.throttled + 1 },
    [],
  )
  conclude db w now reading official (some v) =
      let (w', payload) = raise_alarm db w now reading official v in (w', payload ∷ [])

  unfoldable pub evaluate_status :
      Db Float → World Float → (now : ℕ) → Reading → Status → World Float × List SensorPayload
  unfolding conclude confirm clear_if_confirmed verdict
  evaluate_status db w now reading observed =
      let snap : SensorSnapshot = get_sensor_snapshot w.redis now reading.device_id in
      let (redis, confirmed) = confirm w.redis now reading.device_id snap observed in
      conclude db (record w { redis = clear_if_confirmed now reading.device_id (redis, confirmed) })
        now reading snap.state (verdict now snap confirmed)

  unfoldable pub evaluate_sensor :
      Db Float → World Float → (now : ℕ) → Reading → World Float × List SensorPayload
  evaluate_sensor db w now reading = elim (parse_status reading.observed_status) [
    | none ↦ (w, [])
    | some observed ↦ evaluate_status db w now reading observed
  ]
