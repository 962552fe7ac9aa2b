-- ===== src/Alerts/Sensor/Spec.antt =====
-- What `evaluate_sensor` promises of one sensor, without the store: a step of the sensor's
-- snapshot at an instant and an observed status, with the alarm that is due.
use sen_sa.Prelude.{ℕ, ◌+◌, not, ◌&&◌, ◌||◌, ◌==◌, Option, none, some, leb, ltb, if◌then◌else◌}
use sen_sa.Alerts.Types.{
  Status, Reason, transition, ongoing, rank, same_status, is_sensor_escalation,
}
use sen_sa.Alerts.Common.{
  re_alarm_interval, caution_window, recovery_window, recovery_count_threshold,
}
use sen_sa.Alerts.Store.{SensorSnapshot, Window, empty_window, window, put_window}
use sen_sa.Alerts.Sensor.Evaluate.{escalation_threshold}

abbrev pub cleared : SensorSnapshot → SensorSnapshot
cleared s = record s {
  normal_window = empty_window;
  caution_window = empty_window;
  danger_window = empty_window;
}

-- An observation of the stored status starts the counters of all safer ones again.
abbrev pub held : SensorSnapshot → Status → SensorSnapshot
held s official = record s {
  normal_window = if ltb 0 (rank official) then empty_window else s.normal_window;
  caution_window = if ltb 1 (rank official) then empty_window else s.caution_window;
}

-- One more observation of a window that is under way, or the first of a new one.
unfoldable pub advance : ℕ → Window → (window_sec : ℕ) → Window
advance now w window_sec =
    if not (w.first_at == 0) && leb now (w.first_at + window_sec)
    then record { count = w.count + 1; first_at = w.first_at }
    else record { count = 1; first_at = now }

-- Any other observation counts for itself alone; at the threshold all counters start again.
unfoldable pub counted :
    ℕ → SensorSnapshot → Status → (window_sec threshold : ℕ) → SensorSnapshot × Option Status
counted now s observed window_sec threshold =
    let next : Window = advance now (window s observed) window_sec in
    if leb threshold next.count
    then (cleared s, some observed)
    else (put_window s observed next, none)

unfoldable pub observe : ℕ → SensorSnapshot → Status → SensorSnapshot × Option Status
observe now s observed =
    if same_status observed s.state
    then (held s s.state, none)
    else if is_sensor_escalation s.state observed
    then counted now s observed caution_window (escalation_threshold observed)
    else counted now s observed recovery_window recovery_count_threshold

-- An alarm fixes the state and marks the time.
unfoldable pub settle : ℕ → SensorSnapshot → Option (Reason × Status) → SensorSnapshot
settle now s none = s
settle now s (some (reason, target)) = record s {
  state = target;
  last_alarm_at = now;
  pending_state = none;
  pending_count = 0;
}

-- A confirmed status is alarmed; without one, a status that is not normal is alarmed again from the
-- end of the interval on.
unfoldable pub decide : ℕ → SensorSnapshot → Option Status → Option (Reason × Status)
decide now s (some confirmed) = some (transition, confirmed)
decide now s none =
    if same_status s.state Status.normal || ltb now (s.last_alarm_at + re_alarm_interval)
    then none
    else some (ongoing, s.state)

unfoldable pub watch : ℕ → SensorSnapshot → Status → SensorSnapshot × Option (Reason × Status)
unfolding observe settle decide counted
watch now s observed =
    let (s', confirmed) = observe now s observed in
    let v : Option (Reason × Status) = decide now s confirmed in (settle now s' v, v)
