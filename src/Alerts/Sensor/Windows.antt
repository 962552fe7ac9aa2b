-- ===== src/Alerts/Sensor/Windows.antt =====
-- The window counters of a sensor: bounded, and reset by the observation of the stored status.
use sen_sa.Prelude.{
  ℕ, ◌+◌, ◌≤◌, ◌<◌, ◌≡◌, ◌∙◌, ap, true, Option, none, some, [], ◌∷◌, String, arith, sym,
}
use sen_sa.Prelude.Float.{FloatOps}
use sen_sa.Alerts.Types.{Status, Reason, ongoing, is_sensor_escalation, rank}
use sen_sa.Alerts.Common.{recovery_count_threshold, danger_count_threshold, re_alarm_interval}
use sen_sa.Alerts.Store.{SensorSnapshot, empty_window, window, get_sensor_snapshot, ttl}
use sen_sa.Alerts.World.{World}
use sen_sa.Alerts.Sensor.Spec.{advance, watch}
use sen_sa.Alerts.Sensor.Escalation.{Arrival, reading, arrive, arrive_lem}
use sen_sa.Alerts.Sensor.Refinement.{said, due, evaluate_status-watch}

-- No counter has reached the threshold at which it is confirmed.
pub record IsBounded (s : SensorSnapshot) : Type 0 where
  pub normal_below : s.normal_window.count < recovery_count_threshold
  pub caution_below : s.caution_window.count < recovery_count_threshold
  pub danger_below : s.danger_window.count < danger_count_threshold

watch-IsBounded :
    (now : ℕ) (s : SensorSnapshot) (observed : Status)
    → IsBounded s
    → IsBounded (watch now s observed).0
unfolding watch advance is_sensor_escalation
watch-IsBounded now s Status.normal b = ground arith
watch-IsBounded now s Status.caution b = ground arith
watch-IsBounded now s Status.danger b = ground arith

-- The counters of the statuses safer than the stored one stand at nothing.
watch_held :
    (now : ℕ) (s : SensorSnapshot) (st : Status)
    → rank st < rank s.state
    → window (watch now s s.state).0 st ≡ empty_window
unfolding watch
watch_held now s st h = ground arith

due-injective : (o : Option (Reason × Status)) {v : Reason × Status} → due o ≡ v ∷ [] → o ≡ some v
due-injective none h = cc
due-injective (some v) h = cc

watch_ongoing :
    (now : ℕ) (s : SensorSnapshot) (observed target : Status)
    → (watch now s observed).1 ≡ some (ongoing, target)
    → (target ≡ s.state) × (0 < rank target) × (s.last_alarm_at + re_alarm_interval ≤ now)
unfolding watch is_sensor_escalation
watch_ongoing now s observed target h = ground arith

module _ (fl : FloatOps) (id : String) where
  open fl use {Float}

  -- One arrival, as a read of the sensor's key shows it while the key is there.
  module _ (w : World Float) (a : Arrival Float) (later : ℕ) (up : w.redis.up ≡ true)
      (alive : later < a.now + ttl)
      (steady : get_sensor_snapshot w.redis later id ≡ get_sensor_snapshot w.redis a.now id) where
    arrive-watch :
        (get_sensor_snapshot (arrive fl id w a).0.redis later id
          ≡ (watch a.now (get_sensor_snapshot w.redis a.now id) a.observed).0)
        × (said (arrive fl id w a).1
            ≡ due (watch a.now (get_sensor_snapshot w.redis a.now id) a.observed).1)
    arrive-watch = rw (arrive_lem fl id w a) (
        let (read, told, _) =
          evaluate_status-watch fl a.db w a.now later (reading id a) a.observed up alive steady in
        (read, told))

    -- While Redis answers and the sensor's key is there, an arrival stores no counter at the
    -- threshold at which it is confirmed, if none was.
    pub evaluate_sensor-IsBounded :
        IsBounded (get_sensor_snapshot w.redis a.now id)
        → IsBounded (get_sensor_snapshot (arrive fl id w a).0.redis later id)
    evaluate_sensor-IsBounded b = rw arrive-watch.0 (watch-IsBounded a.now _ a.observed b)

    -- While Redis answers and the sensor's key is there, an observation of the stored status drops
    -- what was counted towards any safer status.
    pub evaluate_sensor_held :
        (st : Status)
        → a.observed ≡ (get_sensor_snapshot w.redis a.now id).state
        → rank st < rank a.observed
        → window (get_sensor_snapshot (arrive fl id w a).0.redis later id) st ≡ empty_window
    evaluate_sensor_held st same safer =
        let s = get_sensor_snapshot w.redis a.now id in
        ap (λ s. window s st) (arrive-watch.0 ∙ ap (λ o. (watch a.now s o).0) same)
        ∙ watch_held a.now s st (rw same at safer)

    -- While Redis answers and the sensor's key is there, an alarm that repeats is for the stored
    -- status, which is not normal, and comes 60 seconds or more after the last alarm.
    pub evaluate_sensor_repeats :
        (target : Status)
        → said (arrive fl id w a).1 ≡ (ongoing, target) ∷ []
        → let s = get_sensor_snapshot w.redis a.now id in
          (target ≡ s.state) × (0 < rank target) × (s.last_alarm_at + re_alarm_interval ≤ a.now)
    evaluate_sensor_repeats target told =
        let s = get_sensor_snapshot w.redis a.now id in
        watch_ongoing a.now s a.observed target
          (due-injective (watch a.now s a.observed).1 (sym arrive-watch.1 ∙ told))
