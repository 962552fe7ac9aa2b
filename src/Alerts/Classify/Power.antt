-- ===== src/Alerts/Classify/Power.antt =====
-- What the classification of a power reading looks at.
use sen_sa.Prelude.{ℕ, ◌<◌, ◌≤◌, ◌≡◌, true, List, [], String, arith, ◌≢◌, length, select}
use sen_sa.Prelude.Float.{FloatOps}
use sen_sa.Prelude.Text.{eq_iff}
use sen_sa.Alerts.Classify.{
  WattRow, PowerReading, power_min_samples, is_sample, watts, get_24h_avg_watt, dynamic_status,
  is_usable_avg, classify_power,
}

module _ (fl : FloatOps) where
  open fl use {Float, flt, lit}

  -- the values of the device's last 24 hours
  abbrev pub samples : List (WattRow Float) → (now : ℕ) (device_id : String) → List Float
  samples table now device_id = watts fl (select (is_sample fl now device_id) table)

  -- With fewer than 180 values in the last 24 hours the device's history does not count: the
  -- reading is classified as that of no device.
  pub classify_power_new_device :
      (median : List Float → Float) (table : List (WattRow Float)) (now : ℕ)
      (p : PowerReading Float) (device_id : String)
      → length (samples table now device_id) < power_min_samples
      → classify_power fl median table now p device_id ≡ classify_power fl median [] now p ""
  unfolding classify_power get_24h_avg_watt
  classify_power_new_device median table now p device_id few = ground arith

  -- With 180 values or more, whose median is positive, the current of a reading does not count,
  -- however large it is.
  pub classify_power_ignores_current :
      (median : List Float → Float) (table : List (WattRow Float)) (now : ℕ)
      (p : PowerReading Float) (device_id : String) (current : Float)
      → device_id ≢ ""
      → power_min_samples ≤ length (samples table now device_id)
      → is_usable_avg fl (median (samples table now device_id)) ≡ true
      → classify_power fl median table now (record p { current = current }) device_id
        ≡ classify_power fl median table now p device_id
  unfolding classify_power get_24h_avg_watt dynamic_status
  classify_power_ignores_current median table now p device_id current named many usable =
      ground (arith, eq_iff device_id "")
