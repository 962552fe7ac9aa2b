-- ===== src/Alerts/Store/SensorReads.antt =====
-- What a read of a sensor's key in state_store.py returns after a write.
use sen_sa.Prelude.{ℕ, ◌+◌, ◌<◌, ◌≡◌, true, false, none, String, arith}
use sen_sa.Prelude.Text.{str_eq, eq_refl}
use sen_sa.Alerts.Types.{Status}
use sen_sa.Alerts.Store.Hashes.{ttl, hgetall-hset}
use sen_sa.Alerts.Store.{
  Redis, SensorSnapshot, sensor_default, empty_window, put_window, get_sensor_snapshot,
  write_sensor, commit_sensor_state, set_sensor_window_counter, clear_sensor_window_counters,
}

get_sensor_snapshot-write_self :
    (r : Redis) (now later : ℕ) (id : String) (f : SensorSnapshot → SensorSnapshot)
    → r.up ≡ true
    → later < now + ttl
    → get_sensor_snapshot (write_sensor r now id f) later id ≡ f (get_sensor_snapshot r now id)
unfolding get_sensor_snapshot write_sensor
get_sensor_snapshot-write_self r now later id f up fresh =
    ground (arith, hgetall-hset sensor_default r.sensors now later id id f, eq_refl id)

get_sensor_snapshot-write_ne :
    (r : Redis) (now later : ℕ) (id other : String) (f : SensorSnapshot → SensorSnapshot)
    → str_eq id other ≡ false
    → get_sensor_snapshot (write_sensor r now id f) later other ≡ get_sensor_snapshot r later other
unfolding get_sensor_snapshot write_sensor
get_sensor_snapshot-write_ne r now later id other f ne =
    ground (arith, hgetall-hset sensor_default r.sensors now later id other f)

module _ (r : Redis) (now later : ℕ) (id : String) (up : r.up ≡ true)
    (fresh : later < now + ttl) where
  pub get_sensor_snapshot-commit_sensor_state :
      (state : Status)
      → let s = get_sensor_snapshot r now id in
        get_sensor_snapshot (commit_sensor_state r now id state true) later id
        ≡ record s { state = state; last_alarm_at = now; pending_state = none; pending_count = 0 }
  unfolding commit_sensor_state
  get_sensor_snapshot-commit_sensor_state state =
      get_sensor_snapshot-write_self r now later id _ up fresh

  pub get_sensor_snapshot-set_sensor_window_counter :
      (st : Status) (count first_at : ℕ)
      → get_sensor_snapshot (set_sensor_window_counter r now id st count first_at) later id
        ≡ put_window
            (get_sensor_snapshot r now id)
            st
            (record { count = count; first_at = first_at })
  unfolding set_sensor_window_counter
  get_sensor_snapshot-set_sensor_window_counter st count first_at =
      get_sensor_snapshot-write_self r now later id _ up fresh

  pub get_sensor_snapshot-clear_sensor_window_counters :
      let s = get_sensor_snapshot r now id in
      get_sensor_snapshot (clear_sensor_window_counters r now id) later id ≡ record s {
        normal_window = empty_window;
        caution_window = empty_window;
        danger_window = empty_window;
      }
  unfolding clear_sensor_window_counters
  get_sensor_snapshot-clear_sensor_window_counters =
      get_sensor_snapshot-write_self r now later id _ up fresh

module _ (r : Redis) (now later : ℕ) (id other : String) (ne : str_eq id other ≡ false) where
  pub get_sensor_snapshot-commit_sensor_state_ne :
      (state : Status)
      → get_sensor_snapshot (commit_sensor_state r now id state true) later other
        ≡ get_sensor_snapshot r later other
  unfolding commit_sensor_state
  get_sensor_snapshot-commit_sensor_state_ne state =
      get_sensor_snapshot-write_ne r now later id other _ ne

  pub get_sensor_snapshot-set_sensor_window_counter_ne :
      (st : Status) (count first_at : ℕ)
      → get_sensor_snapshot (set_sensor_window_counter r now id st count first_at) later other
        ≡ get_sensor_snapshot r later other
  unfolding set_sensor_window_counter
  get_sensor_snapshot-set_sensor_window_counter_ne st count first_at =
      get_sensor_snapshot-write_ne r now later id other _ ne

  pub get_sensor_snapshot-clear_sensor_window_counters_ne :
      get_sensor_snapshot (clear_sensor_window_counters r now id) later other
      ≡ get_sensor_snapshot r later other
  unfolding clear_sensor_window_counters
  get_sensor_snapshot-clear_sensor_window_counters_ne =
      get_sensor_snapshot-write_ne r now later id other _ ne

module _ (r : Redis) (now : ℕ) (id : String) where
  pub up-commit_sensor_state :
      (state : Status) → (commit_sensor_state r now id state true).up ≡ r.up
  unfolding commit_sensor_state
  up-commit_sensor_state state = ground arith

  pub up-set_sensor_window_counter :
      (st : Status) (count first_at : ℕ)
      → (set_sensor_window_counter r now id st count first_at).up ≡ r.up
  unfolding set_sensor_window_counter
  up-set_sensor_window_counter st count first_at = ground arith

  pub up-clear_sensor_window_counters : (clear_sensor_window_counters r now id).up ≡ r.up
  unfolding clear_sensor_window_counters
  up-clear_sensor_window_counters = ground arith

-- Without Redis every read is the default and no write is made.
module _ (r : Redis) (down : r.up ≡ false) (now : ℕ) (id : String) where
  pub get_sensor_snapshot_down : get_sensor_snapshot r now id ≡ sensor_default
  unfolding get_sensor_snapshot
  get_sensor_snapshot_down = ground arith

  pub set_sensor_window_counter_down :
      (st : Status) (count first_at : ℕ) → set_sensor_window_counter r now id st count first_at ≡ r
  unfolding set_sensor_window_counter
  set_sensor_window_counter_down st count first_at = ground arith
