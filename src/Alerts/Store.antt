-- ===== src/Alerts/Store.antt =====
-- SenSa/alerts/state_store.py: the alarm state of workers and sensors in Redis.
-- A hash is a record whose fields stand at their defaults until they are written, which is what
-- the `data.get(key, default)` of the readers makes of a missing field; '' and a missing
-- `pending_state` are both `none`. Time is in microseconds. A key is gone once its time to live
-- is over. `up` says whether Redis answers: where it does not, the decorator `_graceful_redis`
-- turns a read into the default and a write into nothing.
mod Hashes
pub mod Reads
pub mod SensorReads
pub use Hashes.{Cell, Keyspace, ttl, hgetall-hset}
unfoldable pub use Hashes.{cell_at, hgetall, hset}
use sen_sa.Prelude.{ℕ, Bool, Option, none, some, String, if◌then◌else◌}
use sen_sa.Alerts.Types.{Status, WorkerState}

pub record WorkerSnapshot : Type 0 where
  pub state : WorkerState
  pub last_alarm_at : ℕ
  pub pending_state : Option WorkerState
  pub pending_count : ℕ

-- `pending_<status>_count` and `pending_<status>_first_at`
pub record Window : Type 0 where
  pub count : ℕ
  pub first_at : ℕ

pub record SensorSnapshot : Type 0 where
  pub state : Status
  pub last_alarm_at : ℕ
  pub pending_state : Option Status
  pub pending_count : ℕ
  pub normal_window : Window
  pub caution_window : Window
  pub danger_window : Window

abbrev pub empty_window : Window
empty_window = record { count = 0; first_at = 0 }

abbrev pub worker_default : WorkerSnapshot
worker_default = record {
  state = WorkerState.safe;
  last_alarm_at = 0;
  pending_state = none;
  pending_count = 0;
}

-- `_sensor_default` has no window counters; its reader asks for them with the default 0.
abbrev pub sensor_default : SensorSnapshot
sensor_default = record {
  state = Status.normal;
  last_alarm_at = 0;
  pending_state = none;
  pending_count = 0;
  normal_window = empty_window;
  caution_window = empty_window;
  danger_window = empty_window;
}

abbrev pub window : SensorSnapshot → Status → Window
window s Status.normal = s.normal_window
window s Status.caution = s.caution_window
window s Status.danger = s.danger_window

abbrev pub put_window : SensorSnapshot → Status → Window → SensorSnapshot
put_window s Status.normal w = record s { normal_window = w }
put_window s Status.caution w = record s { caution_window = w }
put_window s Status.danger w = record s { danger_window = w }

pub record Redis : Type 0 where
  pub up : Bool
  pub workers : Keyspace WorkerSnapshot
  pub sensors : Keyspace SensorSnapshot

-- ─── workers ───

unfoldable pub get_worker_snapshot : Redis → ℕ → String → WorkerSnapshot
get_worker_snapshot r now id =
    if r.up then hgetall worker_default r.workers now id else worker_default

write_worker : Redis → ℕ → String → (WorkerSnapshot → WorkerSnapshot) → Redis
write_worker r now id f =
    if r.up then record r { workers = hset worker_default r.workers now id f } else r

-- A state of the type is one of the four that the code lets through.
unfoldable pub commit_state : Redis → ℕ → String → WorkerState → (mark_alarmed : Bool) → Redis
unfolding write_worker
commit_state r now id state mark_alarmed = write_worker r now id λ s. record s {
  state = state;
  pending_state = none;
  pending_count = 0;
  last_alarm_at = if mark_alarmed then now else s.last_alarm_at;
}

unfoldable pub set_pending : Redis → ℕ → String → WorkerState → ℕ → Redis
unfolding write_worker
set_pending r now id pending_state count =
    write_worker r now id
      λ s. record s { pending_state = some pending_state; pending_count = count }

unfoldable pub clear_pending : Redis → ℕ → String → Redis
unfolding write_worker
clear_pending r now id =
    write_worker r now id λ s. record s { pending_state = none; pending_count = 0 }

-- ─── sensors ───

unfoldable pub get_sensor_snapshot : Redis → ℕ → String → SensorSnapshot
get_sensor_snapshot r now id =
    if r.up then hgetall sensor_default r.sensors now id else sensor_default

write_sensor : Redis → ℕ → String → (SensorSnapshot → SensorSnapshot) → Redis
write_sensor r now id f =
    if r.up then record r { sensors = hset sensor_default r.sensors now id f } else r

unfoldable pub set_sensor_window_counter :
    Redis → ℕ → String → Status → (count first_at : ℕ) → Redis
unfolding write_sensor
set_sensor_window_counter r now id status count first_at =
    write_sensor r now id λ s. put_window s status (record { count = count; first_at = first_at })

unfoldable pub clear_sensor_window_counters : Redis → ℕ → String → Redis
unfolding write_sensor
clear_sensor_window_counters r now id = write_sensor r now id λ s. record s {
  normal_window = empty_window;
  caution_window = empty_window;
  danger_window = empty_window;
}

unfoldable pub commit_sensor_state : Redis → ℕ → String → Status → (mark_alarmed : Bool) → Redis
unfolding write_sensor
commit_sensor_state r now id state mark_alarmed = write_sensor r now id λ s. record s {
  state = state;
  pending_state = none;
  pending_count = 0;
  last_alarm_at = if mark_alarmed then now else s.last_alarm_at;
}

unfoldable pub set_sensor_pending : Redis → ℕ → String → Status → ℕ → Redis
unfolding write_sensor
set_sensor_pending r now id pending_state count =
    write_sensor r now id
      λ s. record s { pending_state = some pending_state; pending_count = count }

unfoldable pub clear_sensor_pending : Redis → ℕ → String → Redis
unfolding write_sensor
clear_sensor_pending r now id =
    write_sensor r now id λ s. record s { pending_state = none; pending_count = 0 }
