-- ===== src/Alerts/Samples.antt =====
-- Small inputs: one danger zone, one worker, one gas sensor.
use sen_sa.Prelude.{ℕ, true, false, none, some, [], ◌∷◌}
use sen_sa.Geofence.Zone.{ZoneType, RiskLevel, Tier, TriggerSource, GeoFence, Device}
use sen_sa.Alerts.Types.{Status, WorkerState}
use sen_sa.Alerts.Store.{Redis, SensorSnapshot, empty_window}
use sen_sa.Alerts.World.{World}
use sen_sa.Alerts.Fences.{Db}

abbrev pub square : GeoFence ℕ
square = record {
  id = 7;
  name = "press room";
  zone_type = ZoneType.danger;
  description = "";
  risk_level = RiskLevel.high;
  polygon = (0, 0) ∷ (0, 10) ∷ (10, 10) ∷ (10, 0) ∷ [];
  is_active = true;
  created_at = 0;
  is_dynamic = false;
  source_device = none;
  confirmed_devices = [];
  gas_type = "";
  tier = Tier.static;
  current_radius_px = none;
  trigger_source = TriggerSource.static;
  expires_at = none;
  last_updated_at = 0;
}

abbrev pub gas_sensor : Device ℕ
gas_sensor = record {
  id = 3;
  device_id = "sensor_01";
  sensor_type = "gas";
  x = 5;
  y = 5;
  status = Status.normal;
  last_value = none;
  is_active = true;
  geofence = none;
}

abbrev pub plant : Db ℕ
plant = record { fences = square ∷ []; devices = gas_sensor ∷ [] }

abbrev pub empty_redis : Redis
empty_redis = record { up = true; workers = λ _. none; sensors = λ _. none }

abbrev pub world_of : Redis → World ℕ
world_of r = record {
  redis = r;
  alarms = [];
  next_id = 1;
  published = [];
  queued = [];
  throttled = 0;
}

abbrev pub start : World ℕ
start = world_of empty_redis

-- Redis does not answer.
abbrev pub outage : World ℕ
outage = world_of (record { up = false; workers = λ _. none; sensors = λ _. none })

-- Every worker was alarmed in danger at second 100, and the keys live on until second 1000.
abbrev pub endangered : World ℕ
endangered = world_of (record {
  up = true;
  workers = λ _. some (record {
    hash = record {
      state = WorkerState.danger;
      last_alarm_at = 100000000;
      pending_state = none;
      pending_count = 0;
    };
    expires_at = 1000000000;
  });
  sensors = λ _. none;
})

-- A sensor in danger since second 100.
abbrev pub leaking : World ℕ
leaking = world_of (record {
  up = true;
  workers = λ _. none;
  sensors = λ _. some (record {
    hash = record {
      state = Status.danger;
      last_alarm_at = 100000000;
      pending_state = none;
      pending_count = 0;
      normal_window = record { count = 2; first_at = 99000000 };
      caution_window = empty_window;
      danger_window = empty_window;
    };
    expires_at = 1000000000;
  });
})

-- A sensor that is normal, with a key.
abbrev pub calm : SensorSnapshot
calm = record {
  state = Status.normal;
  last_alarm_at = 0;
  pending_state = none;
  pending_count = 0;
  normal_window = empty_window;
  caution_window = empty_window;
  danger_window = empty_window;
}

abbrev pub watched : World ℕ
watched = world_of (record {
  up = true;
  workers = λ _. none;
  sensors = λ _. some (record { hash = calm; expires_at = 1000000000 });
})
