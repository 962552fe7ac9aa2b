-- ===== src/Geofence/Lifecycle/Tick.antt =====
-- SenSa/geofence/zone_lifecycle.py: `tick`, with the neighbours of SenSa/devices/neighbor_graph.py,
-- the residuals of zone_anomaly.py and the hulls of polygon_utils.py as the surroundings of the
-- zones. Within a tick the tables of devices and readings do not change.
use sen_sa.Prelude.{ℕ, Bool, Option, none, some, List, map, if◌then◌else◌}
use sen_sa.Prelude.Float.{FloatOps}
use sen_sa.Prelude.Text.{Casing}
use sen_sa.Geofence.Zone.{Device}
use sen_sa.Geofence.Hull.{build_zone_polygon}
use sen_sa.Geofence.Anomaly.{SensorRow, has_anomaly}
use sen_sa.Devices.Neighbours.{Cache, get_neighbors_within_devices}
use sen_sa.Geofence.Lifecycle.Rows.{StatusRow, Surroundings, Zones}
use sen_sa.Geofence.Lifecycle.Expire.{expire_zones, expire_recovered_zones}
use sen_sa.Geofence.Lifecycle.Check.{check_all_active_zones_upgrade}
use sen_sa.Geofence.Lifecycle.Spread.{Spike}
use sen_sa.Geofence.Lifecycle.Grow.{update_all_active_zones}

pub record TickResult : Type 0 where
  pub updated : ℕ
  pub expired_count : ℕ
  pub recovered : ℕ
  pub upgraded_to_confirmed_count : ℕ
  pub upgraded_to_critical_count : ℕ

module _ (fl : FloatOps) (text : Casing) (avg : List fl.Float → fl.Float) where
  open fl use {Float}

  -- What a pass over the zones reads: the devices, the readings (newest first) and the kept
  -- distances.
  pub record Plant : Type 0 where
    pub devices : List (Device Float)
    pub readings : List (SensorRow Float)
    pub neighbours : Cache fl

  abbrev pub device_of : Device Float × Float → Device Float
  device_of p = p.0

  unfoldable pub surroundings : Plant → (now : ℕ) → Surroundings Float
  surroundings plant now = record {
    devices = plant.devices;
    build_zone_polygon = build_zone_polygon fl;
    neighbours_within = λ source radius.
        map device_of
          (get_neighbors_within_devices fl plant.devices plant.neighbours source radius).1;
    has_anomaly =
        λ device gas_type. has_anomaly fl text avg plant.readings now device.id gas_type none;
  }

  abbrev pub status_row : SensorRow Float → StatusRow
  status_row row = record { device = row.device; status = row.status }

  -- `none` is an exception of the last pass; what the passes have saved by then stays.
  unfoldable pub tick :
      Plant
      → (now : ℕ) → Zones Float
      → (check_upgrade : Bool) → Zones Float × List (Spike Float) × Option TickResult
  tick plant now st check_upgrade =
      let around : Surroundings Float = surroundings plant now in
      let (st1, expired) = expire_zones st now in
      let (st2, recovered) = expire_recovered_zones st1 (map status_row plant.readings) now in
      let (st3, spikes, updated) = update_all_active_zones fl text around now plant.readings st2 in
      let (st4, counts) = check_all_active_zones_upgrade fl around now st3 in
      if check_upgrade
      then (
        st4,
        spikes,
        elim counts [
          | none ↦ none
          | some (confirmed, critical) ↦ some (record {
            updated = updated;
            expired_count = expired;
            recovered = recovered;
            upgraded_to_confirmed_count = confirmed;
            upgraded_to_critical_count = critical;
          })
        ],
      )
      else (
        st3,
        spikes,
        some (record {
          updated = updated;
          expired_count = expired;
          recovered = recovered;
          upgraded_to_confirmed_count = 0;
          upgraded_to_critical_count = 0;
        }),
      )
