-- ===== src/Geofence/Lifecycle/Rows.antt =====
-- The constants of SenSa/geofence/zone_lifecycle.py, and the rows that its passes read and write.
use sen_sa.Prelude.{ℕ, Bool, ◌&&◌, List, String}
use sen_sa.Alerts.Types.{Status}
use sen_sa.Geofence.Zone.{GeoFence, Device, Tier}

-- `TIER_TTL_SECONDS`; a static zone has no entry.
abbrev pub tier_ttl : Tier → ℕ
tier_ttl Tier.static = 0
tier_ttl Tier.tentative = 300000000
tier_ttl Tier.confirmed = 1800000000
tier_ttl Tier.critical = 3600000000

abbrev pub min_confirming_for_confirmed : ℕ
min_confirming_for_confirmed = 1

abbrev pub min_confirming_for_critical : ℕ
min_confirming_for_critical = 3

abbrev pub recovery_check_count : ℕ
recovery_check_count = 5

-- `ZONE_EVENT_TYPE_CHOICES`
pub data EventType : Type 0 where
  created polygon_expanded upgraded_to_confirmed upgraded_to_critical expired : EventType

pub record ZoneEvent : Type 0 where
  pub zone : ℕ
  pub event_type : EventType
  pub from_tier : Tier
  pub to_tier : Tier

-- The rows of `SensorData` that the pass reads, newest first.
pub record StatusRow : Type 0 where
  pub device : ℕ
  pub status : Status

pub record Surroundings (F : Type 0) : Type 0 where
  pub devices : List (Device F)
  pub build_zone_polygon : List (F × F) → F → List (F × F)
  pub neighbours_within : (source : ℕ) → F → List (Device F)
  pub has_anomaly : Device F → (gas_type : String) → Bool

pub record Zones (F : Type 0) : Type 0 where
  pub fences : List (GeoFence F)
  pub events : List ZoneEvent

abbrev pub is_live : {F : Type 0} → GeoFence F → Bool
is_live zone = zone.is_dynamic && zone.is_active
