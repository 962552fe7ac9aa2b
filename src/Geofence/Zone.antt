-- ===== src/Geofence/Zone.antt =====
-- SenSa/geofence/models.py and SenSa/devices/models.py: zones, static and dynamic, and devices.
-- A foreign key is the number of its row, `none` for null; the set of confirmed devices is a list
-- of such numbers. Time is in microseconds.
use sen_sa.Prelude.{ℕ, Bool, true, false, Option, List, String}
use sen_sa.Alerts.Types.{Status}

pub data ZoneType : Type 0 where
  normal caution danger restricted : ZoneType

pub data RiskLevel : Type 0 where
  low medium high critical : RiskLevel

-- `static` is the empty text of a zone that an administrator drew.
pub data Tier : Type 0 where
  static tentative confirmed critical : Tier

-- `TRIGGER_SOURCE_CHOICES`, `scenario_op_<name>`, and any other text
pub data TriggerSource : Type 0 where
  static manual threshold ttm_anomaly ttm_forecast : TriggerSource
  scenario_op : (name : String) → TriggerSource
  other : (text : String) → TriggerSource

abbrev pub same_tier : Tier → Tier → Bool
same_tier Tier.static Tier.static = true
same_tier Tier.tentative Tier.tentative = true
same_tier Tier.confirmed Tier.confirmed = true
same_tier Tier.critical Tier.critical = true
same_tier _ _ = false

abbrev pub same_zone_type : ZoneType → ZoneType → Bool
same_zone_type ZoneType.normal ZoneType.normal = true
same_zone_type ZoneType.caution ZoneType.caution = true
same_zone_type ZoneType.danger ZoneType.danger = true
same_zone_type ZoneType.restricted ZoneType.restricted = true
same_zone_type _ _ = false

pub record GeoFence (F : Type 0) : Type 0 where
  pub id : ℕ
  pub name : String
  pub zone_type : ZoneType
  pub description : String
  pub risk_level : RiskLevel
  pub polygon : List (F × F)
  pub is_active : Bool
  pub created_at : ℕ
  pub is_dynamic : Bool
  pub source_device : Option ℕ
  pub confirmed_devices : List ℕ
  pub gas_type : String
  pub tier : Tier
  pub current_radius_px : Option F
  pub trigger_source : TriggerSource
  pub expires_at : Option ℕ
  pub last_updated_at : ℕ

pub record Device (F : Type 0) : Type 0 where
  pub id : ℕ
  pub device_id : String
  pub sensor_type : String
  pub x : F
  pub y : F
  pub status : Status
  pub last_value : Option F
  pub is_active : Bool
  pub geofence : Option ℕ
