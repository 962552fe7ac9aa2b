-- ===== src/Alerts/Fences.antt =====
-- SenSa/alerts/services/geofence_utils.py: the geofences of a point and of a sensor.
use sen_sa.Prelude.{
  ℕ, Bool, ◌&&◌, Option, none, some, List, [], ◌∷◌, String, leb, ◌==◌, select, length,
  if◌then◌else◌,
}
use sen_sa.Prelude.Float.{FloatOps}
use sen_sa.Prelude.Text.{str_eq}
use sen_sa.Geofence.Zone.{GeoFence, Device}
use sen_sa.Geofence.Polygon.{point_in_polygon}

-- The rows that the services read, each table in the order of its query.
pub record Db (F : Type 0) : Type 0 where
  pub fences : List (GeoFence F)
  pub devices : List (Device F)

module _ (fl : FloatOps) where
  open fl use {Float}

  -- An active geofence with three vertices or more that holds the point.
  unfoldable pub holds : Float → Float → GeoFence Float → Bool
  holds x y fence =
      fence.is_active && leb 3 (length fence.polygon) && point_in_polygon fl x y fence.polygon

  unfoldable pub find_containing_geofences : Db Float → Float → Float → List (GeoFence Float)
  unfolding holds
  find_containing_geofences db x y = select (holds x y) db.fences

  unfoldable pub first : {A : Type 0} → (A → Bool) → List A → Option A
  first p [] = none
  first p (a ∷ rest) = if p a then some a else first p rest

  -- `device.geofence and device.geofence.is_active`
  pub active_fence : Db Float → Option ℕ → Option (GeoFence Float)
  unfolding first
  active_fence db none = none
  active_fence db (some key) = elim (first (λ (g : GeoFence Float). g.id == key) db.fences) [
    | some g ↦ if g.is_active then some g else none
    | none ↦ none
  ]

  -- The fence of the foreign key, else the first that holds the device's position.
  pub fence_of : Db Float → Device Float → Option (GeoFence Float)
  unfolding active_fence first holds
  fence_of db device = elim (active_fence db device.geofence) [
    | some g ↦ some g
    | none ↦ first (holds device.x device.y) db.fences
  ]

  unfoldable pub find_sensor_geofence : Db Float → String → Option (GeoFence Float)
  unfolding fence_of first
  find_sensor_geofence db id =
      elim (first (λ (d : Device Float). str_eq d.device_id id) db.devices) [
        | some device ↦ fence_of db device
        | none ↦ none
      ]
