-- ===== src/Geofence/Lifecycle/Create.antt =====
-- SenSa/geofence/zone_lifecycle.py: `create_dynamic_zone`. The tables of zones stand newest first.
use sen_sa.Prelude.{ℕ, ◌+◌, true, Option, none, some, [], ◌∷◌, ◌++◌, String}
use sen_sa.Prelude.Float.{FloatOps}
use sen_sa.Prelude.Text.{Casing, ◌++◌ as text_append}
use sen_sa.Geofence.Zone.{GeoFence, Device, RiskLevel, Tier, TriggerSource, ZoneType}
use sen_sa.Geofence.Hull.{circle_polygon, circle_polygon_points}
use sen_sa.Geofence.Diffusion.{diffusion_radius}
use sen_sa.Geofence.Lifecycle.Rows.{ZoneEvent, Zones, created, tier_ttl}

-- The name, the trigger's text, the risk level and the name of a zone to be made; `label` is the
-- text of `trigger_source`.
pub record ZoneRequest : Type 0 where
  pub gas_type : String
  pub trigger_source : TriggerSource
  pub label : String
  pub risk_level : RiskLevel
  pub name : Option String

abbrev pub on_zone_created : {F : Type 0} → GeoFence F → ZoneEvent
on_zone_created zone = record {
  zone = zone.id;
  event_type = created;
  from_tier = Tier.static;
  to_tier = zone.tier;
}

module _ (fl : FloatOps) (text : Casing) where
  open fl use {Float, lit}

  abbrev pub initial_elapsed_sec : Float
  initial_elapsed_sec = lit 10 1

  unfoldable pub default_name : Device Float → (gas_type : String) → String
  default_name device gas_type =
      text_append "[자동] "
        (text_append device.device_id (text_append " " (text_append (text.upper gas_type) " 확산")))

  -- The row that `objects.create` makes, `id` being its key.
  unfoldable pub new_zone : (id now : ℕ) → Device Float → ZoneRequest → GeoFence Float
  new_zone id now device request =
      let radius : Float = diffusion_radius fl text request.gas_type initial_elapsed_sec in
      record {
        id = id;
        name = elim request.name [ some name ↦ name | none ↦ default_name device request.gas_type ];
        zone_type = ZoneType.danger;
        description = text_append "TTM 발동 — " request.label;
        risk_level = request.risk_level;
        polygon = circle_polygon fl device.x device.y radius circle_polygon_points;
        is_active = true;
        created_at = now;
        is_dynamic = true;
        source_device = some device.id;
        confirmed_devices = [];
        gas_type = text.lower request.gas_type;
        tier = Tier.tentative;
        current_radius_px = some radius;
        trigger_source = request.trigger_source;
        expires_at = some (now + tier_ttl Tier.tentative);
        last_updated_at = now;
      }

  unfoldable pub create_dynamic_zone :
      Zones Float → (id now : ℕ) → Device Float → ZoneRequest → Zones Float × GeoFence Float
  create_dynamic_zone st id now device request =
      let zone : GeoFence Float = new_zone id now device request in
      (record { fences = zone ∷ st.fences; events = st.events ++ on_zone_created zone ∷ [] }, zone)
