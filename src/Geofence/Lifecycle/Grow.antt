-- ===== src/Geofence/Lifecycle/Grow.antt =====
-- SenSa/geofence/zone_lifecycle.py: `update_zone_radius` and the pass over all zones. A zone grows
-- with its age; the zone of a scenario keeps its shape for two minutes and is a circle from then on.
use sen_sa.Prelude.{
  ℕ, suc, ◌-◌, Bool, false, not, ◌&&◌, none, some, List, [], ◌∷◌, ◌++◌, map, if◌then◌else◌,
}
use sen_sa.Prelude.Float.{FloatOps}
use sen_sa.Prelude.Text.{Casing}
use sen_sa.Geofence.Zone.{GeoFence, Device, Tier}
use sen_sa.Geofence.Hull.{circle_polygon, circle_polygon_points}
use sen_sa.Geofence.Diffusion.{diffusion_radius}
use sen_sa.Geofence.Anomaly.{SensorRow}
use sen_sa.Geofence.Lifecycle.Rows.{Surroundings, ZoneEvent, Zones, is_live, polygon_expanded}
use sen_sa.Geofence.Lifecycle.Check.{is_scenario, radius_of, rebuild_polygon}
use sen_sa.Geofence.Lifecycle.Spread.{Spike, detect_and_spike, find_device}

module _ (fl : FloatOps) (text : Casing) (around : Surroundings fl.Float) (now : ℕ) where
  open fl use {Float, flt, fle, feq, fadd, fsub, fmul, fdiv, fabs, lit}

  abbrev pub elapsed : GeoFence Float → Float
  elapsed zone = lit (now - zone.created_at) 1000000

  abbrev pub transition_elapsed_sec : Float
  transition_elapsed_sec = lit 120 1

  -- `zone.current_radius_px` taken as a condition
  abbrev pub has_radius : GeoFence Float → Bool
  has_radius zone = elim zone.current_radius_px [ none ↦ false | some r ↦ not (feq r (lit 0 1)) ]

  abbrev pub scaled : (cx cy scale : Float) → Float × Float → Float × Float
  scaled cx cy scale p = (fadd cx (fmul (fsub p.0 cx) scale), fadd cy (fmul (fsub p.1 cy) scale))

  unfoldable pub scale_polygon_around_center :
      List (Float × Float) → (cx cy scale_factor : Float) → List (Float × Float)
  scale_polygon_around_center polygon cx cy scale_factor =
      if fle scale_factor (lit 0 1) then polygon else map (scaled cx cy scale_factor) polygon

  unfoldable pub reshape_scenario :
      GeoFence Float → (source : Device Float) → (new_radius : Float) → GeoFence Float
  reshape_scenario zone source new_radius =
      if flt transition_elapsed_sec (elapsed zone)
      then record zone {
        polygon = circle_polygon fl source.x source.y new_radius circle_polygon_points;
      }
      else record zone {
        polygon =
            scale_polygon_around_center zone.polygon source.x source.y
              (fdiv new_radius (radius_of fl around now zone));
      }

  unfoldable pub reshape : GeoFence Float → (new_radius : Float) → GeoFence Float
  reshape zone new_radius = elim (find_device fl now around.devices zone.source_device) [
    | none ↦ rebuild_polygon fl around now zone
    | some source ↦
        if is_scenario zone.trigger_source && has_radius zone
        then reshape_scenario zone source new_radius
        else rebuild_polygon fl around now zone
  ]

  -- The sensors of a scenario's zone are looked for once the zone has its new shape.
  unfoldable pub spread :
      List (SensorRow Float) → GeoFence Float → GeoFence Float × List (Spike Float)
  spread table zone =
      if is_scenario zone.trigger_source
      then detect_and_spike fl now around.devices table zone
      else (zone, [])

  abbrev pub on_polygon_expanded : GeoFence Float → ZoneEvent
  on_polygon_expanded zone = record {
    zone = zone.id;
    event_type = polygon_expanded;
    from_tier = Tier.static;
    to_tier = zone.tier;
  }

  -- A change below half a pixel is left for later.
  abbrev pub is_still : GeoFence Float → (new_radius : Float) → Bool
  is_still zone new_radius =
      has_radius zone && flt (fabs (fsub new_radius (radius_of fl around now zone))) (lit 5 10)

  abbrev pub grown : GeoFence Float → (new_radius : Float) → GeoFence Float
  grown zone new_radius = record (reshape zone new_radius) {
    current_radius_px = some new_radius;
    last_updated_at = now;
  }

  unfoldable pub update_zone_radius :
      List (SensorRow Float)
      → GeoFence Float
      → GeoFence Float × List ZoneEvent × List (Spike Float) × Float
  unfolding spread
  update_zone_radius table zone =
      let new_radius : Float = diffusion_radius fl text zone.gas_type (elapsed zone) in
      let (zone', spikes) = spread table (grown zone new_radius) in
      if not (is_live zone)
      then (zone, [], [], radius_of fl around now zone)
      else if is_still zone new_radius
      then (zone, [], [], new_radius)
      else (zone', on_polygon_expanded zone ∷ [], spikes, new_radius)

  -- The pass over the zones and the number of live ones.
  unfoldable pub update_fences :
      List (SensorRow Float)
      → List (GeoFence Float)
      → List (GeoFence Float) × List ZoneEvent × List (Spike Float) × ℕ
  update_fences table [] = ([], [], [], 0)
  update_fences table (zone ∷ rest) =
      let (fences, events, spikes, count) = update_fences table rest in
      let (zone', new, more, radius) = update_zone_radius table zone in
      if is_live zone
      then (zone' ∷ fences, new ++ events, more ++ spikes, suc count)
      else (zone ∷ fences, events, spikes, count)

  unfoldable pub update_all_active_zones :
      List (SensorRow Float) → Zones Float → Zones Float × List (Spike Float) × ℕ
  unfolding update_fences
  update_all_active_zones table st =
      let (fences, events, spikes, count) = update_fences table st.fences in
      (record { fences = fences; events = st.events ++ events }, spikes, count)
