-- ===== src/Geofence/Lifecycle/Growth.antt =====
-- What an update of the radius makes of a zone's shape.
use sen_sa.Prelude.{
  ℕ, ◌≡◌, refl, ap, ◌∙◌, inl, inr, true, false, some, List, [], arith, Option-cases,
}
use sen_sa.Prelude.Float.{FloatOps}
use sen_sa.Prelude.Text.{Casing}
use sen_sa.Geofence.Zone.{GeoFence, Device}
use sen_sa.Geofence.Hull.{circle_polygon, circle_polygon_points}
use sen_sa.Geofence.Diffusion.{diffusion_radius}
use sen_sa.Geofence.Anomaly.{SensorRow}
use sen_sa.Geofence.Lifecycle.Rows.{Surroundings, is_live}
use sen_sa.Geofence.Lifecycle.Check.{is_scenario, rebuild_polygon}
use sen_sa.Geofence.Lifecycle.Spread.{detect_and_spike, find_device}
use sen_sa.Geofence.Lifecycle.Grow.{
  elapsed, grown, has_radius, is_still, reshape, reshape_scenario, spread, transition_elapsed_sec,
  update_zone_radius,
}

module _ (fl : FloatOps) (text : Casing) (around : Surroundings fl.Float) (now : ℕ) where
  open fl use {Float, flt}

  reshape_plain :
      (zone : GeoFence Float) (new_radius : Float)
      → is_scenario zone.trigger_source ≡ false
      → reshape fl text around now zone new_radius ≡ rebuild_polygon fl around now zone
  unfolding reshape rebuild_polygon
  reshape_plain zone new_radius plain =
      elim (Option-cases (find_device fl now around.devices zone.source_device)) [
        | inl gone ↦ rw (reshape, gone) refl
        | inr (source, has) ↦ rw (reshape, has, plain) refl
      ]

  trigger_source-reshape :
      (zone : GeoFence Float) (new_radius : Float)
      → (reshape fl text around now zone new_radius).trigger_source ≡ zone.trigger_source
  unfolding reshape reshape_scenario rebuild_polygon
  trigger_source-reshape zone new_radius =
      ground (arith, find_device fl now around.devices zone.source_device)

  spread_plain :
      (table : List (SensorRow Float)) (zone : GeoFence Float)
      → is_scenario zone.trigger_source ≡ false
      → spread fl text around now table zone ≡ (zone, [])
  unfolding spread
  spread_plain table zone plain = rw plain refl

  -- The update of a live zone that is no scenario's and whose radius changes by half a pixel or
  -- more: it has the radius of its age, but its polygon is the one that the radius from before the
  -- update gives.
  pub update_zone_radius_lags :
      (table : List (SensorRow Float)) (zone : GeoFence Float)
      → is_live zone ≡ true
      → is_scenario zone.trigger_source ≡ false
      → is_still fl text around now zone
          (diffusion_radius fl text zone.gas_type (elapsed fl text around now zone))
        ≡ false
      → let zone' = (update_zone_radius fl text around now table zone).0 in
        (zone'.polygon ≡ (rebuild_polygon fl around now zone).polygon)
        × (zone'.current_radius_px
            ≡ some (diffusion_radius fl text zone.gas_type (elapsed fl text around now zone)))
  unfolding update_zone_radius
  update_zone_radius_lags table zone live plain changed =
      let new_radius : Float =
        diffusion_radius fl text zone.gas_type (elapsed fl text around now zone) in
      rw
        (
          live,
          changed,
          spread_plain table (grown fl text around now zone new_radius)
              (ap is_scenario (trigger_source-reshape zone new_radius) ∙ plain),
        )
        (ap (λ z. z.polygon) (reshape_plain zone new_radius plain), refl)

  -- The update of a live scenario zone with a radius that changes by half a pixel or more: when the
  -- zone is over two minutes old its polygon is the circle of the new radius around the source.
  pub update_zone_radius_round :
      (table : List (SensorRow Float)) (zone : GeoFence Float) (source : Device Float)
      → is_live zone ≡ true
      → is_scenario zone.trigger_source ≡ true
      → has_radius fl text around now zone ≡ true
      → find_device fl now around.devices zone.source_device ≡ some source
      → flt (transition_elapsed_sec fl text around now) (elapsed fl text around now zone) ≡ true
      → is_still fl text around now zone
          (diffusion_radius fl text zone.gas_type (elapsed fl text around now zone))
        ≡ false
      → (update_zone_radius fl text around now table zone).0.polygon
        ≡ circle_polygon fl source.x source.y
            (diffusion_radius fl text zone.gas_type (elapsed fl text around now zone))
            circle_polygon_points
  unfolding update_zone_radius spread reshape reshape_scenario detect_and_spike
  update_zone_radius_round table zone source live scenario sized has old changed =
      ground (arith, live, scenario, sized, has, old, changed)
