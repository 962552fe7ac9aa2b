-- ===== src/Geofence/Lifecycle/Check.antt =====
-- SenSa/geofence/zone_lifecycle.py: `check_tier_upgrade` and the pass over all zones.
use sen_sa.Prelude.{
  ℕ, suc, ◌+◌, Bool, true, false, not, ◌&&◌, ◌||◌, Option, none, some, List, [], ◌∷◌, ◌++◌, map,
  leb, ◌==◌, any, select, length, if◌then◌else◌,
}
use sen_sa.Prelude.Float.{FloatOps}
use sen_sa.Geofence.Zone.{GeoFence, Device, RiskLevel, Tier, TriggerSource, same_tier}
use sen_sa.Geofence.Lifecycle.Rows.{
  EventType, Surroundings, ZoneEvent, Zones, is_live, min_confirming_for_confirmed,
  min_confirming_for_critical, polygon_expanded, tier_ttl, upgraded_to_confirmed,
  upgraded_to_critical,
}

pub data Outcome : Type 0 where
  to_confirmed to_critical unchanged : Outcome

abbrev pub add_outcome : Outcome → Option (ℕ × ℕ) → Option (ℕ × ℕ)
add_outcome outcome none = none
add_outcome to_confirmed (some (confirmed, critical)) = some (suc confirmed, critical)
add_outcome to_critical (some (confirmed, critical)) = some (confirmed, suc critical)
add_outcome unchanged (some counts) = some counts

abbrev pub is_scenario : TriggerSource → Bool
is_scenario (TriggerSource.scenario_op _) = true
is_scenario _ = false

abbrev pub is_member : List ℕ → ℕ → Bool
is_member ids n = any (λ m. m == n) ids

module _ (fl : FloatOps) (around : Surroundings fl.Float) (now : ℕ) where
  open fl use {Float, flt, fle, lit}

  abbrev pub radius_of : GeoFence Float → Float
  radius_of zone = elim zone.current_radius_px [ some r ↦ r | none ↦ lit 0 1 ]

  abbrev pub place : Device Float → Float × Float
  place device = (device.x, device.y)

  -- A zone whose source is gone keeps its polygon.
  unfoldable pub rebuild_polygon : GeoFence Float → GeoFence Float
  rebuild_polygon zone = elim zone.source_device [
    | none ↦ zone
    | some source ↦
        let centers =
          map place (select (λ (d : Device Float). d.id == source) around.devices)
          ++ map place (
              select (λ (d : Device Float). is_member zone.confirmed_devices d.id)
                around.devices) in
        record zone { polygon = around.build_zone_polygon centers (radius_of zone) }
  ]

  abbrev pub on_tier_upgraded : GeoFence Float → Tier → EventType → Tier → ZoneEvent
  on_tier_upgraded zone from_tier kind to_tier = record {
    zone = zone.id;
    event_type = kind;
    from_tier = from_tier;
    to_tier = to_tier;
  }

  unfoldable pub upgrade_to_confirmed : GeoFence Float → GeoFence Float × List ZoneEvent
  upgrade_to_confirmed zone = (
    record (rebuild_polygon (record zone {
      tier = Tier.confirmed;
      expires_at = some (now + tier_ttl Tier.confirmed);
    })) { last_updated_at = now },
    on_tier_upgraded zone zone.tier upgraded_to_confirmed Tier.confirmed ∷ [],
  )

  unfoldable pub upgrade_to_critical : GeoFence Float → GeoFence Float × List ZoneEvent
  upgrade_to_critical zone = (
    record (rebuild_polygon (record zone {
      tier = Tier.critical;
      risk_level = RiskLevel.critical;
      expires_at = some (now + tier_ttl Tier.critical);
    })) { last_updated_at = now },
    on_tier_upgraded zone zone.tier upgraded_to_critical Tier.critical ∷ [],
  )

  -- `confirmed_devices.add`, which keeps a set
  unfoldable pub add_devices : List ℕ → List (Device Float) → List ℕ
  add_devices ids [] = ids
  add_devices ids (d ∷ rest) = add_devices (if is_member ids d.id then ids else d.id ∷ ids) rest

  abbrev pub newly_confirmed : GeoFence Float → List (Device Float) → List (Device Float)
  newly_confirmed zone candidates =
      select
        (λ d. not (is_member zone.confirmed_devices d.id) && around.has_anomaly d zone.gas_type)
        candidates

  -- What the number of confirming devices makes of the zone; `found` says if there are new ones.
  unfoldable pub decide_tier :
      GeoFence Float → (found : Bool) → GeoFence Float × List ZoneEvent × Outcome
  decide_tier zone found =
      if leb min_confirming_for_critical (length zone.confirmed_devices)
      then (let (z, events) = upgrade_to_critical zone in (z, events, to_critical))
      else if same_tier zone.tier Tier.tentative
          && leb min_confirming_for_confirmed (length zone.confirmed_devices)
      then (let (z, events) = upgrade_to_confirmed zone in (z, events, to_confirmed))
      else if found
      then (
        record (rebuild_polygon zone) { last_updated_at = now },
        record {
          zone = zone.id;
          event_type = polygon_expanded;
          from_tier = Tier.static;
          to_tier = zone.tier;
        }
            ∷ [],
        unchanged,
      )
      else (zone, [], unchanged)

  abbrev pub is_empty : List (Device Float) → Bool
  is_empty [] = true
  is_empty (_ ∷ _) = false

  unfoldable pub confirm_by :
      GeoFence Float → List (Device Float) → GeoFence Float × List ZoneEvent × Outcome
  confirm_by zone candidates =
      let found = newly_confirmed zone candidates in
      if is_empty candidates
      then (zone, [], unchanged)
      else decide_tier
          (record zone { confirmed_devices = add_devices zone.confirmed_devices found })
          (not (is_empty found))

  -- `none` is the AttributeError of `zone.source_device.id` where the source is null.
  unfoldable pub check_tier_upgrade :
      GeoFence Float → Option (GeoFence Float × List ZoneEvent × Outcome)
  check_tier_upgrade zone =
      if not zone.is_active
        || not zone.is_dynamic
        || is_scenario zone.trigger_source
        || same_tier zone.tier Tier.critical
        || fle (radius_of zone) (lit 0 1)
      then some (zone, [], unchanged)
      else elim zone.source_device [
        | none ↦ none
        | some source ↦ some (confirm_by zone (around.neighbours_within source (radius_of zone)))
      ]

  -- The pass over the zones: what it saved, and the two counts it returns if it comes to its end.
  unfoldable pub check_fences :
      List (GeoFence Float) → List (GeoFence Float) × List ZoneEvent × Option (ℕ × ℕ)
  check_fences [] = ([], [], some (0, 0))
  check_fences (zone ∷ rest) =
      let (fences, events, counts) = check_fences rest in
      if not (is_live zone) || same_tier zone.tier Tier.critical
      then (zone ∷ fences, events, counts)
      else elim (check_tier_upgrade zone) [
        | none ↦ (zone ∷ rest, [], none)
        | some (z, new, outcome) ↦ (z ∷ fences, new ++ events, add_outcome outcome counts)
      ]

  unfoldable pub check_all_active_zones_upgrade : Zones Float → Zones Float × Option (ℕ × ℕ)
  check_all_active_zones_upgrade st =
      let (fences, events, counts) = check_fences st.fences in
      (record { fences = fences; events = st.events ++ events }, counts)
