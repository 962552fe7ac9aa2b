-- ===== src/Geofence/Lifecycle/Bounds.antt =====
-- What a tick leaves behind: no zone above the greatest radius, no live zone past its time.
use mathlib.Core.Path.{subst}
use sen_sa.Prelude.{
  ℕ, ◌+◌, ◌≡◌, refl, ◌⊎◌, inl, inr, Bool, true, false, Option, none, some, List, [], ◌∷◌, map,
  arith, All, Option-cases,
}
use sen_sa.Prelude.Float.{FloatOps}
use sen_sa.Prelude.Text.{Casing}
use sen_sa.Geofence.Zone.{GeoFence, Device}
use sen_sa.Geofence.Diffusion.{diffusion_radius, diffusion_radius_le, r_max}
use sen_sa.Geofence.Anomaly.{SensorRow}
use sen_sa.Geofence.Lifecycle.Rows.{StatusRow, Surroundings, ZoneEvent, Zones}
use sen_sa.Geofence.Lifecycle.Expire.{
  expire_recovered_zones, expire_zones, is_due, is_recovered, retire, retire_where,
}
use sen_sa.Geofence.Lifecycle.Create.{ZoneRequest, create_dynamic_zone, new_zone}
use sen_sa.Geofence.Lifecycle.Check.{
  Outcome, add_devices, check_all_active_zones_upgrade, check_fences, check_tier_upgrade,
  confirm_by, decide_tier, newly_confirmed, radius_of, rebuild_polygon, upgrade_to_confirmed,
  upgrade_to_critical,
}
use sen_sa.Geofence.Lifecycle.Spread.{detect_and_spike, find_device}
use sen_sa.Geofence.Lifecycle.Grow.{
  elapsed, grown, reshape, reshape_scenario, spread, update_all_active_zones, update_fences,
  update_zone_radius,
}
use sen_sa.Geofence.Lifecycle.Tick.{Plant, status_row, surroundings, tick}

-- A pass that retires zones, zone by zone.
retire_where-All :
    {F : Type 0} (Q P : GeoFence F → Type 0) (chosen : GeoFence F → Bool) (now : ℕ)
    (fences : List (GeoFence F))
    → ((zone : GeoFence F) → Q zone → chosen zone ≡ true → P (retire now zone))
    → ((zone : GeoFence F) → Q zone → chosen zone ≡ false → P zone)
    → All Q fences
    → All P (retire_where chosen now fences).0
unfolding retire_where
retire_where-All Q P chosen now [] retired kept h = tt
retire_where-All Q P chosen now (zone ∷ rest) retired kept (hz, h) =
    let ih = retire_where-All Q P chosen now rest retired kept h in
    ground (arith, ih, retired zone hz, kept zone hz)

module _ (fl : FloatOps) (irreflexive : (a : fl.Float) → fl.flt a a ≡ false) (text : Casing) where
  open fl use {Float, flt}

  -- The zone's radius, if it has one, is not above the greatest.
  abbrev pub IsBounded : GeoFence Float → Type 0
  IsBounded zone = elim zone.current_radius_px [
    | none ↦ Unit
    | some r ↦ flt (r_max fl text) r ≡ false
  ]

  -- Its time has not come either, if it is live.
  abbrev pub IsFit : (now : ℕ) → GeoFence Float → Type 0
  IsFit now zone = IsBounded zone × (is_due now zone ≡ false)

  expire_zones-IsFit :
      (st : Zones Float) (now : ℕ)
      → All IsBounded st.fences
      → All (IsFit now) (expire_zones st now).0.fences
  unfolding expire_zones
  expire_zones-IsFit st now h =
      retire_where-All IsBounded (IsFit now) (is_due now) now st.fences
        (λ zone b due. (b, ground arith)) (λ zone b due. (b, due)) h

  expire_recovered_zones-IsFit :
      (st : Zones Float) (table : List StatusRow) (now : ℕ)
      → All (IsFit now) st.fences
      → All (IsFit now) (expire_recovered_zones st table now).0.fences
  unfolding expire_recovered_zones
  expire_recovered_zones-IsFit st table now h =
      retire_where-All (IsFit now) (IsFit now) (is_recovered table) now st.fences
        (λ zone fit due. (fit.0, ground (arith, fit.1))) (λ zone fit due. fit) h

  -- What of a zone decides whether it is due.
  abbrev IsSameClock : GeoFence Float → GeoFence Float → Type 0
  IsSameClock old new =
      (new.is_active ≡ old.is_active)
      × (new.is_dynamic ≡ old.is_dynamic)
      × (new.expires_at ≡ old.expires_at)

  module _ (around : Surroundings Float) (now : ℕ) where
    reshape-IsSameClock :
        (zone : GeoFence Float) (new_radius : Float)
        → IsSameClock zone (reshape fl text around now zone new_radius)
    unfolding reshape reshape_scenario rebuild_polygon
    reshape-IsSameClock zone new_radius =
        ground (arith, find_device fl now around.devices zone.source_device)

    detect_and_spike-keeps :
        (table : List (SensorRow Float)) (zone : GeoFence Float)
        → let zone' = (detect_and_spike fl now around.devices table zone).0 in
          IsSameClock zone zone' × (zone'.current_radius_px ≡ zone.current_radius_px)
    unfolding detect_and_spike
    detect_and_spike-keeps table zone = ground arith

    is_due-IsSameClock :
        (old new : GeoFence Float)
        → IsSameClock old new
        → is_due now old ≡ false
        → is_due now new ≡ false
    is_due-IsSameClock old new (active, dynamic, expiry) due = rw (active, dynamic, expiry) due

    grown-IsFit :
        (zone : GeoFence Float) (elapsed_sec : Float)
        → is_due now zone ≡ false
        → IsFit now
            (grown fl text around now zone (diffusion_radius fl text zone.gas_type elapsed_sec))
    grown-IsFit zone elapsed_sec due =
        let new_radius : Float = diffusion_radius fl text zone.gas_type elapsed_sec in
        (
          diffusion_radius_le fl text irreflexive zone.gas_type elapsed_sec,
          is_due-IsSameClock zone (grown fl text around now zone new_radius)
              (reshape-IsSameClock zone new_radius) due,
        )

    detect_and_spike-IsFit :
        (table : List (SensorRow Float)) (zone : GeoFence Float)
        → IsFit now zone
        → IsFit now (detect_and_spike fl now around.devices table zone).0
    detect_and_spike-IsFit table zone (bounded, due) =
        let (clock, radius) = detect_and_spike-keeps table zone in
        (
          rw (IsBounded, radius) bounded,
          is_due-IsSameClock zone (detect_and_spike fl now around.devices table zone).0 clock due,
        )

    update_zone_radius-IsFit :
        (table : List (SensorRow Float)) (zone : GeoFence Float)
        → IsFit now zone
        → IsFit now (update_zone_radius fl text around now table zone).0
    unfolding update_zone_radius spread
    update_zone_radius-IsFit table zone fit =
        let new : GeoFence Float =
          grown fl text around now zone
            (diffusion_radius fl text zone.gas_type (elapsed fl text around now zone)) in
        let grown_fit = grown-IsFit zone (elapsed fl text around now zone) fit.1 in
        ground (arith, fit, grown_fit, detect_and_spike-IsFit table new grown_fit)

    update_fences-IsFit :
        (table : List (SensorRow Float)) (fences : List (GeoFence Float))
        → All (IsFit now) fences
        → All (IsFit now) (update_fences fl text around now table fences).0
    unfolding update_fences
    update_fences-IsFit table [] h = tt
    update_fences-IsFit table (zone ∷ rest) (hz, h) =
        ground (arith, update_zone_radius-IsFit table zone hz, update_fences-IsFit table rest h)

    -- A check of the tier leaves the radius, and either the clock or a time to come.
    abbrev IsRaised : GeoFence Float → GeoFence Float → Type 0
    IsRaised old new =
        (new.current_radius_px ≡ old.current_radius_px)
        × (IsSameClock old new
            ⊎ (new.expires_at ≡ some (now + 1800000000))
            ⊎ (new.expires_at ≡ some (now + 3600000000)))

    decide_tier_raises :
        (zone : GeoFence Float) (found : Bool)
        → IsRaised zone (decide_tier fl around now zone found).0
    unfolding decide_tier upgrade_to_confirmed upgrade_to_critical rebuild_polygon
    decide_tier_raises zone found = ground arith

    confirm_by_raises :
        (zone : GeoFence Float) (candidates : List (Device Float))
        → IsRaised zone (confirm_by fl around now zone candidates).0
    unfolding confirm_by
    confirm_by_raises zone [] = (refl, inl (refl, refl, refl))
    confirm_by_raises zone (d ∷ ds) =
        let found = newly_confirmed fl around now zone (d ∷ ds) in
        decide_tier_raises
          (record zone {
            confirmed_devices = add_devices fl around now zone.confirmed_devices found;
          })
          _

    IsRaised-IsFit : (old new : GeoFence Float) → IsRaised old new → IsFit now old → IsFit now new
    IsRaised-IsFit old new (radius, inl clock) fit =
        (rw radius fit.0, is_due-IsSameClock old new clock fit.1)
    IsRaised-IsFit old new (radius, inr (inl later)) fit = (rw radius fit.0, ground (arith, later))
    IsRaised-IsFit old new (radius, inr (inr later)) fit = (rw radius fit.0, ground (arith, later))

    abbrev IsFitResult : Option (GeoFence Float × List ZoneEvent × Outcome) → Type 0
    IsFitResult none = Unit
    IsFitResult (some (new, events, outcome)) = IsFit now new

    check_tier_upgrade-IsFit :
        (zone : GeoFence Float)
        → IsFit now zone
        → IsFitResult (check_tier_upgrade fl around now zone)
    unfolding check_tier_upgrade
    check_tier_upgrade-IsFit zone fit = elim (Option-cases zone.source_device) [
      | inl gone ↦ ground (arith, gone)
      | inr (source, has) ↦
          let candidates = around.neighbours_within source (radius_of fl around now zone) in
          ground (
            arith,
            has,
            fit,
            IsRaised-IsFit zone (confirm_by fl around now zone candidates).0
                (confirm_by_raises zone candidates) fit,
          )
    ]

    check_fences-IsFit :
        (fences : List (GeoFence Float))
        → All (IsFit now) fences
        → All (IsFit now) (check_fences fl around now fences).0
    unfolding check_fences
    check_fences-IsFit [] h = tt
    check_fences-IsFit (zone ∷ rest) (hz, h) =
        elim (Option-cases (check_tier_upgrade fl around now zone)) [
          | inl failed ↦ ground (arith, failed, check_fences-IsFit rest h)
          | inr (found, ends) ↦
              let fit : IsFitResult (some found) =
                subst IsFitResult ends (check_tier_upgrade-IsFit zone hz) in
              ground (arith, ends, hz, fit, check_fences-IsFit rest h)
        ]

  -- After a tick on zones whose radii are not above 700 pixels, none is, and no live dynamic zone is
  -- at or past its time; with the check of the tiers or without it, and also where that check raises
  -- an exception. No number is taken to be below itself.
  pub tick-IsFit :
      (avg : List Float → Float) (plant : Plant fl text avg) (now : ℕ) (st : Zones Float)
      (check_upgrade : Bool)
      → All IsBounded st.fences
      → All (IsFit now) (tick fl text avg plant now st check_upgrade).0.fences
  unfolding tick update_all_active_zones check_all_active_zones_upgrade
  tick-IsFit avg plant now st check_upgrade h =
      let around : Surroundings Float = surroundings fl text avg plant now in
      let rows : List StatusRow = map (status_row fl text avg) plant.readings in
      let st1 : Zones Float = (expire_zones st now).0 in
      let st2 : Zones Float = (expire_recovered_zones st1 rows now).0 in
      let grown_fit =
        update_fences-IsFit around now plant.readings st2.fences
          (expire_recovered_zones-IsFit st1 rows now (expire_zones-IsFit st now h)) in
      ground (arith, grown_fit, check_fences-IsFit around now _ grown_fit)

  -- A zone that is made is no larger either, and is not due.
  pub create_dynamic_zone-IsFit :
      (st : Zones Float) (id now : ℕ) (device : Device Float) (request : ZoneRequest)
      → All (IsFit now) st.fences
      → All (IsFit now) (create_dynamic_zone fl text st id now device request).0.fences
  unfolding create_dynamic_zone new_zone
  create_dynamic_zone-IsFit st id now device request h =
      ((diffusion_radius_le fl text irreflexive request.gas_type _, ground arith), h)
