-- ===== src/Geofence/Lifecycle/Tiers.antt =====
-- When the tier of a zone rises, and what a zone without a source does to the pass.
use sen_sa.Prelude.{
  ℕ, ◌+◌, ◌≤◌, ◌≡◌, ◌⊎◌, Bool, true, false, not, ◌&&◌, ◌||◌, Option, none, some, List, [], ◌∷◌,
  ◌++◌, arith, ◌==◌, any, length,
}
use sen_sa.Prelude.Float.{FloatOps}
use sen_sa.Geofence.Zone.{GeoFence, Device, RiskLevel, Tier, same_tier}
use sen_sa.Geofence.Lifecycle.Rows.{Surroundings, ZoneEvent, is_live}
use sen_sa.Geofence.Lifecycle.Check.{
  Outcome, check_all_active_zones_upgrade, check_fences, check_tier_upgrade, is_empty, is_member,
  is_scenario, radius_of,
}

-- The three ends of a check: the tier stays; it rises to confirmed from tentative with one
-- confirming device or two, for 30 minutes; it rises to critical with three or more, for 60. It
-- stays only if the zone was not `looked` at, or where there are two confirming devices at most, and
-- none if the zone is tentative.
abbrev pub IsRise : {F : Type 0} → (looked : Bool) → (now : ℕ) → GeoFence F → GeoFence F → Type 0
IsRise looked now old new =
    (new.tier ≡ old.tier)
      × (new.expires_at ≡ old.expires_at)
      × ((looked ≡ false)
          ⊎ (length new.confirmed_devices ≤ 2)
            × ((same_tier old.tier Tier.tentative ≡ false) ⊎ (length new.confirmed_devices ≡ 0)))
    ⊎ (looked ≡ true)
      × (old.tier ≡ Tier.tentative)
      × (new.tier ≡ Tier.confirmed)
      × (1 ≤ length new.confirmed_devices)
      × (length new.confirmed_devices ≤ 2)
      × (new.expires_at ≡ some (now + 1800000000))
    ⊎ (looked ≡ true)
      × (new.tier ≡ Tier.critical)
      × (new.risk_level ≡ RiskLevel.critical)
      × (3 ≤ length new.confirmed_devices)
      × (new.expires_at ≡ some (now + 3600000000))

module _ (fl : FloatOps) (around : Surroundings fl.Float) (now : ℕ) where
  open fl use {Float, fle, lit}

  -- A device with this id that sees the zone's gas.
  abbrev pub confirms : GeoFence Float → ℕ → Device Float → Bool
  confirms zone id d = d.id == id && around.has_anomaly d zone.gas_type

  -- What a check makes of a zone with these candidates.
  abbrev pub IsConfirmed :
      (looked : Bool) → GeoFence Float → List (Device Float) → GeoFence Float → Type 0
  IsConfirmed looked zone candidates new =
      IsRise looked now zone new
      × ((id : ℕ)
          → is_member new.confirmed_devices id
            ≡ (is_member zone.confirmed_devices id || looked && any (confirms zone id) candidates))

  -- A live zone below critical whose source device is gone.
  abbrev pub IsOrphan : GeoFence Float → Type 0
  IsOrphan zone =
      (is_live zone ≡ true)
      × (is_scenario zone.trigger_source ≡ false)
      × (same_tier zone.tier Tier.critical ≡ false)
      × (fle (radius_of fl around now zone) (lit 0 1) ≡ false)
      × (zone.source_device ≡ none)

  -- The devices within a zone's radius of its source.
  abbrev pub candidates_of : GeoFence Float → List (Device Float)
  candidates_of zone = elim zone.source_device [
    | none ↦ []
    | some source ↦ around.neighbours_within source (radius_of fl around now zone)
  ]

  -- A live zone below critical, not of a scenario, with a radius and with candidates.
  abbrev pub is_looked_at : GeoFence Float → Bool
  is_looked_at zone =
      is_live zone
      && (not (is_scenario zone.trigger_source)
          && (not (same_tier zone.tier Tier.critical)
              && (not (fle (radius_of fl around now zone) (lit 0 1))
                  && not (is_empty fl around now (candidates_of zone)))))

  -- The exception is for an orphan, any other end keeps or raises the tier.
  abbrev pub IsChecked :
      GeoFence Float → Option (GeoFence Float × List ZoneEvent × Outcome) → Type 0
  IsChecked zone none = IsOrphan zone
  IsChecked zone (some (new, events, outcome)) =
      IsConfirmed (is_looked_at zone) zone (candidates_of zone) new

  -- The guard of the check.
  is_passed_over : GeoFence Float → Bool
  is_passed_over zone =
      not zone.is_active
      || not zone.is_dynamic
      || is_scenario zone.trigger_source
      || same_tier zone.tier Tier.critical
      || fle (radius_of fl around now zone) (lit 0 1)

  -- A live zone whose source device is gone aborts the pass: it and all zones after it stay as they
  -- were, without an event, and the pass returns no counts.
  pub check_all_active_zones_upgrade_aborts :
      (zone : GeoFence Float) (rest : List (GeoFence Float)) (events : List ZoneEvent)
      → IsOrphan zone
      → check_all_active_zones_upgrade fl around now
          (record { fences = zone ∷ rest; events = events })
        ≡ (record { fences = zone ∷ rest; events = events ++ [] }, none)
  unfolding check_all_active_zones_upgrade check_fences check_tier_upgrade
  check_all_active_zones_upgrade_aborts zone rest events (live, free, low, wide, gone) =
      ground arith
