-- ===== src/Geofence/Lifecycle/TickExamples.antt =====
-- A tick on a leak and on the square, and the growth of the leak.
use sen_sa.Prelude.{ℕ, ◌≡◌, refl, true, false, some, List, [], ◌∷◌, All, arith, ltb}
use sen_sa.Prelude.Sample.{naturals}
use sen_sa.Prelude.Text.{Casing}
use sen_sa.Alerts.Samples.{gas_sensor, square}
use sen_sa.Geofence.Zone.{GeoFence, Tier, TriggerSource}
use sen_sa.Geofence.Hull.{build_zone_polygon}
use sen_sa.Geofence.Lifecycle.Rows.{Surroundings, Zones}
use sen_sa.Geofence.Lifecycle.Tick.{Plant, tick}
use sen_sa.Geofence.Lifecycle.Bounds.{IsFit, tick-IsFit}

abbrev leak : GeoFence ℕ
leak = record square {
  id = 9;
  is_dynamic = true;
  source_device = some 3;
  gas_type = "co";
  tier = Tier.tentative;
  current_radius_px = some 40;
  trigger_source = TriggerSource.threshold;
  expires_at = some 300000000;
}

abbrev same_case : Casing
same_case = record { lower = λ s. s; upper = λ s. s }

abbrev average : List ℕ → ℕ
average values = 0

abbrev plant : Plant naturals same_case average
plant = record {
  devices = gas_sensor ∷ [];
  readings = [];
  neighbours = record { loaded = false; edges = [] };
}

abbrev zones : Zones ℕ
zones = record { fences = leak ∷ square ∷ []; events = [] }

ltb_irreflexive : (a : ℕ) → ltb a a ≡ false
ltb_irreflexive a = ground arith

tick-IsFit_example :
    All
      (IsFit naturals ltb_irreflexive same_case 60000000)
      (tick naturals same_case average plant 60000000 zones true).0.fences
tick-IsFit_example =
    tick-IsFit naturals ltb_irreflexive same_case average plant 60000000 zones true (refl, (tt, tt))

abbrev around : Surroundings ℕ
around = record {
  devices = gas_sensor ∷ [];
  build_zone_polygon = build_zone_polygon naturals;
  neighbours_within = λ source radius. [];
  has_anomaly = λ device gas. false;
}
