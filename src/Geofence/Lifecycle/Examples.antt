-- ===== src/Geofence/Lifecycle/Examples.antt =====
-- A zone around a leak, and what the passes make of it.
use sen_sa.Prelude.{ℕ, ◌≡◌, refl, true, Option, none, some, List, [], ◌∷◌}
use sen_sa.Prelude.Sample.{naturals}
use sen_sa.Alerts.Types.{Status}
use sen_sa.Alerts.Samples.{square, gas_sensor}
use sen_sa.Geofence.Zone.{GeoFence, Device, Tier, TriggerSource}
use sen_sa.Geofence.Lifecycle.Rows.{StatusRow, Surroundings, ZoneEvent, Zones}
use sen_sa.Geofence.Lifecycle.Expire.{expire_zones, retire_where}
use sen_sa.Geofence.Lifecycle.Check.{
  Outcome, add_devices, check_tier_upgrade, confirm_by, decide_tier, rebuild_polygon, to_critical,
  upgrade_to_critical,
}

abbrev leak : GeoFence ℕ
leak = record square {
  is_dynamic = true;
  source_device = some 3;
  gas_type = "co";
  tier = Tier.tentative;
  current_radius_px = some 40;
  trigger_source = TriggerSource.threshold;
  expires_at = some 300000000;
}

abbrev orphan : GeoFence ℕ
orphan = record leak { id = 8; source_device = none }

abbrev zones : Zones ℕ
zones = record { fences = leak ∷ square ∷ []; events = [] }

abbrev sensor : ℕ → Device ℕ
sensor id = record gas_sensor { id = id }

-- Three neighbours, all of which see the gas.
abbrev around : Surroundings ℕ
around = record {
  devices = sensor 3 ∷ sensor 4 ∷ sensor 5 ∷ sensor 6 ∷ [];
  build_zone_polygon = λ centers radius. centers;
  neighbours_within = λ source radius. sensor 4 ∷ sensor 5 ∷ sensor 6 ∷ [];
  has_anomaly = λ device gas. true;
}

abbrev outcome_of : Option (GeoFence ℕ × List ZoneEvent × Outcome) → Option Outcome
outcome_of none = none
outcome_of (some (z, events, outcome)) = some outcome

three_make_it_critical :
    outcome_of (check_tier_upgrade naturals around 10000000 leak) ≡ some to_critical
unfolding check_tier_upgrade confirm_by decide_tier add_devices upgrade_to_critical rebuild_polygon
three_make_it_critical = refl

one_expires : (expire_zones zones 300000000).1 ≡ 1
unfolding expire_zones retire_where
one_expires = refl

abbrev normal_row : StatusRow
normal_row = record { device = 3; status = Status.normal }

abbrev table : List StatusRow
table = normal_row ∷ normal_row ∷ normal_row ∷ normal_row ∷ normal_row ∷ []
