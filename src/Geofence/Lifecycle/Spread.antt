-- ===== src/Geofence/Lifecycle/Spread.antt =====
-- SenSa/geofence/zone_lifecycle.py: `_detect_and_spike_new_sensors_in_scenario_zone`, the sensors
-- that a scenario's zone has come to hold. A spike is the arguments of one `sustain_spike_task`; the
-- queue takes each.
use text.Mathlib.Text.{starts_with}
use sen_sa.Prelude.{
  ℕ, ◌+◌, ◌-◌, Bool, not, ◌&&◌, ◌||◌, Option, none, some, List, [], ◌∷◌, ◌++◌, map, String, ltb,
  ◌==◌, select, if◌then◌else◌,
}
use sen_sa.Prelude.Float.{FloatOps}
use sen_sa.Prelude.Text.{str_eq}
use sen_sa.Alerts.Types.{Status, same_status}
use sen_sa.Alerts.Fences.{first}
use sen_sa.Geofence.Zone.{GeoFence, Device, TriggerSource}
use sen_sa.Geofence.Polygon.{point_in_polygon}
use sen_sa.Geofence.Anomaly.{SensorRow}
use sen_sa.Geofence.Lifecycle.Check.{is_member}

pub record Spike (F : Type 0) : Type 0 where
  pub zone : ℕ
  pub sensor : ℕ
  pub gas : String
  pub spike_value : F
  pub noise : F
  pub interval : F
  pub max_steps : ℕ
  pub step : ℕ
  pub base_value : F
  pub half_life : F

pub record ScenarioParams (F : Type 0) : Type 0 where
  pub spike : F
  pub noise : F
  pub ttl : F

-- `trigger_source.replace('scenario_op_', '')` of a scenario's zone
abbrev pub name_key : TriggerSource → String
name_key (TriggerSource.scenario_op name) = name
name_key _ = ""

module _ (fl : FloatOps) (now : ℕ) where
  open fl use {Float, flt, fle, fadd, fsub, fmul, fdiv, feq, lit, fint, fhypot}

  unfoldable pub scenario_params : (name : String) → ScenarioParams Float
  scenario_params name =
      if str_eq name "op_multi"
      then record { spike = lit 70 1; noise = lit 7 1; ttl = lit 120 1 }
      else if str_eq name "op_single"
      then record { spike = lit 50 1; noise = lit 5 1; ttl = lit 90 1 }
      else if str_eq name "op_h2s"
      then record { spike = lit 30 1; noise = lit 3 1; ttl = lit 90 1 }
      else record { spike = lit 50 1; noise = lit 5 1; ttl = lit 90 1 }

  abbrev pub min_spike_ratio : Float
  min_spike_ratio = lit 4 10

  abbrev pub spike_interval_sec : Float
  spike_interval_sec = lit 5 10

  -- `value or default`
  abbrev pub or_default : Option Float → Float → Float
  or_default none default = default
  or_default (some v) default = if feq v (lit 0 1) then default else v

  -- An active gas sensor that is not a scenario's own, that the zone does not know and whose place
  -- it holds.
  unfoldable pub is_new_sensor : GeoFence Float → (source : ℕ) → Device Float → Bool
  is_new_sensor zone source d =
      str_eq d.sensor_type "gas"
      && d.is_active
      && not (starts_with d.device_id "sensa_scenario_")
      && not (is_member zone.confirmed_devices d.id || d.id == source)
      && point_in_polygon fl d.x d.y zone.polygon

  abbrev pub max : Float → Float → Float
  max a b = if flt a b then b else a

  unfoldable pub target_spike : (spike radius : Float) → Device Float → Device Float → Float
  target_spike spike radius source d =
      let dist : Float = fhypot (fsub d.x source.x) (fsub d.y source.y) in
      let proximity : Float = max (lit 0 1) (fsub (lit 1 1) (fdiv dist radius)) in
      let ratio : Float = fadd min_spike_ratio (fmul (fsub (lit 1 1) min_spike_ratio) proximity) in
      fmul spike ratio

  -- The newest normal row's value of the gas; the rows stand newest first.
  unfoldable pub last_normal : List (SensorRow Float) → (gas : String) → (device : ℕ) → Option Float
  last_normal table gas device =
      elim (first fl
        (λ (row : SensorRow Float). row.device == device && same_status row.status Status.normal)
        table) [ none ↦ none | some row ↦ row.value gas ]

  unfoldable pub base_value : Option Float → (target : Float) → Float
  base_value none target = fmul target (lit 3 10)
  base_value (some v) target = if fle target v then fmul target (lit 3 10) else v

  abbrev pub gas_or_co : String → String
  gas_or_co gas = if str_eq gas "" then "co" else gas

  unfoldable pub remaining_sec : GeoFence Float → (ttl : Float) → Float
  remaining_sec zone ttl = elim zone.expires_at [ none ↦ ttl | some t ↦ lit (t - now) 1000000 ]

  -- `max(10, int(remaining_sec / SPIKE_INTERVAL_SEC) + 10)`; a time past counts as 0.
  unfoldable pub max_steps : (remaining : Float) → ℕ
  max_steps remaining =
      let steps : ℕ = fint (fdiv remaining spike_interval_sec) + 10 in
      if ltb 10 steps then steps else 10

  unfoldable pub spike_for :
      List (SensorRow Float) → GeoFence Float → (source d : Device Float) → Spike Float
  spike_for table zone source d =
      let params : ScenarioParams Float = scenario_params (name_key zone.trigger_source) in
      let target : Float =
        target_spike params.spike (or_default zone.current_radius_px (lit 400 1)) source d in
      record {
        zone = zone.id;
        sensor = d.id;
        gas = gas_or_co zone.gas_type;
        spike_value = target;
        noise = params.noise;
        interval = spike_interval_sec;
        max_steps = max_steps (remaining_sec zone params.ttl);
        step = 0;
        base_value = base_value (last_normal table (gas_or_co zone.gas_type) d.id) target;
        half_life = lit 30 1;
      }

  unfoldable pub find_device : List (Device Float) → Option ℕ → Option (Device Float)
  find_device devices none = none
  find_device devices (some id) = first fl (λ (d : Device Float). d.id == id) devices

  abbrev pub ids_of : List (Device Float) → List ℕ
  ids_of devices = map (λ (d : Device Float). d.id) devices

  unfoldable pub detect_and_spike :
      List (Device Float)
      → List (SensorRow Float)
      → GeoFence Float
      → GeoFence Float × List (Spike Float)
  detect_and_spike devices table zone = elim (find_device devices zone.source_device) [
    | none ↦ (zone, [])
    | some source ↦ elim zone.polygon [
      | [] ↦ (zone, [])
      | _ ∷ _ ↦
          let found : List (Device Float) = select (is_new_sensor zone source.id) devices in
          (
            record zone { confirmed_devices = ids_of found ++ zone.confirmed_devices },
            map (spike_for table zone source) found,
          )
    ]
  ]
