-- ===== src/Geofence/AutoTrigger.antt =====
-- SenSa/geofence/auto_trigger.py: a gas reading that turns to danger makes a dynamic zone. The code
-- absorbs every exception; one of the cache is that of `add`, and the database answers.
pub mod Triggering
use sen_sa.Prelude.{
  ℕ, Bool, true, false, not, ◌&&◌, ◌||◌, Option, none, some, List, [], ◌∷◌, String, ◌==◌, any,
  if◌then◌else◌,
}
use sen_sa.Prelude.Float.{FloatOps}
use sen_sa.Prelude.Text.{Casing, str_eq, ◌++◌ as text_append}
use sen_sa.Alerts.Types.{Status, same_status}
use sen_sa.Alerts.Classify.{gas_thresholds}
use sen_sa.Geofence.Zone.{GeoFence, Device, RiskLevel, TriggerSource}
use sen_sa.Geofence.Lifecycle.Rows.{Zones, is_live}
use sen_sa.Geofence.Lifecycle.Create.{ZoneRequest, create_dynamic_zone}
use sen_sa.Devices.Gate.{Cache, add}

-- `AUTO_ZONE_GATE_SEC`
abbrev pub auto_zone_gate : ℕ
auto_zone_gate = 60000000

abbrev pub is_excluded : String → Bool
is_excluded key = str_eq key "o2"

module _ (fl : FloatOps) (text : Casing) where
  open fl use {Float, flt, fle, fdiv, lit}

  -- One round of the loop over the values: the worst key so far with its ratio.
  unfoldable pub worse_gas :
      Option String × Float → (key : String) → Option Float → Option String × Float
  worse_gas worst key none = worst
  worse_gas worst key (some v) = if is_excluded key then worst else elim (gas_thresholds fl key) [
    | none ↦ worst
    | some (caution, danger) ↦
        let ratio : Float = fdiv v danger in
        if fle (lit 1 1) ratio && flt worst.1 ratio then (some key, ratio) else worst
  ]

  unfoldable pub worst_danger_gas_from :
      Option String × Float → List (String × Option Float) → Option String
  worst_danger_gas_from worst [] = worst.0
  worst_danger_gas_from worst ((key, value) ∷ rest) =
      worst_danger_gas_from (worse_gas worst key value) rest

  unfoldable pub worst_danger_gas : List (String × Option Float) → Option String
  worst_danger_gas gas_values = worst_danger_gas_from (none, lit 0 1) gas_values

  abbrev pub gate_key : Device Float → (gas : String) → String
  gate_key device gas = text_append "autozone:" (text_append device.device_id (text_append ":" gas))

  abbrev pub is_source : Option ℕ → ℕ → Bool
  is_source none id = false
  is_source (some n) id = n == id

  -- A live dynamic zone of the same device and gas.
  unfoldable pub is_zone_of : (device : ℕ) (gas : String) → GeoFence Float → Bool
  is_zone_of device gas zone =
      is_source zone.source_device device && str_eq zone.gas_type gas && is_live zone

  abbrev pub request_for : Device Float → (gas : String) → ZoneRequest
  request_for device gas = record {
    gas_type = gas;
    trigger_source = TriggerSource.threshold;
    label = "threshold";
    risk_level = RiskLevel.high;
    name = some (
        text_append "[자동] " (
          text_append device.device_id
            (text_append " " (text_append (text.upper gas) " 임계초과 확산"))));
  }

  unfoldable pub make_unless_present :
      Zones Float
      → (id now : ℕ) → Device Float
      → (gas : String) → Zones Float × Option (GeoFence Float)
  make_unless_present st id now device gas =
      let (st', zone) = create_dynamic_zone fl text st id now device (request_for device gas) in
      if any (is_zone_of device.id gas) st.fences then (st, none) else (st', some zone)

  unfoldable pub trigger_for :
      Cache
      → Zones Float
      → (id now : ℕ) → Device Float
      → (gas : String) → Cache × Zones Float × Option (GeoFence Float)
  trigger_for c st id now device gas =
      let (c', passed) = add c now (gate_key device gas) auto_zone_gate true in
      let (st', zone) = make_unless_present st id now device gas in
      if passed then (c', st', zone) else (c', st, none)

  unfoldable pub maybe_trigger_zone :
      Cache
      → Zones Float
      → (id now : ℕ) → Device Float
      → List (String × Option Float)
      → (observed_status prev_status : Status) → Cache × Zones Float × Option (GeoFence Float)
  maybe_trigger_zone c st id now device gas_values observed_status prev_status =
      if not (same_status observed_status Status.danger) || same_status prev_status Status.danger
      then (c, st, none)
      else elim (worst_danger_gas gas_values) [
        | none ↦ (c, st, none)
        | some gas ↦ trigger_for c st id now device gas
      ]
