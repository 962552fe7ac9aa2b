-- ===== src/Alerts/Classify.antt =====
-- SenSa/alerts/services/classifiers.py: the status of a reading. A dict is a list in the order of
-- its keys. `statistics.median` is a parameter, and the values are numbers already.
pub mod Worst
pub mod Power
pub mod Examples
use sen_sa.Prelude.{
  ℕ, ◌-◌, Bool, true, false, not, ◌&&◌, ◌||◌, Option, none, some, List, [], ◌∷◌, String, ltb, leb,
  length, select, if◌then◌else◌,
}
use sen_sa.Prelude.Float.{FloatOps}
use sen_sa.Prelude.Text.{str_eq}
use sen_sa.Alerts.Types.{Status, same_status}

-- A row of `SensorData` for the power sensors.
pub record WattRow (F : Type 0) : Type 0 where
  pub device_id : String
  pub timestamp : ℕ
  pub watt : Option F

-- The power dict after its defaults: 0 W, 220 V and 0 A.
pub record PowerReading (F : Type 0) : Type 0 where
  pub watt : F
  pub voltage : F
  pub current : F

-- 24 hours in microseconds, and `_POWER_MIN_SAMPLES`
abbrev pub lookback : ℕ
lookback = 86400000000

abbrev pub power_min_samples : ℕ
power_min_samples = 180

module _ (fl : FloatOps) where
  open fl use {Float, flt, fle, feq, fmul, lit}

  -- `GAS_THRESHOLDS`: caution and danger
  unfoldable pub gas_thresholds : String → Option (Float × Float)
  gas_thresholds key =
      if str_eq key "co"
      then some (lit 25 1, lit 200 1)
      else if str_eq key "h2s"
      then some (lit 10 1, lit 50 1)
      else if str_eq key "co2"
      then some (lit 1000 1, lit 5000 1)
      else if str_eq key "no2"
      then some (lit 3 1, lit 5 1)
      else if str_eq key "so2"
      then some (lit 2 1, lit 5 1)
      else if str_eq key "o3"
      then some (lit 5 100, lit 1 10)
      else if str_eq key "nh3"
      then some (lit 25 1, lit 50 1)
      else if str_eq key "voc"
      then some (lit 5 10, lit 2 1)
      else none

  -- What one value does to the worst status so far; `none` is the early `return 'danger'`.
  unfoldable pub gas_step : (worst : Status) (key : String) → Option Float → Option Status
  gas_step worst key none = some worst
  gas_step worst key (some v) =
      if str_eq key "o2"
      then (if flt v (lit 16 1) || fle (lit 235 10) v
          then none
          else if flt v (lit 18 1) || flt (lit 215 10) v
          then some Status.caution
          else some worst)
      else elim (gas_thresholds key) [
        | none ↦ some worst
        | some (caution, danger) ↦
            if fle danger v
            then none
            else if fle caution v && same_status worst Status.normal
            then some Status.caution
            else some worst
      ]

  unfoldable pub classify_gas_from : (worst : Status) → List (String × Option Float) → Status
  classify_gas_from worst [] = worst
  classify_gas_from worst ((key, value) ∷ rest) = elim (gas_step worst key value) [
    | none ↦ Status.danger
    | some worst' ↦ classify_gas_from worst' rest
  ]

  unfoldable pub classify_gas : List (String × Option Float) → Status
  classify_gas gas = classify_gas_from Status.normal gas

  abbrev pub is_sample : (now : ℕ) (device_id : String) → WattRow Float → Bool
  is_sample now device_id row =
      str_eq row.device_id device_id
      && leb (now - lookback) row.timestamp
      && elim row.watt [ none ↦ false | some _ ↦ true ]

  unfoldable pub watts : List (WattRow Float) → List Float
  watts [] = []
  watts (row ∷ rest) = elim row.watt [ none ↦ watts rest | some v ↦ v ∷ watts rest ]

  unfoldable pub get_24h_avg_watt :
      (median : List Float → Float)
      → List (WattRow Float)
      → (now : ℕ) (device_id : String) → Option Float
  get_24h_avg_watt median table now device_id =
      let values = watts (select (is_sample now device_id) table) in
      if ltb (length values) power_min_samples then none else some (median values)

  -- `_POWER_CAUTION_MULT` and `_POWER_DANGER_MULT`
  abbrev pub power_caution_mult : Float
  power_caution_mult = fmul (lit 15 10) (lit 11 10)

  abbrev pub power_danger_mult : Float
  power_danger_mult = fmul (lit 15 10) (lit 15 10)

  unfoldable pub fixed_status : PowerReading Float → Status
  fixed_status p =
      if fle (lit 25 1) p.current || fle (lit 4500 1) p.watt
      then Status.danger
      else if fle (lit 15 1) p.current || fle (lit 3000 1) p.watt
      then Status.caution
      else Status.normal

  unfoldable pub dynamic_status : (avg : Float) → PowerReading Float → Status
  dynamic_status avg p =
      if flt (fmul avg power_danger_mult) p.watt
      then Status.danger
      else if flt (fmul avg power_caution_mult) p.watt
      then Status.caution
      else Status.normal

  -- `avg and avg > 0`
  abbrev pub is_usable_avg : Float → Bool
  is_usable_avg avg = not (feq avg (lit 0 1)) && flt (lit 0 1) avg

  unfoldable pub classify_power :
      (median : List Float → Float)
      → List (WattRow Float)
      → (now : ℕ) → PowerReading Float
      → (device_id : String) → Status
  classify_power median table now p device_id =
      if flt p.voltage (lit 200 1) || flt (lit 240 1) p.voltage
      then Status.danger
      else if str_eq device_id ""
      then fixed_status p
      else elim (get_24h_avg_watt median table now device_id) [
        | none ↦ fixed_status p
        | some avg ↦ if is_usable_avg avg then dynamic_status avg p else fixed_status p
      ]
