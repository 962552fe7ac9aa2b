-- ===== src/Devices/Ingest/Save.antt =====
-- SenSa/devices/views.py: `_save_gas` and `_save_power`. Their result says what the reading is
-- classified as and whether a row was saved; no result is an exception. The insertion of a row
-- succeeds.
use sen_sa.Prelude.{
  ℕ, Bool, true, false, not, Option, none, some, List, [], ◌∷◌, String, if◌then◌else◌,
}
use sen_sa.Prelude.Float.{FloatOps}
use sen_sa.Prelude.Text.{str_eq, ◌++◌ as text_append}
use sen_sa.Alerts.Types.{Status, same_status}
use sen_sa.Alerts.Classify.{PowerReading, classify_gas, classify_power}
use sen_sa.Alerts.Detectors.Arima.{Forecaster}
use sen_sa.Alerts.Detectors.Trend.{Forest}
use sen_sa.Geofence.Zone.{Device}
use sen_sa.Devices.Gate.{should_persist}
use sen_sa.Devices.Ingest.{Intake, RawPhase, Request, get_float, watt_rows}
use sen_sa.Devices.Ingest.Predict.{detect, detect_gases, join, predict, predict_gases}

-- What the device's row gets, and what the rest of the POST needs.
pub record Saved (F : Type 0) : Type 0 where
  pub status : Status
  pub values : List (String × Option F)
  pub is_ai : Bool
  pub ai_detail : String
  pub persisted : Bool
  pub last_value : Option F

pub record Labels : Type 0 where
  pub scenario_id : Option String
  pub expected_phase : Option ℕ
  pub expected_status : Option String

module _ (fl : FloatOps) (arima : Forecaster fl.Float) (forest : Forest fl.Float)
    (show_nat : ℕ → String) (median : List fl.Float → fl.Float) (interval now : ℕ) where
  open fl use {Float, lit}

  abbrev pub column : List (String × Option Float) → String → Option Float
  column [] name = none
  column ((key, value) ∷ rest) name =
      let found = column rest name in if str_eq key name then value else found

  abbrev pub reading : Request Float → String → Option Float
  reading request key = get_float fl arima forest (request.values key)

  abbrev pub gas_reading : Request Float → List (String × Option Float)
  gas_reading request =
      ("co", reading request "co")
      ∷ ("h2s", reading request "h2s")
      ∷ ("co2", reading request "co2")
      ∷ ("o2", reading request "o2")
      ∷ ("no2", reading request "no2")
      ∷ ("so2", reading request "so2")
      ∷ ("o3", reading request "o3")
      ∷ ("nh3", reading request "nh3")
      ∷ ("voc", reading request "voc")
      ∷ []

  abbrev pub power_reading : Request Float → List (String × Option Float)
  power_reading request =
      ("current", reading request "current")
      ∷ ("voltage", reading request "voltage")
      ∷ ("watt", reading request "watt")
      ∷ []

  -- `none` is the ValueError of `int(ep_raw)`.
  unfoldable pub labels_of : Request Float → Option Labels
  labels_of request = elim request.expected_phase [
    | RawPhase.absent ↦ some (record {
      scenario_id = request.scenario_id;
      expected_phase = none;
      expected_status = request.expected_status;
    })
    | RawPhase.malformed ↦ none
    | RawPhase.phase n ↦ some (record {
      scenario_id = request.scenario_id;
      expected_phase = some n;
      expected_status = request.expected_status;
    })
  ]

  unfoldable pub save_row :
      Intake fl arima forest
      → Device Float
      → Status
      → List (String × Option Float)
      → Labels
      → Intake fl arima forest
  save_row st device s values labels = record st {
    readings =
        record {
          device = device.id;
          device_id = device.device_id;
          timestamp = now;
          status = s;
          value = column values;
          scenario_id = labels.scenario_id;
          expected_phase = labels.expected_phase;
          expected_status = labels.expected_status;
        }
        ∷ st.readings;
  }

  abbrev pub or_last : Option Float → Option Float → Option Float
  or_last none last = last
  or_last (some v) last = some v

  abbrev pub save_key : Device Float → String
  save_key device = text_append "dbsave:" device.device_id

  abbrev pub is_empty : List String → Bool
  is_empty [] = true
  is_empty (_ ∷ _) = false

  -- The detectors, for a gas reading that passed the gate.
  unfoldable pub watch_gas :
      Intake fl arima forest
      → Device Float
      → Status
      → List (String × Option Float)
      → Intake fl arima forest × List String × Bool
  watch_gas st device s gas =
      let (st1, found) = detect_gases fl arima forest show_nat now st device.device_id gas in
      if same_status s Status.normal
      then (let (st2, fine) = predict_gases fl arima forest show_nat now st1 device s gas in
          (st2, found, fine))
      else (let (st2, fine) = predict_gases fl arima forest show_nat now st device s gas in
          (st2, [], fine))

  -- A gas reading whose status is `s`; `last` is the device's new last value.
  unfoldable pub save_gas_as :
      Intake fl arima forest
      → Device Float
      → Labels
      → List (String × Option Float)
      → Status
      → (last : Option Float) → Intake fl arima forest × Option (Saved Float)
  save_gas_as st device labels gas s last =
      let (gate, do_heavy) = should_persist st.gate now interval (save_key device) in
      let gated : Intake fl arima forest = record st { gate = gate } in
      let (watched, kinds, fine) = watch_gas gated device s gas in
      if not do_heavy
      then (
        gated,
        some (record {
          status = s;
          values = gas;
          is_ai = false;
          ai_detail = "";
          persisted = false;
          last_value = last;
        }),
      )
      else if not fine
      then (watched, none)
      else (
        save_row watched device s gas labels,
        some (record {
          status = s;
          values = gas;
          is_ai = not (is_empty kinds);
          ai_detail = if is_empty kinds then "" else text_append "ARIMA: " (join kinds);
          persisted = true;
          last_value = last;
        }),
      )

  unfoldable pub save_gas :
      Intake fl arima forest
      → Device Float
      → Request Float
      → Labels
      → Intake fl arima forest × Option (Saved Float)
  save_gas st device request labels =
      let gas : List (String × Option Float) = gas_reading request in
      save_gas_as st device labels gas (classify_gas fl gas)
        (or_last (reading request "co") device.last_value)

  -- All three values are there: any other reading ends in the TypeError of `float(None)`.
  unfoldable pub power_of : Request Float → Option (PowerReading Float)
  power_of request = elim (reading request "watt") [
    | none ↦ none
    | some watt ↦ elim (reading request "voltage") [
      | none ↦ none
      | some voltage ↦ elim (reading request "current") [
        | none ↦ none
        | some current ↦ some (record { watt = watt; voltage = voltage; current = current })
      ]
    ]
  ]

  abbrev pub watt_threshold : Float
  watt_threshold = lit 3000 1

  -- The detector of the power, on every reading that is classified as normal: what it finds makes
  -- the reading a caution.
  unfoldable pub watch_power :
      Intake fl arima forest
      → Device Float
      → Status
      → (watt : Float) → Intake fl arima forest × Status × Bool
  watch_power st device s watt =
      let (st', found) =
        detect fl arima forest show_nat now st device.device_id "power_watt" watt in
      if same_status s Status.normal
      then (st', if found then Status.caution else s, found)
      else (st, s, false)

  unfoldable pub save_classified :
      Intake fl arima forest
      → Device Float
      → Request Float
      → Labels
      → (watt : Float) → Status
      → Intake fl arima forest × Option (Saved Float)
  save_classified st device request labels watt classified =
      let (watched, s, is_ai) = watch_power st device classified watt in
      let (gate, do_heavy) = should_persist watched.gate now interval (save_key device) in
      let gated : Intake fl arima forest = record watched { gate = gate } in
      let (predicted, fine) =
        predict fl arima forest show_nat now gated device s "watt" "power" watt watt_threshold
          "전력" in
      let saved : Saved Float = record {
        status = s;
        values = power_reading request;
        is_ai = is_ai;
        ai_detail = if is_ai then "전력" else "";
        persisted = do_heavy;
        last_value = some watt;
      } in
      if not do_heavy
      then (gated, some saved)
      else if not fine
      then (predicted, none)
      else (save_row predicted device s (power_reading request) labels, some saved)

  unfoldable pub save_power :
      Intake fl arima forest
      → Device Float
      → Request Float
      → Labels
      → Intake fl arima forest × Option (Saved Float)
  save_power st device request labels = elim (power_of request) [
    | none ↦ (st, none)
    | some p ↦
        save_classified st device request labels p.watt
          (classify_power fl median (watt_rows fl arima forest st.readings) now p device.device_id)
  ]
