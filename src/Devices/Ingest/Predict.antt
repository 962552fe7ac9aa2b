-- ===== src/Devices/Ingest/Predict.antt =====
-- SenSa/devices/views.py: the detectors in a POST, and `_create_ai_prediction`. A pair of a state
-- and a Boolean says whether the call went on; `false` is an exception.
use sen_sa.Prelude.{
  ℕ, ◌+◌, ◌-◌, ◌*◌, Bool, true, false, Option, none, some, List, [], ◌∷◌, String, ltb,
  if◌then◌else◌,
}
use sen_sa.Prelude.Float.{FloatOps}
use sen_sa.Prelude.Text.{str_eq, ◌++◌ as text_append}
use sen_sa.Alerts.Types.{AlarmType, Level, Status, same_status}
use sen_sa.Alerts.World.{Alarm}
use sen_sa.Alerts.Classify.{gas_thresholds}
use sen_sa.Alerts.Detectors.Arima.{Forecaster, detect_anomaly}
use sen_sa.Alerts.Detectors.Trend.{
  AiPrediction, Forest, PredInfo, pending, predict_trend, verify_predictions,
}
use sen_sa.Geofence.Zone.{Device}
use sen_sa.Devices.Ingest.{Intake, set_at}

-- `_AI_PRED_THROTTLE_SEC`
abbrev pub ai_pred_throttle : ℕ
ai_pred_throttle = 180000000

-- `GAS_LABELS`
unfoldable pub gas_label : String → String
gas_label key =
    if str_eq key "co"
    then "CO"
    else if str_eq key "h2s"
    then "H2S"
    else if str_eq key "co2"
    then "CO2"
    else if str_eq key "o2"
    then "O2"
    else if str_eq key "no2"
    then "NO2"
    else if str_eq key "so2"
    then "SO2"
    else if str_eq key "o3"
    then "O3"
    else if str_eq key "nh3"
    then "NH3"
    else "VOC"

-- `', '.join(texts)`
abbrev pub join : List String → String
join [] = ""
join (t ∷ []) = t
join (t ∷ u ∷ rest) = text_append t (text_append ", " (join (u ∷ rest)))

module _ (fl : FloatOps) (arima : Forecaster fl.Float) (forest : Forest fl.Float)
    (show_nat : ℕ → String) (now : ℕ) where
  open fl use {Float, format_2f, lit}

  -- `GAS_THRESHOLDS_CAUTION`
  unfoldable pub gas_thresholds_caution : String → Option Float
  gas_thresholds_caution key =
      if str_eq key "o2"
      then some (lit 18 1)
      else elim (gas_thresholds fl key) [ none ↦ none | some (caution, danger) ↦ some caution ]

  unfoldable pub prediction_message :
      (device_id label : String) (value : Float) → PredInfo Float → String
  prediction_message device_id label value info = text_append "AI예측 - " (
      text_append device_id (
        text_append " " (
          text_append label (
            text_append " 약 " (
              text_append (show_nat info.predicted_ticks) (
                text_append "틱 후 임계치 초과 예상 (현재 " (
                  text_append (format_2f value)
                    (text_append " → 예상 " (text_append (format_2f info.predicted_value) ")")))))))))

  -- Nothing happens within 180 seconds of the last prediction for the sensor and key.
  unfoldable pub create_ai_prediction :
      Intake fl arima forest
      → Device Float
      → (sensor_key sensor_type : String) (value threshold : Float) → PredInfo Float
      → (label : String) → Intake fl arima forest
  create_ai_prediction st device sensor_key sensor_type value threshold info label =
      let message : String = prediction_message device.device_id label value info in
      let alarm : Alarm Float = record {
        id = st.world.next_id;
        alarm_type = AlarmType.ai_prediction;
        alarm_level = Level.caution;
        worker_id = "";
        worker_name = "";
        position = none;
        geofence = none;
        device_id = device.device_id;
        sensor_type = sensor_type;
        message = message;
        is_read = false;
        is_ai = true;
        created_at = now;
      } in
      let pred : AiPrediction Float = record {
        device_id = device.device_id;
        sensor_key = sensor_key;
        sensor_type = sensor_type;
        value_at_predict = value;
        threshold = threshold;
        info = info;
        result = pending;
        expires_at = now + info.predicted_ticks * 2 * 1000000;
        created_at = now;
        alarm = alarm.id;
      } in
      if ltb (now - st.last_prediction device.device_id sensor_key) ai_pred_throttle
      then st
      else record st {
        last_prediction = set_at fl arima forest st.last_prediction device.device_id sensor_key now;
        world = record st.world {
          alarms = alarm ∷ st.world.alarms;
          next_id = st.world.next_id + 1;
        };
        predictions = pred ∷ st.predictions;
        ai_published =
            record {
              alarm_id = alarm.id;
              device_id = device.device_id;
              sensor_type = sensor_type;
              message = message;
            }
            ∷ st.ai_published;
      }

  unfoldable pub detect :
      Intake fl arima forest
      → (device_id sensor_type : String) (value : Float) → Intake fl arima forest × Bool
  detect st device_id sensor_type value =
      let (ds, found) = detect_anomaly fl arima (st.detectors device_id sensor_type) now value in
      (
        record st { detectors = set_at fl arima forest st.detectors device_id sensor_type ds },
        found,
      )

  -- The loop over the gases: the labels of those out of pattern.
  unfoldable pub detect_gases :
      Intake fl arima forest
      → (device_id : String) → List (String × Option Float)
      → Intake fl arima forest × List String
  detect_gases st device_id [] = (st, [])
  detect_gases st device_id ((key, none) ∷ rest) = detect_gases st device_id rest
  detect_gases st device_id ((key, some v) ∷ rest) =
      let (st1, found) = detect st device_id (text_append "gas_" key) v in
      let (st2, kinds) = detect_gases st1 device_id rest in
      (st2, if found then gas_label key ∷ kinds else kinds)

  -- The check of what was predicted and, while the sensor is normal, a prediction.
  unfoldable pub predict :
      Intake fl arima forest
      → Device Float
      → Status
      → (sensor_key sensor_type : String) (value threshold : Float) (label : String)
      → Intake fl arima forest × Bool
  predict st device s sensor_key sensor_type value threshold label =
      let verified : Intake fl arima forest = record st {
        predictions =
            verify_predictions fl forest st.predictions now device.device_id sensor_key value
              threshold;
      } in
      let (ss, answer) =
        predict_trend fl forest (st.predictors device.device_id sensor_key) value threshold in
      let seen : Intake fl arima forest = record verified {
        predictors = set_at fl arima forest st.predictors device.device_id sensor_key ss;
      } in
      if same_status s Status.normal
      then elim answer [
        | none ↦ (seen, false)
        | some none ↦ (seen, true)
        | some (some info) ↦ (
          create_ai_prediction seen device sensor_key sensor_type value threshold info label,
          true,
        )
      ]
      else (verified, true)

  unfoldable pub predict_gases :
      Intake fl arima forest
      → Device Float
      → Status
      → List (String × Option Float)
      → Intake fl arima forest × Bool
  predict_gases st device s [] = (st, true)
  predict_gases st device s ((key, none) ∷ rest) = predict_gases st device s rest
  predict_gases st device s ((key, some v) ∷ rest) = elim (gas_thresholds_caution key) [
    | none ↦ predict_gases st device s rest
    | some threshold ↦
        let (st', fine) = predict st device s key "gas" v threshold (gas_label key) in
        let later = predict_gases st' device s rest in if fine then later else (st', false)
  ]
