-- ===== src/Devices/Ingest/Alarming.antt =====
-- The alarm of a gas reading, whatever the gates say.
use mathlib.Core.Path.{subst}
use sen_sa.Prelude.{
  ℕ, ◌≡◌, refl, sym, ap, ◌∙◌, Bool, true, false, Option, none, some, List, [], ◌∷◌, String,
  Bool-cases, Option-cases, inl, inr, if_ind,
}
use sen_sa.Prelude.Float.{FloatOps}
use sen_sa.Prelude.Text.{Casing, str_eq}
use sen_sa.Alerts.Types.{Status, same_status}
use sen_sa.Alerts.Fences.{Db}
use sen_sa.Alerts.Classify.{classify_gas}
use sen_sa.Alerts.Worker.Message.{status_text}
use sen_sa.Alerts.Sensor.Evaluate.{Reading, evaluate_sensor}
use sen_sa.Alerts.Detectors.Arima.{Forecaster}
use sen_sa.Alerts.Detectors.Trend.{Forest}
use sen_sa.Geofence.Zone.{Device}
use sen_sa.Devices.Gate.{should_persist}
use sen_sa.Devices.Ingest.{Intake, Request, Response, accepted, db_of}
use sen_sa.Devices.Ingest.Predict.{gas_label, gas_thresholds_caution, predict, predict_gases}
use sen_sa.Devices.Ingest.Save.{
  Labels, Saved, gas_reading, save_gas, save_gas_as, save_key, save_row, watch_gas,
}
use sen_sa.Devices.Ingest.Post.{
  alarm_reading, finish, finish_if_saved, post, publish, raise_alarms, save_and_finish, trigger,
  type_of, write_device,
}
use sen_sa.Devices.Ingest.Refusals.{IsTaken, post_taken}

module _ (fl : FloatOps) (text : Casing) (arima : Forecaster fl.Float) (forest : Forest fl.Float)
    (show_nat : ℕ → String) (median : List fl.Float → fl.Float) (interval now : ℕ) where
  open fl use {Float, flt, lit}

  -- What the detectors leave alone while a reading is not normal.
  abbrev IsQuiet : Intake fl arima forest → Intake fl arima forest → Type 0
  IsQuiet old new = (new.world ≡ old.world) × (new.zones ≡ old.zones) × (new.devices ≡ old.devices)

  predict-IsQuiet :
      (st : Intake fl arima forest) (device : Device Float) (s : Status) (key kind : String)
      (value threshold : Float) (label : String)
      → same_status s Status.normal ≡ false
      → let (st', fine) =
          predict fl arima forest show_nat now st device s key kind value threshold label in
        IsQuiet st st' × (fine ≡ true)
  unfolding predict
  predict-IsQuiet st device s key kind value threshold label alarming =
      rw alarming ((refl, refl, refl), refl)

  predict_gases-IsQuiet :
      (st : Intake fl arima forest) (device : Device Float) (s : Status)
      (gas : List (String × Option Float))
      → same_status s Status.normal ≡ false
      → let (st', fine) = predict_gases fl arima forest show_nat now st device s gas in
        IsQuiet st st' × (fine ≡ true)
  unfolding predict_gases
  predict_gases-IsQuiet st device s [] alarming = ((refl, refl, refl), refl)
  predict_gases-IsQuiet st device s ((key, none) ∷ rest) alarming =
      predict_gases-IsQuiet st device s rest alarming
  predict_gases-IsQuiet st device s ((key, some v) ∷ rest) alarming =
      elim (Option-cases (gas_thresholds_caution fl arima forest show_nat now key)) [
        | inl unknown ↦
            rw (predict_gases, unknown) (predict_gases-IsQuiet st device s rest alarming)
        | inr (threshold, known) ↦
            let (quiet, fine) =
              predict-IsQuiet st device s key "gas" v threshold (gas_label key) alarming in
            let (later, ended) =
              predict_gases-IsQuiet
                (predict fl arima forest show_nat now st device s key "gas" v threshold
                  (gas_label key)).0
                device s rest alarming in
            rw (predict_gases, known, fine)
              ((later.0 ∙ quiet.0, later.1 ∙ quiet.1, later.2 ∙ quiet.2), ended)
      ]

  -- A gas reading that is not normal is saved, or not, without a touch on the alarms, and goes on.
  abbrev IsSavedAs :
      Status → Intake fl arima forest → Intake fl arima forest × Option (Saved Float) → Type 0
  IsSavedAs s old (new, none) = ⊥
  IsSavedAs s old (new, some saved) =
      IsQuiet old new × (saved.status ≡ s) × (saved.is_ai ≡ false) × (saved.ai_detail ≡ "")

  save_gas_as-IsSavedAs :
      (st : Intake fl arima forest) (device : Device Float) (labels : Labels)
      (gas : List (String × Option Float)) (s : Status) (last : Option Float)
      → same_status s Status.normal ≡ false
      → IsSavedAs s st
          (save_gas_as fl arima forest show_nat median interval now st device labels gas s last)
  unfolding save_gas_as watch_gas save_row
  save_gas_as-IsSavedAs st device labels gas s last alarming =
      let (gate, heavy) =
        should_persist st.gate now interval
          (save_key fl arima forest show_nat median interval now device) in
      elim (Bool-cases heavy) [
        | inl through ↦
            let (quiet, fine) =
              predict_gases-IsQuiet (record st { gate = gate }) device s gas alarming in
            rw (through, watch_gas, alarming, fine, save_row) (quiet, refl, refl, refl)
        | inr held ↦ rw held ((refl, refl, refl), refl, refl, refl)
      ]

  -- The call of `evaluate_sensor` that a reading without a finding of the detectors makes.
  abbrev pub plain_reading : Device Float → (kind : String) → Status → Reading
  plain_reading device kind s = record {
    device_id = device.device_id;
    sensor_type = kind;
    observed_status = status_text s;
    detail = "";
    is_ai = false;
    ai_detail = "";
  }

  abbrev pub IsAlarmed :
      Intake fl arima forest
      → Device Float
      → (kind : String) → Status
      → Intake fl arima forest × Response
      → Type 0
  IsAlarmed st device kind s r =
      (db : Db Float) × (db.fences ≡ st.zones.fences)
      × (r.0.world ≡ (evaluate_sensor fl db st.world now (plain_reading device kind s)).0)
      × ((persisted : Bool) × (r.1 ≡ accepted s false persisted))

  trigger-world :
      (st : Intake fl arima forest) (device : Device Float) (kind : String) (saved : Saved Float)
      → (trigger fl text arima forest show_nat median interval now st device kind saved).world
        ≡ st.world
  unfolding trigger
  trigger-world st device kind saved = elim (Bool-cases (str_eq kind "gas")) [
    | inl gas ↦ rw (trigger, gas) refl
    | inr other ↦ rw (trigger, other) refl
  ]

  write_device-IsQuiet :
      (st : Intake fl arima forest) (device : Device Float) (saved : Saved Float)
      → let st' = write_device fl text arima forest show_nat median interval now st device saved in
        (st'.world ≡ st.world) × (st'.zones ≡ st.zones)
  unfolding write_device
  write_device-IsQuiet st device saved =
      if_ind (λ (st' : Intake fl arima forest). (st'.world ≡ st.world) × (st'.zones ≡ st.zones)) _
        (refl, refl) (refl, refl)

  alarm_reading_plain :
      (device : Device Float) (kind : String) (s : Status) (saved : Saved Float)
      → saved.status ≡ s
      → saved.is_ai ≡ false
      → saved.ai_detail ≡ ""
      → alarm_reading fl text arima forest show_nat median interval now device kind saved
        ≡ plain_reading device kind s
  alarm_reading_plain device kind s saved same plain silent = rw (same, plain, silent) refl

  finish_if_saved-IsAlarmed :
      (st : Intake fl arima forest) (device : Device Float) (kind : String) (s : Status)
      (result : Intake fl arima forest × Option (Saved Float))
      → IsSavedAs s st result
      → IsAlarmed st device kind s
          (finish_if_saved fl text arima forest show_nat median interval now device kind result)
  unfolding finish raise_alarms publish
  finish_if_saved-IsAlarmed st device kind s (new, none) never = elim never [ ]
  finish_if_saved-IsAlarmed st device kind s (new, some saved) (quiet, same, plain, silent) =
      let written =
        write_device fl text arima forest show_nat median interval now new device saved in
      let kept = write_device-IsQuiet new device saved in
      let db : Db Float =
        db_of fl arima forest
          (publish fl text arima forest show_nat median interval now written device kind saved) in
      (
        db,
        ap (λ zones. zones.fences) (kept.1 ∙ quiet.1),
        trigger-world _ device kind saved
            ∙ ap
                (λ w.
                  (evaluate_sensor fl db w now (
                    alarm_reading fl text arima forest show_nat median interval now device kind
                      saved)).0)
                (kept.0 ∙ quiet.0)
            ∙ ap (λ r. (evaluate_sensor fl db st.world now r).0)
                (alarm_reading_plain device kind s saved same plain silent),
        (saved.persisted, rw (same, plain) refl),
      )

  save_and_finish_gas :
      (st : Intake fl arima forest) (request : Request Float) (device : Device Float)
      (labels : Labels)
      → type_of fl text arima forest show_nat median interval now request device ≡ "gas"
      → save_and_finish fl text arima forest show_nat median interval now st device request labels
        ≡ finish_if_saved fl text arima forest show_nat median interval now device "gas"
            (save_gas fl arima forest show_nat median interval now st device request labels)
  unfolding save_and_finish
  save_and_finish_gas st request device labels gas = rw (save_and_finish, gas) refl

  -- The alarm of a gas reading that is not normal never waits for a gate: whether or not the reading
  -- is saved, and whatever the detectors hold, the POST answers 201 with the reading's status, and
  -- it changes the alarms and their state as one call of `evaluate_sensor` with it does.
  pub post-IsAlarmed :
      (st : Intake fl arima forest) (request : Request Float) (device : Device Float)
      (labels : Labels)
      → IsTaken fl text arima forest show_nat median interval now st request device labels
      → type_of fl text arima forest show_nat median interval now request device ≡ "gas"
      → same_status
          (classify_gas fl (gas_reading fl arima forest show_nat median interval now request))
          Status.normal
        ≡ false
      → IsAlarmed st device "gas"
          (classify_gas fl (gas_reading fl arima forest show_nat median interval now request))
          (post fl text arima forest show_nat median interval now st request)
  unfolding save_gas
  post-IsAlarmed st request device labels taken gas alarming =
      subst (IsAlarmed st device "gas" _)
        (sym (
          post_taken fl text arima forest show_nat median interval now st request device labels
            taken
          ∙ save_and_finish_gas st request device labels gas))
        (finish_if_saved-IsAlarmed st device "gas" _ _
          (save_gas_as-IsSavedAs st device labels _ _ _ alarming))
