-- ===== src/Dashboard/Check/Answer.antt =====
-- What the answer of the check lists.
use sen_sa.Prelude.{
  ℕ, ◌≡◌, refl, sym, ap, ◌∙◌, Bool, true, false, Option, none, some, List, [], ◌∷◌, ◌++◌, String,
  Bool-cases, Option-cases, inl, inr, if_ind,
}
use sen_sa.Prelude.Float.{FloatOps}
use sen_sa.Prelude.Text.{str_eq}
use sen_sa.Alerts.Types.{Status, Reason, WorkerState, parse_status}
use sen_sa.Alerts.Store.{SensorSnapshot, WorkerSnapshot, get_sensor_snapshot, get_worker_snapshot}
use sen_sa.Alerts.World.{Payload, World, of_worker}
use sen_sa.Alerts.Fences.{Db, find_containing_geofences}
use sen_sa.Geofence.Zone.{GeoFence}
use sen_sa.Alerts.Worker.State.{classify_state}
use sen_sa.Alerts.Worker.Evaluate.{
  conclude as conclude_worker, confirm as confirm_worker, verdict as verdict_worker,
  evaluate_worker, notify_worker_zone_entry, raise_alarm as raise_worker,
}
use sen_sa.Alerts.Sensor.Evaluate.{
  Reading, clear_if_confirmed, confirm as confirm_sensor, verdict as verdict_sensor,
  conclude as conclude_sensor, raise_alarm as raise_sensor, evaluate_sensor, evaluate_status,
}
use sen_sa.Dashboard.Check.{
  SensorItem, WorkerItem, check_geofence, check_sensor, check_sensors, check_worker, check_workers,
  compute_nearby_sensor_status, name_of, reading_of, sensor_payloads, worker_payloads,
}

-- The later alarms stand before the earlier ones.
abbrev pub onto : {A : Type 0} → List A → List A → List A
onto [] old = old
onto (a ∷ rest) old = onto rest (a ∷ old)

onto-append : {A : Type 0} (xs ys old : List A) → onto (xs ++ ys) old ≡ onto ys (onto xs old)
onto-append [] ys old = refl
onto-append (x ∷ xs) ys old = onto-append xs ys (x ∷ old)

module _ (fl : FloatOps) (configured : Bool) (db : Db fl.Float) (now : ℕ) where
  open fl use {Float}

  abbrev pub IsListed : World Float → World Float × List Payload → Type 0
  IsListed w r = r.0.published ≡ onto r.1 w.published

  two_rounds :
      (w : World Float) (r1 r2 : World Float × List Payload)
      → IsListed w r1
      → IsListed r1.0 r2
      → IsListed w (r2.0, r1.1 ++ r2.1)
  two_rounds w r1 r2 first later =
      later ∙ ap (onto r2.1) first ∙ sym (onto-append r1.1 r2.1 w.published)

  published-notify_worker_zone_entry :
      (configured : Bool) (w : World Float) (name : String) (from_state to_state : WorkerState)
      (fence : Option (GeoFence Float)) (x y : Float) (worst : Status)
      → (notify_worker_zone_entry fl configured w name from_state to_state fence x y
          worst).published
        ≡ w.published
  unfolding notify_worker_zone_entry
  published-notify_worker_zone_entry false w name from_state to_state fence x y worst = refl
  published-notify_worker_zone_entry true w name from_state to_state fence x y worst = refl

  raise_worker-IsListed :
      (w : World Float) (id name : String) (x y : Float) (worst : Status)
      (sensors : List (String × Status)) (geofences : List (GeoFence Float))
      (official : WorkerState) (reason : Reason) (target : WorkerState)
      → let (w', payload) =
          raise_worker fl configured w now id name x y worst sensors geofences official
            (reason, target) in
        w'.published ≡ of_worker payload ∷ w.published
  unfolding raise_worker
  raise_worker-IsListed w id name x y worst sensors geofences official reason target =
      if_ind
        (λ (told : World Float).
          told.published
          ≡ of_worker
              (raise_worker fl configured w now id name x y worst sensors geofences official
                (reason, target)).1
            ∷ w.published)
        _ (published-notify_worker_zone_entry configured _ name official target _ x y worst) refl

  conclude_worker-IsListed :
      (w : World Float) (id name : String) (x y : Float) (worst : Status)
      (sensors : List (String × Status)) (geofences : List (GeoFence Float))
      (official : WorkerState) (v : Option (Reason × WorkerState))
      → let (w', payloads) =
          conclude_worker fl configured w now id name x y worst sensors geofences official v in
        IsListed w (w', worker_payloads fl configured db now payloads)
  unfolding conclude_worker
  conclude_worker-IsListed w id name x y worst sensors geofences official none = refl
  conclude_worker-IsListed w id name x y worst sensors geofences official (some (reason, target)) =
      raise_worker-IsListed w id name x y worst sensors geofences official reason target

  evaluate_worker-IsListed :
      (w : World Float) (id name : String) (x y : Float) (worst : Status)
      (sensors : List (String × Status))
      → let (w', payloads) = evaluate_worker fl configured db w now id name x y worst sensors in
        IsListed w (w', worker_payloads fl configured db now payloads)
  unfolding evaluate_worker
  evaluate_worker-IsListed w id name x y worst sensors =
      let geofences : List (GeoFence Float) = find_containing_geofences fl db x y in
      let observed : WorkerState = classify_state geofences worst in
      let snap : WorkerSnapshot = get_worker_snapshot w.redis now id in
      let (redis, confirmed) = confirm_worker w.redis now id snap observed in
      conclude_worker-IsListed (record w { redis = redis }) id name x y worst sensors geofences
        snap.state (verdict_worker now snap confirmed)

  conclude_sensor-IsListed :
      (w : World Float) (reading : Reading) (official : Status) (v : Option (Reason × Status))
      → let (w', payloads) = conclude_sensor fl db w now reading official v in
        IsListed w (w', sensor_payloads fl configured db now payloads)
  unfolding conclude_sensor raise_sensor
  conclude_sensor-IsListed w reading official none =
      if_ind (λ (w' : World Float). w'.published ≡ w.published) _ refl refl
  conclude_sensor-IsListed w reading official (some v) = refl

  evaluate_status-IsListed :
      (w : World Float) (reading : Reading) (observed : Status)
      → let (w', payloads) = evaluate_status fl db w now reading observed in
        IsListed w (w', sensor_payloads fl configured db now payloads)
  unfolding evaluate_status
  evaluate_status-IsListed w reading observed =
      let snap : SensorSnapshot = get_sensor_snapshot w.redis now reading.device_id in
      let (redis, confirmed) = confirm_sensor w.redis now reading.device_id snap observed in
      conclude_sensor-IsListed
        (record w { redis = clear_if_confirmed now reading.device_id (redis, confirmed) }) reading
        snap.state (verdict_sensor now snap confirmed)

  evaluate_sensor-IsListed :
      (w : World Float) (reading : Reading)
      → let (w', payloads) = evaluate_sensor fl db w now reading in
        IsListed w (w', sensor_payloads fl configured db now payloads)
  unfolding evaluate_sensor
  evaluate_sensor-IsListed w reading = elim (Option-cases (parse_status reading.observed_status)) [
    | inl unread ↦ rw (evaluate_sensor, unread) refl
    | inr (observed, read) ↦
        rw (evaluate_sensor, read) (evaluate_status-IsListed w reading observed)
  ]

  check_worker-IsListed :
      (w : World Float) (sensors : List (SensorItem Float)) (worker : WorkerItem Float)
      → IsListed w (check_worker fl configured db now w sensors worker)
  unfolding check_worker
  check_worker-IsListed w sensors worker =
      let (worst, influencing) = compute_nearby_sensor_status fl worker.x worker.y sensors in
      elim (Bool-cases (str_eq worker.worker_id "")) [
        | inl nameless ↦ rw (check_worker, nameless) refl
        | inr named ↦
            rw (check_worker, named)
              (evaluate_worker-IsListed w worker.worker_id (name_of fl configured db now worker)
                worker.x worker.y worst influencing)
      ]

  check_workers-IsListed :
      (w : World Float) (sensors : List (SensorItem Float)) (workers : List (WorkerItem Float))
      → IsListed w (check_workers fl configured db now w sensors workers)
  unfolding check_workers
  check_workers-IsListed w sensors [] = refl
  check_workers-IsListed w sensors (worker ∷ rest) =
      let first = check_worker fl configured db now w sensors worker in
      two_rounds w first (check_workers fl configured db now first.0 sensors rest)
        (check_worker-IsListed w sensors worker) (check_workers-IsListed first.0 sensors rest)

  check_sensor-IsListed :
      (w : World Float) (s : SensorItem Float) → IsListed w (check_sensor fl configured db now w s)
  unfolding check_sensor
  check_sensor-IsListed w s = elim (Bool-cases (str_eq s.device_id "")) [
    | inl nameless ↦ rw (check_sensor, nameless) refl
    | inr named ↦
        rw (check_sensor, named) (evaluate_sensor-IsListed w (reading_of fl configured db now s))
  ]

  check_sensors-IsListed :
      (w : World Float) (sensors : List (SensorItem Float))
      → IsListed w (check_sensors fl configured db now w sensors)
  unfolding check_sensors
  check_sensors-IsListed w [] = refl
  check_sensors-IsListed w (s ∷ rest) =
      let first = check_sensor fl configured db now w s in
      two_rounds w first (check_sensors fl configured db now first.0 rest)
        (check_sensor-IsListed w s) (check_sensors-IsListed first.0 rest)

  -- The answer lists exactly the alarms that the check has broadcast, in the order in which it did.
  pub check_geofence-IsListed :
      (w : World Float) (workers : List (WorkerItem Float)) (sensors : List (SensorItem Float))
      → IsListed w (check_geofence fl configured db now w workers sensors)
  unfolding check_geofence
  check_geofence-IsListed w workers sensors =
      let first = check_workers fl configured db now w sensors workers in
      two_rounds w first (check_sensors fl configured db now first.0 sensors)
        (check_workers-IsListed w sensors workers) (check_sensors-IsListed first.0 sensors)
